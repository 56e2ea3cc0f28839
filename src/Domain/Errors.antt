-- ===== src/Domain/Errors.antt =====
-- Go's `error` values: errors.New and fmt.Errorf in every package of internal/, with their texts.
use queue_ctl.Prelude.{String, ◌≡◌, refl, Bool, true, false}
use queue_ctl.Prelude.Text.{◌^^◌}

-- `msg` is an error that wraps none, `wrap t e` is fmt.Errorf("t: %w", e), `detail e t`
-- is fmt.Errorf("%w: t", e). `driver` is whatever the
-- database driver reports. The others are the sentinels that callers look for by errors.Is.
-- An error that a format string prints with %v is only text.
pub data Error : Type 0 where
  msg : String → Error
  wrap : String → Error → Error
  detail : Error → String → Error
  driver : String → Error
  already_reclaimed handler_already_registered handler_not_found concurrency_conflict : Error
  invalid_json : Error

-- err.Error()
unfoldable pub error_text : Error → String
error_text (msg t) = t
error_text (wrap t e) = t ^^ ": " ^^ error_text e
error_text (detail e t) = error_text e ^^ ": " ^^ t
error_text (driver t) = t
error_text already_reclaimed = "job was already reclaimed or updated by another process"
error_text handler_already_registered = "handler already registered for this job type"
error_text handler_not_found = "no handler registered for this job type"
error_text concurrency_conflict = "concurrency conflict: record was updated by another process"
error_text invalid_json = "payload must be a valid JSON string"

-- errors.Is(err, ErrAlreadyReclaimed), which follows the wrapped errors
unfoldable pub is_already_reclaimed : Error → Bool
is_already_reclaimed already_reclaimed = true
is_already_reclaimed (wrap t e) = is_already_reclaimed e
is_already_reclaimed (detail e t) = is_already_reclaimed e
is_already_reclaimed _ = false

-- A Go function that returns a value and an error.
pub data Result {ℓ} (Value : Type ℓ) : Type ℓ where
  ok : Value → Result Value
  err : Error → Result Value

-- What follows `if err != nil { return err }`.
abbrev unless_failed {ℓ κ} :
    {Value : Type ℓ} {Next : Type κ} → (Value → Result Next) → Result Value → Result Next
unless_failed next (err e) = err e
unless_failed next (ok value) = next value

infixl 5 ◌>>◌ ◌>>=◌
abbrev pub ◌>>=◌ {ℓ κ} :
    {Value : Type ℓ} {Next : Type κ} → Result Value → (Value → Result Next) → Result Next
result >>= next = unless_failed next result

abbrev pub ◌>>◌ {κ} : {Next : Type κ} → Result (Unit {0}) → Result Next → Result Next
checked >> rest = unless_failed (λ _. rest) checked

-- if bad { return errors.New(text) }
abbrev pub refuse : Bool → String → Result (Unit {0})
refuse true text = err (msg text)
refuse false text = ok tt

wrapped_text :
    error_text (wrap "failed to get job details" (msg "job not found: j1"))
    ≡ "failed to get job details: job not found: j1"
unfolding error_text
wrapped_text = refl
