-- ===== src/Cli/Pid/RoundTrip.antt =====
-- What writePIDFile of internal/cli/worker.go writes, readPIDFile reads.
use mathlib.Core.Option
use mathlib.Core.List.{append-nil}
use queue_ctl.Prelude.{
  ℕ, zero, suc, ◌+◌, ◌*◌, ◌/◌, ◌%◌, ◌^◌, ◌<◌, ◌≡◌, ◌≢◌, refl, ap, sym, ◌∙◌, true, false, none, some,
  List, [], ◌∷◌, ◌++◌, All, arith,
}
use queue_ctl.Prelude.Int.{ℤ, pos, negsuc, InInt64}
use queue_ctl.Cli.Pid.{
  Files, digits, itoa, is_digit, scan, positive, negative, atoi, is_space, trim_start, trim_end,
  trim_space, write_pid_file, read_pid_file, found,
}

pow_next : (k : ℕ) → 10 ^ suc k ≡ 10 * 10 ^ k
pow_next k = omega arith

scan_digit : (n : ℕ) (out : List ℕ) → scan ((48 + n % 10) ∷ out) (n / 10) ≡ scan out n
unfolding scan
scan_digit n out = ground arith

scan-digits : (fuel n : ℕ) (out : List ℕ) → n < 10 ^ fuel → scan (digits fuel n out) 0 ≡ scan out n
unfolding scan digits
scan-digits zero n out h = ground arith
scan-digits (suc fuel) n out h =
    let bound : n / 10 < 10 ^ fuel = omega (arith, pow_next fuel) in
    ground (arith, scan-digits fuel (n / 10) ((48 + n % 10) ∷ out) bound, scan_digit n out)

-- A text whose characters are no white space.
abbrev Solid : List ℕ → Type 0
Solid = All (λ c. is_space c ≡ false)

abbrev AllDigits : List ℕ → Type 0
AllDigits = All (λ c. is_digit c ≡ true)

digits-AllDigits : (fuel n : ℕ) (out : List ℕ) → AllDigits out → AllDigits (digits fuel n out)
unfolding digits
digits-AllDigits zero n out h = h
digits-AllDigits (suc fuel) n out h =
    ground (arith, digits-AllDigits fuel (n / 10) ((48 + n % 10) ∷ out))

AllDigits-Solid : (cs : List ℕ) → AllDigits cs → Solid cs
unfolding is_space
AllDigits-Solid [] h = tt
AllDigits-Solid (c ∷ cs) h = (ground arith, AllDigits-Solid cs h.1)

digits-ne-nil : (fuel n d : ℕ) (out : List ℕ) → digits fuel n (d ∷ out) ≢ []
unfolding digits
digits-ne-nil zero n d out h = cc
digits-ne-nil (suc fuel) n d out h =
    ground (arith, digits-ne-nil fuel (n / 10) (48 + n % 10) (d ∷ out))

some_digits : (n : ℕ) (out : List ℕ) → digits 20 n out ≢ []
unfolding digits
some_digits n out = ground (arith, digits-ne-nil 19 (n / 10) (48 + n % 10) out)

atoi-unsigned : (cs : List ℕ) → AllDigits cs → cs ≢ [] → atoi cs ≡ positive (scan cs 0)
unfolding atoi
atoi-unsigned [] h ne = absurd (ne refl)
atoi-unsigned (c ∷ cs) h ne = ground arith

atoi-minus : (cs : List ℕ) → cs ≢ [] → atoi (b'-' ∷ cs) ≡ negative (scan cs 0)
unfolding atoi
atoi-minus [] ne = absurd (ne refl)
atoi-minus (c ∷ cs) ne = refl

-- Every int is read back from its decimal print.
pub atoi-itoa : (z : ℤ) → InInt64 z → atoi (itoa z) ≡ some z
unfolding itoa scan
atoi-itoa (pos n) (h, _) =
    atoi-unsigned (digits 20 n []) (digits-AllDigits 20 n [] tt) (some_digits n [])
    ∙ ap positive (scan-digits 20 n [] (omega arith))
    ∙ ground arith
atoi-itoa (negsuc n) (_, h) =
    atoi-minus (digits 20 (suc n) []) (some_digits (suc n) [])
    ∙ ap negative (scan-digits 20 (suc n) [] (omega arith))
    ∙ ground arith

itoa-Solid : (z : ℤ) → Solid (itoa z) × (itoa z ≢ [])
unfolding itoa is_space
itoa-Solid (pos n) =
    (AllDigits-Solid (digits 20 n []) (digits-AllDigits 20 n [] tt), some_digits n [])
itoa-Solid (negsuc n) =
    ((refl, AllDigits-Solid (digits 20 (suc n) []) (digits-AllDigits 20 (suc n) [] tt)), λ h. cc)

-- White space, and nothing else.
abbrev pub Blank : List ℕ → Type 0
Blank = All (λ c. is_space c ≡ true)

trim_start-append : (before cs : List ℕ) → Blank before → trim_start (before ++ cs) ≡ trim_start cs
unfolding trim_start
trim_start-append [] cs h = refl
trim_start-append (c ∷ before) cs h = rw h.0 (trim_start-append before cs h.1)

trim_start_kept : (cs after : List ℕ) → Solid cs → cs ≢ [] → trim_start (cs ++ after) ≡ cs ++ after
unfolding trim_start
trim_start_kept [] after h ne = absurd (ne refl)
trim_start_kept (c ∷ cs) after h ne = rw h.0 refl

trim_end-Blank : (after : List ℕ) → Blank after → trim_end after ≡ []
unfolding trim_end
trim_end-Blank [] h = refl
trim_end-Blank (c ∷ after) h = rw (trim_end-Blank after h.1, h.0) refl

trim_end_kept : (cs after : List ℕ) → Solid cs → Blank after → trim_end (cs ++ after) ≡ cs
unfolding trim_end
trim_end_kept [] after h b = trim_end-Blank after b
trim_end_kept (c ∷ []) after h b = rw (trim_end-Blank after b, h.0) refl
trim_end_kept (c ∷ d ∷ cs) after h b = rw (trim_end_kept (d ∷ cs) after h.1 b) refl

trim_space_kept :
    (before cs after : List ℕ)
    → Blank before
    → Solid cs
    → cs ≢ []
    → Blank after
    → trim_space (before ++ (cs ++ after)) ≡ cs
trim_space_kept before cs after b h ne b' =
    ap trim_end (trim_start-append before (cs ++ after) b ∙ trim_start_kept cs after h ne)
    ∙ trim_end_kept cs after h b'

read_trimmed :
    (files : Files) (pid : ℤ) (content : List ℕ)
    → files.open_fault ≡ none
    → files.read_fault ≡ none
    → trim_space content ≡ itoa pid
    → InInt64 pid
    → read_pid_file files (some content) ≡ found pid
unfolding read_pid_file
read_trimmed files pid content o r t fits = rw o (rw r (rw t (rw (atoi-itoa pid fits) refl)))

-- If os.WriteFile reports no error, then readPIDFile finds the process identifier that writePIDFile
-- has written, for every int, as long as os.Open and io.ReadAll report no error; so it does if white
-- space has been added in front of the digits and behind them.
pub read-write_pid_file :
    (files : Files) (pid : ℤ) (before after : List ℕ)
    → InInt64 pid
    → files.write_fault ≡ none
    → files.open_fault ≡ none
    → files.read_fault ≡ none
    → Blank before
    → Blank after
    → (read_pid_file files (write_pid_file files pid).1 ≡ found pid)
      × (read_pid_file files
            (Option.map (λ cs. before ++ (cs ++ after)) (write_pid_file files pid).1)
          ≡ found pid)
unfolding write_pid_file
read-write_pid_file files pid before after fits w o r b b' =
    let (solid, ne) = itoa-Solid pid in
    let bare : trim_space (itoa pid ++ []) ≡ itoa pid =
      trim_space_kept [] (itoa pid) [] tt solid ne tt in
    let wrote : (write_pid_file files pid).1 ≡ some (itoa pid) = ground arith in
    (
      ap (read_pid_file files) wrote
          ∙ read_trimmed files pid (itoa pid) o r
              (ap trim_space (sym (append-nil (itoa pid))) ∙ bare) fits,
      ap (λ f. read_pid_file files (Option.map (λ cs. before ++ (cs ++ after)) f)) wrote
          ∙ read_trimmed files pid (before ++ (itoa pid ++ after)) o r
              (trim_space_kept before (itoa pid) after b solid ne b') fits,
    )
