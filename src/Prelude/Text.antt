-- ===== src/Prelude/Text.antt =====
-- Texts: Go's `+` and `strings.Contains`, and SQL's LIKE.
use Prim.Native.Nat.{ℕ, ◌+◌}
use Prim.Native.Char.{code}
use Prim.Native.String.{String}
use Prim.Native.String
use mathlib.Core.Path.{◌≡◌, refl}
use mathlib.Core.Bool.{Bool, true, false, ◌&&◌}
use mathlib.Core.List.{List, [], ◌∷◌}
use text.Mathlib.Text.{starts_with}
use text.Mathlib.TextLemmas.{append_assoc}
use text.Mathlib.TextPositions.{starts_with-append}
use queue_ctl.Prelude.Tests.{leb, eqb, if◌then◌else◌}

infixl 65 ◌^^◌
-- Concatenation of texts.
abbrev pub ◌^^◌ : String → String → String
s ^^ t = String.◌++◌ s t

-- strings.Contains(s, t)
unfoldable pub contains : String → String → Bool
contains String.[] t = starts_with String.[] t
contains (String.◌∷◌ c s) t =
    let rest = contains s t in if starts_with (String.◌∷◌ c s) t then true else rest

contains_of_start : (s t : String) → starts_with s t ≡ true → contains s t ≡ true
unfolding contains
contains_of_start String.[] t h = h
contains_of_start (String.◌∷◌ c s) t h = rw h

pub contains-append : (s t u : String) → contains (s ^^ t ^^ u) s ≡ true
contains-append s t u =
    contains_of_start _ _ (rw (append_assoc s t u) (starts_with-append s (t ^^ u)))

-- The code points of a text.
abbrev pub codes : String → List ℕ
codes String.[] = []
codes (String.◌∷◌ c s) = code c ∷ codes s

-- LIKE folds the case of the ASCII letters.
abbrev fold_case : ℕ → ℕ
fold_case c = if leb b'A' c && leb c b'Z' then c + 32 else c

any_tail : (List ℕ → Bool) → List ℕ → Bool
any_tail m [] = m []
any_tail m (c ∷ s) = let rest = any_tail m s in if m (c ∷ s) then true else rest

abbrev one_more : (ℕ → Bool) → (List ℕ → Bool) → List ℕ → Bool
one_more p m [] = false
one_more p m (c ∷ s) = p c && m s

abbrev at_end : List ℕ → Bool
at_end [] = true
at_end (_ ∷ _) = false

-- `%` stands for any run of characters, `_` for any one.
like_codes : List ℕ → List ℕ → Bool
unfolding any_tail
like_codes [] = at_end
like_codes (p ∷ ps) =
    let rest = like_codes ps in
    if eqb p b'%'
    then any_tail rest
    else if eqb p b'_'
    then one_more (λ c. true) rest
    else one_more (λ c. eqb (fold_case p) (fold_case c)) rest

-- text LIKE pattern
unfoldable pub like : String → String → Bool
unfolding like_codes
like text pattern = like_codes (codes pattern) (codes text)

like_finds : like "{\"to\": \"Bob\"}" "%bob%" ≡ true
unfolding like
like_finds = refl

like_misses : like "bob" "%b_x%" ≡ false
unfolding like
like_misses = refl
