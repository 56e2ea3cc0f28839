-- ===== src/Cli/Pid.antt =====
-- internal/cli/worker.go: writePIDFile and readPIDFile, with the strconv and strings functions that
-- they use. A text is the list of its code points.
pub mod RoundTrip
use queue_ctl.Prelude.{
  ℕ, zero, suc, ◌+◌, ◌-◌, ◌*◌, ◌/◌, ◌%◌, ◌^◌, ◌≡◌, refl, Bool, true, false, ◌&&◌, ◌||◌, Option,
  none, some, List, [], ◌∷◌, ltb, leb, eqb, if◌then◌else◌,
}
use queue_ctl.Prelude.Int.{ℤ, pos, negsuc}
use queue_ctl.Domain.Errors.{Error, Result, ok, err, msg}

-- What the operating system answers. `write_fault` is the error of os.WriteFile with what it leaves of
-- the file, `open_fault` the error of os.Open on a file that is there, `read_fault` that of io.ReadAll,
-- `removes` whether os.Remove does.
pub record Files : Type 0 where
  pub write_fault : Option (Error × Option (List ℕ))
  pub open_fault : Option Error
  pub read_fault : Option Error
  pub removes : Bool

-- The decimal digits of n in front of `out`. An int has 19 digits, so that 20 rounds are enough.
unfoldable pub digits : ℕ → ℕ → List ℕ → List ℕ
digits zero n out = out
digits (suc fuel) n out =
    let rest = digits fuel (n / 10) ((48 + n % 10) ∷ out) in
    if ltb n 10 then (48 + n) ∷ out else rest

-- strconv.Itoa
unfoldable pub itoa : ℤ → List ℕ
unfolding digits
itoa (pos n) = digits 20 n []
itoa (negsuc n) = b'-' ∷ digits 20 (suc n) []

abbrev pub is_digit : ℕ → Bool
is_digit c = leb 48 c && leb c 57

-- The number that digits spell behind n.
unfoldable pub scan : List ℕ → ℕ → Option ℕ
scan [] n = some n
scan (c ∷ cs) n = let rest = scan cs (n * 10 + (c - 48)) in if is_digit c then rest else none

abbrev pub at_least_one : List ℕ → Option ℕ
unfolding scan
at_least_one [] = none
at_least_one (c ∷ cs) = scan (c ∷ cs) 0

abbrev pub positive : Option ℕ → Option ℤ
positive none = none
positive (some n) = if ltb n (2 ^ 63) then some (pos n) else none

abbrev pub negative : Option ℕ → Option ℤ
negative none = none
negative (some zero) = some (pos 0)
negative (some (suc n)) = if ltb n (2 ^ 63) then some (negsuc n) else none

-- strconv.Atoi: an optional sign, then digits, and `none` on an error
unfoldable pub atoi : List ℕ → Option ℤ
unfolding scan
atoi [] = none
atoi (c ∷ cs) =
    if eqb c b'-'
    then negative (at_least_one cs)
    else if eqb c b'+'
    then positive (at_least_one cs)
    else positive (at_least_one (c ∷ cs))

-- unicode.IsSpace
unfoldable pub is_space : ℕ → Bool
is_space c =
    leb 9 c && leb c 13
    || eqb c 32
    || eqb c 133
    || eqb c 160
    || eqb c 5760
    || leb 8192 c && leb c 8202
    || eqb c 8232
    || eqb c 8233
    || eqb c 8239
    || eqb c 8287
    || eqb c 12288

unfoldable pub trim_start : List ℕ → List ℕ
unfolding is_space
trim_start [] = []
trim_start (c ∷ cs) = let rest = trim_start cs in if is_space c then rest else c ∷ cs

abbrev trimmed_cons : ℕ → List ℕ → List ℕ
trimmed_cons c [] = if is_space c then [] else c ∷ []
trimmed_cons c (d ∷ ds) = c ∷ d ∷ ds

unfoldable pub trim_end : List ℕ → List ℕ
unfolding is_space
trim_end [] = []
trim_end (c ∷ cs) = trimmed_cons c (trim_end cs)

-- strings.TrimSpace
abbrev pub trim_space : List ℕ → List ℕ
trim_space cs = trim_end (trim_start cs)

abbrev written : Option (Error × Option (List ℕ)) → List ℕ → Result (Unit {0}) × Option (List ℕ)
written none content = (ok tt, some content)
written (some (e, left)) content = (err e, left)

-- writePIDFile, with the file that it leaves
unfoldable pub write_pid_file : Files → ℤ → Result (Unit {0}) × Option (List ℕ)
unfolding itoa
write_pid_file files pid = written files.write_fault (itoa pid)

-- What readPIDFile returns: a number, an error that is os.ErrNotExist, or another.
pub data PidRead : Type 0 where
  found : ℤ → PidRead
  missing : PidRead
  unreadable : Error → PidRead

abbrev parsed : Option ℤ → PidRead
parsed none = unreadable (msg "invalid PID data")
parsed (some pid) = found pid

abbrev read_all : Option Error → List ℕ → PidRead
read_all none content = parsed (atoi (trim_space content))
read_all (some e) content = unreadable e

abbrev opened : Option Error → Option Error → List ℕ → PidRead
opened none read_fault content = read_all read_fault content
opened (some e) read_fault content = unreadable e

-- readPIDFile; its texts leave out what strconv says
unfoldable pub read_pid_file : Files → Option (List ℕ) → PidRead
unfolding atoi trim_start trim_end
read_pid_file files none = missing
read_pid_file files (some content) = opened files.open_fault files.read_fault content

printed : itoa (negsuc 1204) ≡ b'-' ∷ b'1' ∷ b'2' ∷ b'0' ∷ b'5' ∷ []
unfolding itoa
printed = refl
