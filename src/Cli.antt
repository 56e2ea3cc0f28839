-- ===== src/Cli.antt =====
-- internal/cli: what the commands print, and the pieces that they share. A command returns the lines
-- that it prints to the standard output, and among them its warnings to the standard error; the
-- padding of the tabwriter is left out. The flags of a command are a record, which cobra fills.
pub mod Jobs
pub mod Dead
pub mod Telemetry
pub mod Contract
pub mod Pid
pub mod Stop
pub mod Setup
pub mod Start
use Prim.Native.Char.{code}
use Prim.Native.String
use queue_ctl.Prelude.{
  ℕ, ◌+◌, ◌-◌, ◌/◌, ◌%◌, String, Bool, List, [], ◌∷◌, ◌++◌, ltb, length, take, if◌then◌else◌,
}
use queue_ctl.Prelude.Int.{ℤ, pos, eqb_ℤ}
use queue_ctl.Domain.Job.{Time, Duration}
use queue_ctl.Metrics.Rate.{Float64}

-- What a verb of a format string prints: %s of a text or of bytes, %d, t.Format(layout), %s of a
-- duration, and %.2f.
pub data Cell : Type 0 where
  text : String → Cell
  bytes : List ℕ → Cell
  number : ℤ → Cell
  count : ℕ → Cell
  date : String → Time → Cell
  period : Duration → Cell
  decimal : Float64 → Cell

pub data Line : Type 0 where
  out : List Cell → Line
  warning : List Cell → Line

-- The UTF-8 bytes of a code point.
unfoldable pub utf8 : ℕ → List ℕ
utf8 c =
    if ltb c 128
    then c ∷ []
    else if ltb c 2048
    then (192 + c / 64) ∷ (128 + c % 64) ∷ []
    else if ltb c 65536
    then (224 + c / 4096) ∷ (128 + c / 64 % 64) ∷ (128 + c % 64) ∷ []
    else (240 + c / 262144) ∷ (128 + c / 4096 % 64) ∷ (128 + c / 64 % 64) ∷ (128 + c % 64) ∷ []

-- The bytes of a text.
unfoldable pub bytes_of : String → List ℕ
unfolding utf8
bytes_of String.[] = []
bytes_of (String.◌∷◌ c s) = utf8 (code c) ++ bytes_of s

-- `if len(errStr) > limit { errStr = errStr[:limit-3] + "..." }`, which counts bytes
unfoldable pub shortened : ℕ → String → List ℕ
unfolding bytes_of
shortened limit s =
    let bs = bytes_of s in
    if ltb limit (length bs) then take (limit - 3) bs ++ b'.' ∷ b'.' ∷ b'.' ∷ [] else bs

-- `if limit == 0 { limit = 20 }`
abbrev pub limit_or_default : ℤ → ℤ
limit_or_default limit = if eqb_ℤ limit (pos 0) then pos 20 else limit

abbrev pub day_layout : String
day_layout = "2006-01-02 15:04:05"

abbrev pub rfc3339 : String
rfc3339 = "2006-01-02T15:04:05Z07:00"
