-- ===== src/Logger.antt =====
-- internal/logger/logger.go: the choice of the encoder and the level, the fields, and what is handed to
-- the zap package, which is not modelled.
use queue_ctl.Prelude.{
  ◌≡◌, refl, ◌+◌, ◌/◌, String, Bool, false, not, Option, none, some, List, [], ◌∷◌, ◌++◌, ◌==◌,
  if◌then◌else◌,
}
use queue_ctl.Prelude.Int.{ℤ, pos, negsuc, ◌-ℤ◌}
use queue_ctl.Domain.Errors.{Error, Result, ok, err, wrap, error_text}
use queue_ctl.Domain.Job.{Duration}
use queue_ctl.Config.{LoggerConfig, is_word}

-- The value of a Field: a string, an integer, a duration, nil, or the texts of a slice.
pub data Value : Type 0 where
  text : String → Value
  int : ℤ → Value
  duration : Duration → Value
  absent : Value
  texts : List String → Value

-- Field
pub record Field : Type 0 where
  pub key : String
  pub val : Value

pub data Level : Type 0 where
  debug info warn error fatal : Level

-- The settings of zap.Config and its encoder that New chooses. `production` tells the two presets of
-- zap apart.
pub record ZapConfig : Type 0 where
  pub production : Bool
  pub color_levels : Bool
  pub development : Bool
  pub level : Level
  pub stacktrace_from : Level

-- zapLogger: how it was built, and the fields of With
pub record Logger : Type 0 where
  pub config : ZapConfig
  pub fields : List Field

-- the `switch` on the level
unfoldable pub level_of : String → Level
unfolding is_word
level_of t =
    if is_word "debug" t
    then debug
    else if is_word "info" t
    then info
    else if is_word "warn" t
    then warn
    else if is_word "error" t
    then error
    else info

unfoldable pub zap_config : LoggerConfig → ZapConfig
unfolding level_of is_word
zap_config cfg = record {
  production = is_word "json" cfg.format;
  color_levels = not (is_word "json" cfg.format);
  development = false;
  level = level_of cfg.level;
  stacktrace_from = error;
}

-- `build_fault` is what zap's Build reports of a configuration.
module _ (build_fault : ZapConfig → Option Error) where
  abbrev built : ZapConfig → Option Error → Result Logger
  built config none = ok (record { config = config; fields = [] })
  built config (some e) = err (wrap "failed to build zap logger" e)

  -- New
  unfoldable pub new : LoggerConfig → Result Logger
  unfolding zap_config
  new cfg = built (zap_config cfg) (build_fault (zap_config cfg))

-- String, Int and Int64, Duration, Any of a slice of strings
abbrev pub string_field : String → String → Field
string_field key v = record { key = key; val = text v }

abbrev pub int_field : String → ℤ → Field
int_field key v = record { key = key; val = int v }

abbrev pub duration_field : String → Duration → Field
duration_field key v = record { key = key; val = duration v }

abbrev pub texts_field : String → List String → Field
texts_field key v = record { key = key; val = texts v }

-- d.Milliseconds(), which drops the rest
unfoldable pub milliseconds : Duration → ℤ
unfolding ◌-ℤ◌
milliseconds (pos n) = pos (n / 1000000)
milliseconds (negsuc n) = pos 0 -ℤ pos ((n + 1) / 1000000)

-- RequestID, WorkerID, ExecutionTime and Error
abbrev pub request_id_field : String → Field
request_id_field v = string_field "request_id" v

abbrev pub worker_id_field : String → Field
worker_id_field v = string_field "worker_id" v

unfoldable pub execution_time_field : Duration → Field
unfolding milliseconds
execution_time_field d = record { key = "execution_time_ms"; val = int (milliseconds d) }

unfoldable pub error_field : Option Error → Field
unfolding error_text
error_field none = record { key = "error"; val = absent }
error_field (some e) = record { key = "error"; val = text (error_text e) }

-- A message as zap receives it.
pub record Entry : Type 0 where
  pub level : Level
  pub message : String
  pub fields : List Field

-- Debug, Info, Warn, Error and Fatal
abbrev pub log : Logger → Level → String → List Field → Entry
log l level message fields = record {
  level = level;
  message = message;
  fields = l.fields ++ fields;
}

-- With
unfoldable pub with_fields : List Field → Logger → Logger
with_fields fields l = record l { fields = l.fields ++ fields }

-- The values of a context under RequestIDKey and WorkerIDKey, where `none` is no string.
pub record Trace : Type 0 where
  pub request_id : Option String
  pub worker_id : Option String

abbrev traced : (String → Field) → Option String → List Field
traced field none = []
traced field (some v) = if v == "" then [] else field v ∷ []

unfoldable pub appended : Logger → List Field → Logger
unfolding with_fields
appended l [] = l
appended l (f ∷ fs) = with_fields (f ∷ fs) l

-- WithContext, where `none` is a nil context
unfoldable pub with_context : Option Trace → Logger → Logger
unfolding appended
with_context none l = l
with_context (some ctx) l =
    appended l (traced request_id_field ctx.request_id ++ traced worker_id_field ctx.worker_id)

-- A context that carries a worker adds one field.
worker_only :
    (l : Logger)
    → with_context (some (record { request_id = some ""; worker_id = some "w" })) l
      ≡ record l { fields = l.fields ++ worker_id_field "w" ∷ [] }
unfolding with_context
worker_only l = refl
