-- ===== src/Config.antt =====
-- internal/config/config.go and internal/domain/config.go: the checks of a configuration, and the
-- provider that replaces it when the file changes. LoadConfig, with the viper package it calls as a
-- parameter, is in Config/Source.antt.
pub mod Valid
pub mod Source
use queue_ctl.Prelude.{
  ℕ, ◌+◌, String, Bool, true, false, not, ◌&&◌, ◌||◌, Option, none, some, List, [], ◌∷◌, ◌++◌, ◌==◌,
  leb, eqb, if◌then◌else◌,
}
use queue_ctl.Prelude.Int.{ℤ, pos, leb_ℤ, ltb_ℤ}
use queue_ctl.Prelude.Text.{◌^^◌, codes}
use queue_ctl.Domain.Errors.{Result, ok, err, wrap, refuse, ◌>>◌}
use queue_ctl.Domain.Job.{Duration}

-- Config, with its three parts
pub record DatabaseConfig : Type 0 where
  pub path : String

pub record LoggerConfig : Type 0 where
  pub level : String
  pub format : String

pub record WorkerConfig : Type 0 where
  pub concurrency : ℤ
  pub poll_interval : Duration
  pub max_retries : ℤ
  pub backoff_base_delay : Duration
  pub backoff_max_delay : Duration

pub record Config : Type 0 where
  pub database : DatabaseConfig
  pub logger : LoggerConfig
  pub worker : WorkerConfig

-- unicode.ToLower as far as a comparison with an ASCII word can tell: besides the ASCII capitals, the
-- dotted capital I and the Kelvin sign have an ASCII letter as their lower case.
abbrev lower : ℕ → ℕ
lower c =
    if leb 65 c && leb c 90
    then c + 32
    else if eqb c 304
    then 105
    else if eqb c 8490
    then 107
    else c

unfoldable pub same_lower : List ℕ → List ℕ → Bool
same_lower [] [] = true
same_lower (c ∷ cs) (d ∷ ds) = let rest = same_lower cs ds in eqb (lower c) d && rest
same_lower _ _ = false

-- strings.ToLower(text) == word, for a word of small ASCII letters
unfoldable pub is_word : String → String → Bool
unfolding same_lower
is_word word text = same_lower (codes text) (codes word)

unfoldable pub is_level : String → Bool
is_level t = is_word "debug" t || is_word "info" t || is_word "warn" t || is_word "error" t

unfoldable pub is_format : String → Bool
is_format t = is_word "console" t || is_word "json" t

-- Config.Validate; the texts leave out the numbers that they print
unfoldable pub validate : Config → Result (Unit {0})
validate c = do
  refuse (c.database.path == "") "database.path cannot be empty"
  refuse (not (is_level c.logger.level))
      ("invalid logger.level '" ^^ c.logger.level ^^ "': must be debug, info, warn, or error")
  refuse (not (is_format c.logger.format))
      ("invalid logger.format '" ^^ c.logger.format ^^ "': must be console or json")
  refuse (leb_ℤ c.worker.concurrency (pos 0)) "worker.concurrency must be greater than 0"
  refuse (leb_ℤ c.worker.poll_interval (pos 0)) "worker.poll_interval must be positive duration"
  refuse (ltb_ℤ c.worker.max_retries (pos 0)) "worker.max_retries cannot be negative"
  refuse (leb_ℤ c.worker.backoff_base_delay (pos 0))
      "worker.backoff_base_delay must be positive duration"
  refuse (ltb_ℤ c.worker.backoff_max_delay c.worker.backoff_base_delay)
      "worker.backoff_max_delay cannot be smaller than base delay"

-- SystemConfig
pub record SystemConfig : Type 0 where
  pub database_path : String
  pub log_level : String
  pub log_format : String
  pub concurrency : ℤ
  pub poll_interval : Duration
  pub max_retries : ℤ
  pub backoff_base_delay : Duration
  pub backoff_max_delay : Duration

-- SystemConfig.Validate
unfoldable pub validate_system : SystemConfig → Result (Unit {0})
validate_system c = do
  refuse (c.database_path == "") "database path cannot be empty"
  refuse (not (is_level c.log_level))
      ("invalid log level '" ^^ c.log_level ^^ "': must be debug, info, warn, or error")
  refuse (not (is_format c.log_format))
      ("invalid log format '" ^^ c.log_format ^^ "': must be console or json")
  refuse (leb_ℤ c.concurrency (pos 0)) "concurrency limit must be greater than zero"
  refuse (leb_ℤ c.poll_interval (pos 0)) "poll interval must be a positive duration"
  refuse (ltb_ℤ c.max_retries (pos 0)) "max retries cannot be negative"
  refuse (leb_ℤ c.backoff_base_delay (pos 0)) "backoff base delay must be positive"
  refuse (ltb_ℤ c.backoff_max_delay c.backoff_base_delay)
      "backoff max delay cannot be smaller than base delay"

abbrev checked : SystemConfig → Result (Unit {0}) → Result SystemConfig
checked c (ok _) = ok c
checked c (err e) = err e

-- NewSystemConfig, of the record of its arguments
unfoldable pub new_system_config : SystemConfig → Result SystemConfig
unfolding validate_system
new_system_config c = checked c (validate_system c)

-- configProvider: the active configuration, and what each callback has been called with, the first
-- callback first
pub record Provider : Type 0 where
  pub cfg : Config
  pub callbacks : List (List Config)

-- OnChange
unfoldable pub on_change : Provider → Provider
on_change p = record p { callbacks = p.callbacks ++ [] ∷ [] }

abbrev call_each : Config → List (List Config) → List (List Config)
call_each c [] = []
call_each c (seen ∷ rest) = (seen ++ c ∷ []) ∷ call_each c rest

abbrev activated : Provider → Config → Result (Unit {0}) → Provider
activated p c (ok _) = record { cfg = c; callbacks = call_each c p.callbacks }
activated p c (err e) = p

-- The handler of OnConfigChange, where `none` is a file that cannot be unmarshalled.
unfoldable pub reload : Option Config → Provider → Provider
unfolding validate
reload none p = p
reload (some c) p = activated p c (validate c)

abbrev pub loaded_if : Config → Result (Unit {0}) → Result Provider
loaded_if c (ok _) = ok (record { cfg = c; callbacks = [] })
loaded_if c (err e) = err (wrap "configuration validation failed" e)

-- The end of LoadConfig, once the file has been unmarshalled.
unfoldable pub load : Config → Result Provider
unfolding validate
load c = loaded_if c (validate c)
