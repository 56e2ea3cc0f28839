-- ===== src/Config/Source.antt =====
-- internal/config/config.go: LoadConfig, from the choice of the file on. The viper package is known by
-- what it answers.
use queue_ctl.Prelude.{
  ℕ, String, Bool, true, false, ◌||◌, ◌≡◌, refl, Option, none, some, List, [], ◌∷◌, ◌==◌, eqb,
  if◌then◌else◌,
}
use queue_ctl.Prelude.Text.{codes}
use queue_ctl.Domain.Errors.{Error, Result, ok, err, msg, wrap, ◌>>=◌}
use queue_ctl.Config.{Config, Provider, same_lower, load}

-- Where the values come from, above the environment and the defaults.
pub data Source : Type 0 where
  file : String → Source
  local_yaml local_json no_file : Source

-- `read_fault` is the error of ReadInConfig on a source, and `unmarshal` the result of Unmarshal after
-- that source was read.
pub record Viper : Type 0 where
  pub read_fault : Source → Option Error
  pub unmarshal : Source → Result Config

-- filepath.Ext, where the separator is a slash: what follows `best` is the text behind
unfoldable pub extension : List ℕ → List ℕ → List ℕ
extension best [] = best
extension best (c ∷ cs) =
    extension (if eqb c b'/' then [] else if eqb c b'.' then c ∷ cs else best) cs

-- strings.ToLower(filepath.Ext(path)) == word
abbrev has_extension : String → String → Bool
has_extension word path = same_lower (extension [] (codes path)) (codes word)

unfoldable pub is_supported_path : String → Bool
unfolding extension same_lower
is_supported_path path =
    has_extension ".yaml" path || has_extension ".yml" path || has_extension ".json" path

module _ (v : Viper) where
  abbrev read_file : Source → Option Error → Result Source
  read_file source none = ok source
  read_file source (some e) = err (wrap "failed to read config file" e)

  -- config.yaml, or else config.json, or else neither
  abbrev local_json_or_none : Option Error → Source
  local_json_or_none none = local_json
  local_json_or_none (some e) = no_file

  abbrev local_source : Option Error → Source
  local_source none = local_yaml
  local_source (some e) = local_json_or_none (v.read_fault local_json)

  -- step 3; the text of the first error leaves out the extension
  unfoldable pub choose_source : String → Result Source
  unfolding is_supported_path
  choose_source path =
      if path == ""
      then ok (local_source (v.read_fault local_yaml))
      else if is_supported_path path
      then read_file (file path) (v.read_fault (file path))
      else err (msg "unsupported config file extension (only yaml/json supported)")

  abbrev parsed : Result Config → Result Config
  parsed (ok c) = ok c
  parsed (err e) = err (wrap "failed to parse configuration structure" e)

  -- the configuration that LoadConfig checks
  unfoldable pub read_config : String → Result Config
  unfolding choose_source
  read_config path = choose_source path >>= λ source. parsed (v.unmarshal source)

  -- LoadConfig
  unfoldable pub load_config : String → Result Provider
  unfolding read_config
  load_config path = read_config path >>= load

dotted : is_supported_path "etc.d/queue.YML" ≡ true
unfolding is_supported_path
dotted = refl

undotted : is_supported_path "etc.yaml/queue" ≡ false
unfolding is_supported_path
undotted = refl
