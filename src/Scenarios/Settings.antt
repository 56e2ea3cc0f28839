-- ===== src/Scenarios/Settings.antt =====
-- The theorems on the configuration and the statistics at concrete inputs.
use queue_ctl.Prelude.{String, ◌≡◌, refl, none, some, List, [], ◌∷◌}
use queue_ctl.Prelude.Int.{pos, ◌<ℤ◌}
use queue_ctl.Domain.Errors.{ok}
use queue_ctl.Domain.Job.{JobStatus, pending, status_eq}
use queue_ctl.Retry.Backoff.{new_retry_policy, new_exponential_backoff}
use queue_ctl.Store.{driver_call}
use queue_ctl.Repository.Jobs.{group_count}
use queue_ctl.Repository.Stats.{Group, count_in, groups, stat, get_queue_stats}
use queue_ctl.Repository.Stats.Counts.{get_queue_stats-counts}
use queue_ctl.Config.{Config, Provider, is_word, is_level, is_format, validate, load}
use queue_ctl.Config.Valid.{Event, registered, changed, react_all, validate-fits, load-valid}
use queue_ctl.Scenarios.Sample.{calm_env, waiting_world}

abbrev pub default_config : Config
default_config = record {
  database = record { path = "queue.db" };
  logger = record { level = "Info"; format = "console" };
  worker = record {
    concurrency = pos 5;
    poll_interval = pos 1000000000;
    max_retries = pos 3;
    backoff_base_delay = pos 2000000000;
    backoff_max_delay = pos 30000000000;
  };
}

-- The level of the default configuration is written with a capital letter here.
default_passes : validate default_config ≡ ok tt
unfolding validate is_level is_format is_word
default_passes = refl

validate-fits_example :
    (new_retry_policy (pos 3) (pos 2000000000) (pos 30000000000)
      ≡ ok (record {
        max_retries = pos 3;
        backoff_base_delay = pos 2000000000;
        backoff_max_delay = pos 30000000000;
      }))
    × (new_exponential_backoff (pos 2000000000) (pos 30000000000)
        ≡ record { base_delay = pos 2000000000; max_delay = pos 30000000000 })
    × (pos 0 <ℤ pos 5)
    × (pos 0 <ℤ pos 1000000000)
validate-fits_example = validate-fits default_config default_passes

abbrev provider : Provider
provider = record { cfg = default_config; callbacks = [] }

load_runs : load default_config ≡ ok provider
unfolding load validate is_level is_format is_word
load_runs = refl

-- A broken file, and one without a database path.
abbrev edits : List Event
edits =
    registered
    ∷ changed none
    ∷ changed (some (record default_config { database = record { path = "" } }))
    ∷ []

load-valid_example : validate (react_all edits provider).cfg ≡ ok tt
load-valid_example = load-valid default_config edits load_runs

abbrev waiting_stats : List Group
waiting_stats = record { queue = "default"; status = pending; count = 2 } ∷ []

stats_run : (get_queue_stats calm_env waiting_world).0 ≡ ok waiting_stats
unfolding get_queue_stats driver_call groups count_in status_eq
stats_run = refl

get_queue_stats-counts_example :
    ((queue : String) (status : JobStatus)
      → stat queue status waiting_stats ≡ group_count queue status waiting_world.db.jobs)
    × ((get_queue_stats calm_env waiting_world).1.db ≡ waiting_world.db)
get_queue_stats-counts_example = get_queue_stats-counts calm_env waiting_world stats_run
