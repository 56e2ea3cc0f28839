-- ===== src/Cli/Setup.antt =====
-- internal/cli/root.go: PersistentPreRunE, which builds what the commands use, and PersistentPostRun.
pub mod Ready
use queue_ctl.Prelude.{
  ℕ, ◌-◌, String, Bool, true, false, Option, none, some, List, ◌==◌, if◌then◌else◌,
}
use queue_ctl.Domain.Errors.{Error, Result, ok, err, wrap, ◌>>=◌}
use queue_ctl.Config.{Config, Provider, on_change}
use queue_ctl.Config.Source.{Viper, load_config}
use queue_ctl.Retry.Backoff.{new_exponential_backoff}
use queue_ctl.Service.Queue.{Settings}
use queue_ctl.Database.{Driver, Handle, Disk, connect, run_migrations}
use queue_ctl.Logger as Logger
use queue_ctl.Logger.{ZapConfig, new}
use queue_ctl.Store.{wrap_result}

-- The persistent flags.
pub record Flags : Type 0 where
  pub config_file : String
  pub db_path : String
  pub verbose : Bool

-- The variables that the commands share. `settings` is what the job service is built with.
pub record Shared : Type 0 where
  pub provider : Provider
  pub logger : Logger.Logger
  pub db : Handle
  pub settings : Settings

-- The state outside: the tables of the file, and the number of the open handles.
pub record Outside : Type 0 where
  pub disk : Disk
  pub handles : ℕ

-- AppConfig points to the configuration of the provider, so that an override changes both.
unfoldable pub override : Flags → Config → Config
override flags c =
    let c' = record c {
      database = if flags.db_path == "" then c.database else record { path = flags.db_path };
    } in
    record c' { logger = if flags.verbose then record c.logger { level = "debug" } else c.logger }

unfoldable pub overridden : Flags → Provider → Provider
unfolding override
overridden flags p = record p { cfg = override flags p.cfg }

unfoldable pub settings_of : Config → Settings
settings_of c = record {
  max_retries = c.worker.max_retries;
  backoff = new_exponential_backoff c.worker.backoff_base_delay c.worker.backoff_max_delay;
  has_scheduler = true;
}

module _ (driver : Driver) (build_fault : ZapConfig → Option Error) (viper : Viper) where
  -- steps 1 to 3: the configuration with its overrides, and the logger
  unfoldable pub configure : Flags → Result (Provider × Logger.Logger)
  unfolding override overridden
  configure flags = do
    p ← wrap_result "failed to load configuration" (load_config viper flags.config_file)
    logger ←
        wrap_result "failed to initialize logger" (new build_fault (override flags p.cfg).logger)
    ok (on_change (overridden flags p), logger)

  abbrev built : Provider → Logger.Logger → Handle → Shared
  unfolding settings_of
  built p logger db = record {
    provider = p;
    logger = logger;
    db = db;
    settings = settings_of p.cfg;
  }

  -- steps 5 and 6: the migrations, and the services
  unfoldable pub migrate :
      Provider → Logger.Logger → Handle → Result (Unit {0}) × Disk → ℕ → Result Shared × Outside
  unfolding settings_of
  migrate p logger db (ok _, disk) handles =
      (ok (built p logger db), record { disk = disk; handles = handles })
  migrate p logger db (err e, disk) handles =
      (err (wrap "database migrations failed" e), record { disk = disk; handles = handles })

  unfoldable pub open_database :
      Provider → Logger.Logger → Disk → Result Handle × ℕ → Result Shared × Outside
  unfolding migrate
  open_database p logger disk (err e, handles) = (err e, record { disk = disk; handles = handles })
  open_database p logger disk (ok db, handles) =
      migrate p logger db (run_migrations driver disk) handles

  unfoldable pub set_up : Result (Provider × Logger.Logger) → Outside → Result Shared × Outside
  unfolding open_database
  set_up (err e) o = (err e, o)
  set_up (ok (p, logger)) o =
      open_database p logger o.disk (connect driver p.cfg.database.path o.handles)

  -- PersistentPreRunE
  unfoldable pub pre_run : Flags → Outside → Result Shared × Outside
  unfolding set_up configure
  pre_run flags o = set_up (configure flags) o

-- PersistentPostRun, which cobra runs after a command that returned no error: `DB.Close()`
unfoldable pub post_run : Outside → Outside
post_run o = record o { handles = o.handles - 1 }
