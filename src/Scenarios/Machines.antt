-- ===== src/Scenarios/Machines.antt =====
-- The theorems on the process identifier, `worker stop` and PersistentPreRunE at concrete inputs.
use mathlib.Core.Option
use queue_ctl.Prelude.{ℕ, ◌≡◌, refl, true, none, some, List, [], ◌∷◌, ◌++◌, arith, inr, leb}
use queue_ctl.Prelude.Int.{pos}
use queue_ctl.Domain.Errors.{ok}
use queue_ctl.Config.{Config, is_level, is_format, is_word, validate, load, on_change}
use queue_ctl.Config.Source.{Viper, is_supported_path, choose_source, read_config, load_config}
use queue_ctl.Database.{Driver, execute, run_statements, connect, run_schema, run_migrations}
use queue_ctl.Logger.{zap_config, new}
use queue_ctl.Cli.{Line}
use queue_ctl.Cli.Pid.{
  Files, scan, atoi, is_space, trim_start, trim_end, found, write_pid_file, read_pid_file,
}
use queue_ctl.Cli.Pid.RoundTrip.{read-write_pid_file}
use queue_ctl.Cli.Stop.{Os, Machine, stop}
use queue_ctl.Cli.Stop.Returns.{HasStopped, stop-returns}
use queue_ctl.Cli.Setup.{
  Flags, Shared, Outside, override, overridden, settings_of, configure, migrate, open_database,
  set_up, pre_run, post_run,
}
use queue_ctl.Cli.Setup.Ready.{IsReady, pre_run-IsReady}
use queue_ctl.Scenarios.Settings.{default_config}
use queue_ctl.Scenarios.Sample.{waiting_job}

abbrev calm_files : Files
calm_files = record { write_fault = none; open_fault = none; read_fault = none; removes = true }

line_feed : is_space 10 ≡ true
unfolding is_space
line_feed = refl

-- The file ends with a line feed that an editor added.
read-write_pid_file_example :
    (read_pid_file calm_files (write_pid_file calm_files (pos 4711)).1 ≡ found (pos 4711))
    × (read_pid_file calm_files
          (Option.map (λ cs. [] ++ (cs ++ 10 ∷ [])) (write_pid_file calm_files (pos 4711)).1)
        ≡ found (pos 4711))
read-write_pid_file_example =
    read-write_pid_file calm_files (pos 4711) [] (10 ∷ []) (omega arith, omega arith) refl refl refl
      tt (line_feed, tt)

abbrev pid_text : List ℕ
pid_text = 32 ∷ b'4' ∷ b'2' ∷ 10 ∷ []

-- The process is gone in the third round of the loop.
abbrev small_os : Os
small_os = record {
  files = calm_files;
  find_fault = λ pid. none;
  interrupt_fault = λ pid. none;
  timed_out = λ n. leb 25 n;
  alive = λ n. leb n 1;
}

abbrev running_machine : Machine
running_machine = record { pid_file = some pid_text; signals = [] }

pid_read : read_pid_file calm_files (some pid_text) ≡ found (pos 42)
unfolding read_pid_file atoi scan trim_start trim_end is_space
pid_read = refl

stop-returns_example :
    (lines : List Line) × (m' : Machine) × (stop small_os 26 "worker.pid" running_machine
      ≡ some (ok lines, m'))
    × (calm_files.removes ≡ true → m'.pid_file ≡ none)
    × HasStopped small_os (pos 42) running_machine m'
stop-returns_example =
    stop-returns small_os 26 2 "worker.pid" (pos 42) running_machine (omega arith) (inr refl)
      pid_read refl refl

abbrev calm_driver : Driver
calm_driver = record {
  mkdir_fault = none;
  open_fault = none;
  exec_fault = λ statement. none;
  schema_fault = λ n. none;
}

-- A file that holds one table with one job.
abbrev old_file : Outside
old_file = record {
  disk = record { jobs = some (waiting_job ∷ []); workers = none; logs = none; indexes = [] };
  handles = 0;
}

-- A file that can be read.
abbrev some_viper : Viper
some_viper = record { read_fault = λ source. none; unmarshal = λ source. ok default_config }

abbrev some_flags : Flags
some_flags = record { config_file = "etc/queue.yml"; db_path = "other.db"; verbose = true }

abbrev shared : Shared
shared = record {
  provider = record { cfg = override some_flags default_config; callbacks = [] ∷ [] };
  logger = record { config = zap_config (override some_flags default_config).logger; fields = [] };
  db = record {
    path = "other.db";
    pragmas =
        "PRAGMA journal_mode=WAL;" ∷ "PRAGMA busy_timeout=5000;" ∷ "PRAGMA synchronous=NORMAL;"
        ∷ "PRAGMA foreign_keys=ON;" ∷ [];
    max_open_conns = 1;
    max_idle_conns = 1;
    conn_max_lifetime = pos 0;
  };
  settings = settings_of (override some_flags default_config);
}

pre_run_runs : (pre_run calm_driver (λ config. none) some_viper some_flags old_file).0 ≡ ok shared
unfolding pre_run load_config read_config choose_source is_supported_path configure set_up
    open_database migrate overridden override load validate is_level is_format is_word new on_change
    connect run_statements run_migrations run_schema execute
pre_run_runs = refl

pre_run-IsReady_example :
    let o' = (pre_run calm_driver (λ config. none) some_viper some_flags old_file).1 in
    (c : Config) × (read_config some_viper some_flags.config_file ≡ ok c)
    × IsReady some_flags c old_file o' shared
    × ((post_run o').handles ≡ old_file.handles)
pre_run-IsReady_example =
    pre_run-IsReady calm_driver (λ config. none) some_viper some_flags old_file pre_run_runs
