-- ===== src/Cli/Setup/Ready.antt =====
-- What a command finds when PersistentPreRunE of internal/cli/root.go has returned no error.
use queue_ctl.Prelude.{
  ℕ, ◌+◌, ◌-◌, ◌≡◌, refl, ap, sym, subst, ◌∙◌, String, true, Option, [], ◌∷◌, arith, eq_iff,
}
use queue_ctl.Domain.Errors.{Error, Result, ok, err}
use queue_ctl.Config.{Config, Provider, validate, load, on_change, is_level, is_word}
use queue_ctl.Config.Source.{Viper, read_config, load_config}
use queue_ctl.Config.Valid.{validate-fits}
use queue_ctl.Database.{Driver, Disk, connect, run_migrations}
use queue_ctl.Database.Migrated.{
  Kept, HasTables, connect_ok, run_migrations-Kept, run_migrations_tables,
}
use queue_ctl.Logger as Logger
use queue_ctl.Logger.{ZapConfig, new}
use queue_ctl.Cli.Setup.{
  settings_of, post_run, migrate, built, Flags, Shared, Outside, override, overridden, configure,
  open_database, set_up, pre_run,
}

debug_level : is_level "debug" ≡ true
unfolding is_level is_word
debug_level = refl

-- The overrides of the command line keep a checked configuration valid.
override-valid :
    (flags : Flags) (c : Config) → validate c ≡ ok tt → validate (override flags c) ≡ ok tt
unfolding validate override
override-valid flags c h = ground (arith, eq_iff flags.db_path "", debug_level)

-- What a command may rely on: the configuration `c` of the file with the overrides, checked; the job
-- service built with its values; one more open connection, configured by the four pragmas in their
-- order; and the three tables, those that were there with their rows.
pub record IsReady (flags : Flags) (c : Config) (o o' : Outside) (s : Shared) : Type 0 where
  pub overridden_by : s.provider.cfg ≡ override flags c
  pub checked : validate s.provider.cfg ≡ ok tt
  pub retries : s.settings.max_retries ≡ s.provider.cfg.worker.max_retries
  pub base_delay : s.settings.backoff.base_delay ≡ s.provider.cfg.worker.backoff_base_delay
  pub max_delay : s.settings.backoff.max_delay ≡ s.provider.cfg.worker.backoff_max_delay
  pub path : s.db.path ≡ s.provider.cfg.database.path
  pub pragmas :
      s.db.pragmas
      ≡ "PRAGMA journal_mode=WAL;" ∷ "PRAGMA busy_timeout=5000;" ∷ "PRAGMA synchronous=NORMAL;"
        ∷ "PRAGMA foreign_keys=ON;" ∷ []
  pub single_writer : s.db.max_open_conns ≡ 1
  pub tables : HasTables o'.disk
  pub kept : Kept o.disk o'.disk
  pub handles : o'.handles ≡ o.handles + 1

module _ (driver : Driver) (build_fault : ZapConfig → Option Error) (viper : Viper) where
  configure_ok :
      (flags : Flags) {p : Provider} {logger : Logger.Logger}
      → configure driver build_fault viper flags ≡ ok (p, logger)
      → (c : Config) × (read_config viper flags.config_file ≡ ok c)
        × (p.cfg ≡ override flags c)
        × (validate p.cfg ≡ ok tt)
  unfolding configure overridden load_config load on_change
  configure_ok flags {p} {logger} h = go (read_config viper flags.config_file) refl
    where
      go :
          (r : Result Config)
          → read_config viper flags.config_file ≡ r
          → (c : Config) × (read_config viper flags.config_file ≡ ok c)
            × (p.cfg ≡ override flags c)
            × (validate p.cfg ≡ ok tt)
      go (err e) q = absurd (ground arith)
      go (ok c) q =
          let same : p.cfg ≡ override flags c = ground arith in
          let valid : validate c ≡ ok tt = ground arith in
          (c, q, same, subst (λ k. validate k ≡ ok tt) (sym same) (override-valid flags c valid))

  migrated_ok :
      (p : Provider) (logger : Logger.Logger) (disk : Disk) (path : String) (handles : ℕ)
      {s : Shared}
      → (open_database driver build_fault viper p logger disk (connect driver path handles)).0
        ≡ ok s
      → ((connect driver path handles).0 ≡ ok s.db)
        × ((run_migrations driver disk).0 ≡ ok tt)
        × (s ≡ built driver build_fault viper p logger s.db)
        × ((open_database driver build_fault viper p logger disk (connect driver path handles)).1
            ≡ record {
              disk = (run_migrations driver disk).1;
              handles = (connect driver path handles).1;
            })
  unfolding open_database migrate
  migrated_ok p logger disk path handles {s} h = ground arith

  set_up_ok :
      (r : Result (Provider × Logger.Logger)) (o : Outside) {s : Shared}
      → (set_up driver build_fault viper r o).0 ≡ ok s
      → (p : Provider) × (logger : Logger.Logger) × (r ≡ ok (p, logger))
        × ((open_database driver build_fault viper p logger o.disk
              (connect driver p.cfg.database.path o.handles)).0
            ≡ ok s)
        × ((set_up driver build_fault viper r o).1
            ≡ (open_database driver build_fault viper p logger o.disk
                (connect driver p.cfg.database.path o.handles)).1)
  unfolding set_up
  set_up_ok (err e) o h = absurd (ground arith)
  set_up_ok (ok (p, logger)) o h = (p, logger, refl, h, refl)

  ready :
      (flags : Flags) (c : Config) (p : Provider) (logger : Logger.Logger) (o : Outside)
      {s : Shared}
      → p.cfg ≡ override flags c
      → validate p.cfg ≡ ok tt
      → (open_database driver build_fault viper p logger o.disk
          (connect driver p.cfg.database.path o.handles)).0
        ≡ ok s
      → IsReady flags c o
          (open_database driver build_fault viper p logger o.disk
            (connect driver p.cfg.database.path o.handles)).1
          s
  unfolding settings_of
  ready flags c p logger o {s} same valid h =
      let (connected, migrated, made, left) =
        migrated_ok p logger o.disk p.cfg.database.path o.handles h in
      let (path, pragmas, single, one_more) =
        connect_ok driver p.cfg.database.path o.handles connected in
      let (policy, backoff, workers, polls) = validate-fits p.cfg valid in
      let provider : s.provider ≡ p = ap (λ (s : Shared). s.provider) made in
      let settings : s.settings ≡ settings_of p.cfg = ap (λ (s : Shared). s.settings) made in
      rw left (record {
        overridden_by = ap (λ (p : Provider). p.cfg) provider ∙ same;
        checked = subst (λ (k : Provider). validate k.cfg ≡ ok tt) (sym provider) valid;
        retries = rw (settings, provider) refl;
        base_delay = rw (settings, provider, backoff) refl;
        max_delay = rw (settings, provider, backoff) refl;
        path = path ∙ ap (λ (p : Provider). p.cfg.database.path) (sym provider);
        pragmas = pragmas;
        single_writer = single;
        tables = run_migrations_tables driver o.disk migrated;
        kept = run_migrations-Kept driver o.disk;
        handles = one_more;
      })

  -- If PersistentPreRunE returns no error, then LoadConfig has read a configuration from the source that it chose, and what a command may
  -- rely on holds: its overrides keep the configuration valid by Validate, the job service has its max_retries and
  -- exactly its delays, the connection has run the four pragmas in their order and has one writer,
  -- the three tables exist, a table that existed has the rows that it had, and one more handle is
  -- open, which PersistentPostRun closes.
  pub pre_run-IsReady :
      (flags : Flags) (o : Outside) {s : Shared}
      → (pre_run driver build_fault viper flags o).0 ≡ ok s
      → (c : Config) × (read_config viper flags.config_file ≡ ok c)
        × IsReady flags c o (pre_run driver build_fault viper flags o).1 s
        × ((post_run (pre_run driver build_fault viper flags o).1).handles ≡ o.handles)
  unfolding pre_run post_run
  pre_run-IsReady flags o {s} h =
      let (p, logger, configured, opened, left) =
        set_up_ok (configure driver build_fault viper flags) o h in
      let (c, read, same, valid) = configure_ok flags configured in
      let is_ready = ready flags c p logger o same valid opened in
      (
        c,
        read,
        subst (λ o'. IsReady flags c o o' s) (sym left) is_ready,
        ap (λ (o : Outside). o.handles - 1) left ∙ (let n = is_ready.handles in omega arith),
      )
