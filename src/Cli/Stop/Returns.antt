-- ===== src/Cli/Stop/Returns.antt =====
-- That `worker stop` of internal/cli/worker.go returns, and what it leaves behind.
use queue_ctl.Prelude.{
  ℕ, zero, suc, ◌+◌, ◌<◌, ◌≡◌, refl, ap, String, true, false, none, some, List, [], ◌∷◌, ◌++◌, ◌⊎◌,
  inl, inr, arith, Bool-cases,
}
use queue_ctl.Prelude.Int.{ℤ}
use queue_ctl.Domain.Errors.{ok}
use queue_ctl.Cli.{Line}
use queue_ctl.Cli.Pid.{found, read_pid_file}
use queue_ctl.Cli.Stop.{
  Os, Machine, interrupt, kill, removed, signalled, killed_lines, exited_lines, wait_for_exit,
  interrupted, located, read, stop,
}

module _ (os : Os) where
  -- A process that was told to stop has stopped, or it has been killed after the timeout.
  abbrev pub HasStopped : ℤ → Machine → Machine → Type 0
  HasStopped pid m m' =
      ((n : ℕ) × (os.alive n ≡ false) × (m'.signals ≡ m.signals ++ interrupt pid ∷ []))
      ⊎ ((n : ℕ) × (os.timed_out n ≡ true)
          × (m'.signals ≡ (m.signals ++ interrupt pid ∷ []) ++ kill pid ∷ []))

  -- The loop ends from its round k on, in a machine whose signals are those of `m` and an interrupt.
  abbrev Ends : ℕ → ℕ → ℤ → Machine → Machine → Type 0
  Ends fuel k pid m v =
      (lines : List Line) × (m' : Machine) × (wait_for_exit os fuel pid k v ≡ some (ok lines, m'))
      × (os.files.removes ≡ true → m'.pid_file ≡ none)
      × HasStopped pid m m'

  one_round :
      (fuel k : ℕ) (pid : ℤ) (m v : Machine)
      → v.signals ≡ m.signals ++ interrupt pid ∷ []
      → (os.timed_out k ≡ false → os.alive k ≡ true → Ends fuel (suc k) pid m v)
      → Ends (suc fuel) k pid m v
  unfolding wait_for_exit
  one_round fuel k pid m v sent later = elim (Bool-cases (os.timed_out k)) [
    | inl late ↦ (
      killed_lines os pid,
      removed os (signalled os (kill pid) v),
      rw late refl,
      (λ r. rw r refl),
      inr (k, late, ap (λ l. l ++ kill pid ∷ []) sent),
    )
    | inr early ↦ elim (Bool-cases (os.alive k)) [
      | inl lives ↦
          let (lines, m', ended, gone, done) = later early lives in
          (lines, m', rw early (rw lives ended), gone, done)
      | inr gone ↦ (
        exited_lines os pid,
        removed os v,
        rw early (rw gone refl),
        (λ r. rw r refl),
        inl (k, gone, sent),
      )
    ]
  ]

  waited :
      (fuel k n r : ℕ) (pid : ℤ) (m v : Machine)
      → n < fuel
      → r ≡ n + k
      → v.signals ≡ m.signals ++ interrupt pid ∷ []
      → (os.timed_out r ≡ true) ⊎ (os.alive r ≡ false)
      → Ends fuel k pid m v
  waited zero k n r pid m v lt e sent over = absurd (omega arith)
  waited (suc fuel) k zero r pid m v lt e sent over =
      let here : r ≡ k = omega arith in
      one_round fuel k pid m v sent
        (λ early lives. absurd (ground (arith, ap os.timed_out here, ap os.alive here)))
  waited (suc fuel) k (suc n) r pid m v lt e sent over =
      one_round fuel k pid m v sent
        (λ early lives. waited fuel (suc k) n r pid m v (omega arith) (omega arith) sent over)

  -- `worker stop` returns, as soon as the process is gone or the timeout is over: `n` is a round of the
  -- loop of which either holds, and more fuel than that is enough. If the file of the process identifier can be
  -- read, the process is found and it can be interrupted, then the command returns no error, the
  -- process has been interrupted and either was found gone, or was killed after the timeout; the file
  -- is removed if os.Remove does so.
  pub stop-returns :
      (fuel n : ℕ) (path : String) (pid : ℤ) (m : Machine)
      → n < fuel
      → (os.timed_out n ≡ true) ⊎ (os.alive n ≡ false)
      → read_pid_file os.files m.pid_file ≡ found pid
      → os.find_fault pid ≡ none
      → os.interrupt_fault pid ≡ none
      → (lines : List Line) × (m' : Machine) × (stop os fuel path m ≡ some (ok lines, m'))
        × (os.files.removes ≡ true → m'.pid_file ≡ none)
        × HasStopped pid m m'
  unfolding stop read located interrupted
  stop-returns fuel n path pid m lt over read_it found_it sent = rw read_it (
      rw found_it (
        rw sent
          (waited fuel 0 n n pid m (signalled os (interrupt pid) m) lt (omega arith) refl over)))
