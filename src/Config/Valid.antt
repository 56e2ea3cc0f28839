-- ===== src/Config/Valid.antt =====
-- What a checked configuration guarantees to the rest of the program.
use queue_ctl.Prelude.{◌≡◌, refl, subst, Option, none, some, List, [], ◌∷◌, arith}
use queue_ctl.Prelude.Int.{pos, ◌<ℤ◌}
use queue_ctl.Domain.Errors.{Result, ok, err}
use queue_ctl.Retry.Backoff.{new_exponential_backoff, new_retry_policy}
use queue_ctl.Config.{Config, Provider, validate, load, loaded_if, on_change, reload}

-- A configuration that passes Validate makes the retry policy and the backoff with exactly its delays,
-- and has a positive concurrency and poll interval.
pub validate-fits :
    (c : Config)
    → validate c ≡ ok tt
    → (new_retry_policy c.worker.max_retries c.worker.backoff_base_delay c.worker.backoff_max_delay
        ≡ ok (record {
          max_retries = c.worker.max_retries;
          backoff_base_delay = c.worker.backoff_base_delay;
          backoff_max_delay = c.worker.backoff_max_delay;
        }))
      × (new_exponential_backoff c.worker.backoff_base_delay c.worker.backoff_max_delay ≡ record {
        base_delay = c.worker.backoff_base_delay;
        max_delay = c.worker.backoff_max_delay;
      })
      × (pos 0 <ℤ c.worker.concurrency)
      × (pos 0 <ℤ c.worker.poll_interval)
unfolding validate new_retry_policy new_exponential_backoff
validate-fits c h = (ground arith, ground arith, ground arith, ground arith)

-- What may happen to a provider: a callback is registered, or the file changes.
pub data Event : Type 0 where
  registered : Event
  changed : Option Config → Event

abbrev pub react : Event → Provider → Provider
react registered p = on_change p
react (changed c) p = reload c p

pub react_all : List Event → Provider → Provider
react_all [] p = p
react_all (e ∷ es) p = react_all es (react e p)

react-valid : (e : Event) (p : Provider) → validate p.cfg ≡ ok tt → validate (react e p).cfg ≡ ok tt
unfolding on_change reload
react-valid registered p h = h
react-valid (changed none) p h = h
react-valid (changed (some c)) p h = go (validate c) refl
  where
    go : (r : Result (Unit {0})) → validate c ≡ r → validate (reload (some c) p).cfg ≡ ok tt
    go (ok tt) q = rw q q
    go (err e) q = rw q h

react_all-valid :
    (es : List Event) (p : Provider)
    → validate p.cfg ≡ ok tt
    → validate (react_all es p).cfg ≡ ok tt
unfolding react_all
react_all-valid [] p h = h
react_all-valid (e ∷ es) p h = react_all-valid es (react e p) (react-valid e p h)

loaded_if_ok :
    (c : Config) (r : Result (Unit {0})) {p : Provider}
    → loaded_if c r ≡ ok p
    → (r ≡ ok tt) × (c ≡ p.cfg)
loaded_if_ok c (ok tt) h = (refl, ground arith)
loaded_if_ok c (err e) h = absurd (ground arith)

-- The active configuration of a provider that LoadConfig returned passes Validate, whatever callbacks
-- are registered and however the file changes afterwards.
pub load-valid :
    (c : Config) (es : List Event) {p : Provider}
    → load c ≡ ok p
    → validate (react_all es p).cfg ≡ ok tt
unfolding load
load-valid c es {p} h =
    let (valid, same) = loaded_if_ok c (validate c) h in
    react_all-valid es p (subst (λ k. validate k ≡ ok tt) same valid)
