-- ===== src/Scheduler.antt =====
-- internal/scheduler/scheduler.go: the channel that wakes the worker pool. Its buffer holds one
-- event, and the state keeps how many it holds.
use queue_ctl.Prelude.{ℕ, zero, suc, ◌+◌, ◌≤◌, List, [], ◌∷◌, ltb, arith, if◌then◌else◌}
use queue_ctl.Domain.Errors.{ok}
use queue_ctl.Store.{World, Exec}

-- make(chan struct{}, 1)
abbrev pub channel_capacity : ℕ
channel_capacity = 1

-- Notify: a send that does not block, and gives up if the buffer is full
unfoldable pub notify : Exec (Unit {0})
notify w =
    (ok tt, record w { events = if ltb w.events channel_capacity then w.events + 1 else w.events })

-- A receive from NotifyChan, where an event is waiting.
abbrev pub received : ℕ → ℕ
received zero = zero
received (suc n) = n

unfoldable pub receive : World → World
receive w = record w { events = received w.events }

-- What the select of Start takes: the ticker, or the end of the context.
pub data Wake : Type 0 where
  ticked context_done : Wake

-- Start, for a sequence of what its select takes
unfoldable pub start : List Wake → World → World
unfolding notify
start [] w = w
start (ticked ∷ wakes) w = start wakes (notify w).1
start (context_done ∷ wakes) w = w

-- The buffer never holds more than one event, whatever the ticker does.
start_buffer :
    (wakes : List Wake) (w : World)
    → w.events ≤ channel_capacity
    → (start wakes w).events ≤ channel_capacity
unfolding start notify
start_buffer [] w h = h
start_buffer (ticked ∷ wakes) w h = start_buffer wakes (notify w).1 (ground arith)
start_buffer (context_done ∷ wakes) w h = h
