-- ===== src/StopWatch/Shared.antt =====
-- `AtomicStopwatch`: threads that call `compareAndRestart` or `compareAndRestartDeferred` on one
-- watch, and the `Lock` that the second one returns. A step is one access of `start_ns` or one
-- look at the clock; what is computed between them is local. A threshold is given in nanoseconds.
pub mod Exclusive
mod Tests
use network_demo.Base.{
  ℕ, zero, suc, ◌+◌, ◌%◌, ◌^◌, Bool, true, false, List, [], ◌∷◌, ltb, leb, ◌==◌, ◌&&◌,
  if◌then◌else◌,
}
use network_demo.Base.Words.{add_size}
use network_demo.Base.Family.{update}
use network_demo.StopWatch.{Timespec, nanoseconds}

-- `AtomicStopwatch::nanoseconds`: the highest bit is cleared.
pub unlocked_nanoseconds : Timespec → ℕ
unfolding nanoseconds
unlocked_nanoseconds ts = nanoseconds ts % 2 ^ 63

-- `start_ns & 0x8000000000000000`
abbrev pub is_locked : ℕ → Bool
is_locked start_ns = leb (2 ^ 63) start_ns

-- `current_ns | 0x8000000000000000`, of a number of 63 bits.
abbrev pub lock_bit : ℕ → ℕ
lock_bit current_ns = current_ns + 2 ^ 63

-- The call that a thread makes, with its threshold.
pub data Call : Type 0 where
  restart restart_deferred : (threshold : ℕ) → Call

pub data Pc : Type 0 where
  -- at `current_ns = nanoseconds()`
  ready : Pc
  -- at `current_start_ns = start_ns`
  sampled : (current_ns : ℕ) → Pc
  -- at the head of the loop
  looping : (current_ns current_start_ns : ℕ) → Pc
  -- with the `Lock` in its hands
  holding : Pc
  -- back, with what the call said
  returned : Bool → Pc

-- What a step finds outside: the clock, and whether `compare_exchange_weak` fails without cause.
pub record Chance : Type 0 where
  pub now : Timespec
  pub spurious : Bool

-- `start_ns.compare_exchange_weak(current_start_ns, desired)`, and where it leads.
pub exchange : Bool → ℕ → ℕ → ℕ → ℕ → Pc → ℕ × Pc
exchange spurious start_ns current_ns current_start_ns desired success =
    if start_ns == current_start_ns
    then (if spurious then (start_ns, looping current_ns start_ns) else (desired, success))
    else (start_ns, looping current_ns start_ns)

-- One round of the loop.
pub round : Call → Bool → ℕ → ℕ → ℕ → ℕ × Pc
unfolding exchange
round (restart threshold) spurious start_ns current_ns current_start_ns =
    if ltb current_ns (add_size current_start_ns threshold)
    then (start_ns, returned false)
    else exchange spurious start_ns current_ns current_start_ns current_ns (returned true)
round (restart_deferred threshold) spurious start_ns current_ns current_start_ns =
    if is_locked current_start_ns
    then (start_ns, returned false)
    else if ltb current_ns (add_size current_start_ns threshold)
    then (start_ns, returned false)
    else exchange spurious start_ns current_ns current_start_ns (lock_bit current_ns) holding

pub step : Call → Chance → ℕ → Pc → ℕ × Pc
unfolding round unlocked_nanoseconds
step call c start_ns ready = (start_ns, sampled (unlocked_nanoseconds c.now))
step call c start_ns (sampled current_ns) = (start_ns, looping current_ns start_ns)
step call c start_ns (looping current_ns current_start_ns) =
    round call c.spurious start_ns current_ns current_start_ns
-- `~Lock` restarts the watch.
step call c start_ns holding = (unlocked_nanoseconds c.now, returned true)
step call c start_ns (returned r) = (start_ns, returned r)

pub record System : Type 0 where
  pub start_ns : ℕ
  pub pc : ℕ → Pc

-- The constructor restarts the watch.
pub init : Timespec → System
unfolding unlocked_nanoseconds
init now = record { start_ns = unlocked_nanoseconds now; pc = λ id. ready }

pub turn : (ℕ → Call) → System → ℕ × Chance → System
unfolding step
turn calls s (id, c) =
    let (start_ns, p) = step (calls id) c s.start_ns (s.pc id) in
    record { start_ns = start_ns; pc = update s.pc id p }

pub run : (ℕ → Call) → ℕ → System → List (ℕ × Chance) → System
unfolding turn
run calls threads s [] = s
run calls threads s ((id, c) ∷ events) =
    run calls threads (if ltb id threads then turn calls s (id, c) else s) events
