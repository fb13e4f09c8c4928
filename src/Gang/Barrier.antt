-- ===== src/Gang/Barrier.antt =====
-- The futex barrier of utils/Gang.h: `ab_barrier_init`, `ab_barrier_reinit` and the threads that
-- call `ab_barrier_wait` again and again. A step is one access of a field of the barrier.
-- `futex_wait` and `futex_wake` only decide when a thread goes on, and a schedule may let it go on
-- at any time, so a wait is a read of `generation` that may be repeated.
pub mod Invariant
pub mod Steps
pub mod Safety
mod Tests
use network_demo.Base.{
  ℕ, suc, ◌+◌, ◌-◌, ◌*◌, ◌/◌, ◌%◌, ◌^◌, Bool, ltb, ◌==◌, if◌then◌else◌, List, [], ◌∷◌,
}
use network_demo.Base.Family.{update}

-- `BAR_INCR` and `BAR_OVERFLOW`
abbrev pub bar_incr : ℕ
bar_incr = 512

abbrev pub bar_overflow : ℕ
bar_overflow = 10000000

-- `ab_barrier_t`
pub record Barrier : Type 0 where
  pub bar_total : ℕ
  pub generation : ℕ
  pub awaited : ℕ

pub ab_barrier_init : ℕ → Barrier
ab_barrier_init count = record { bar_total = count; generation = 0; awaited = count }

pub ab_barrier_reinit : Barrier → ℕ → Barrier
ab_barrier_reinit bar count = record bar {
  bar_total = count;
  awaited = (bar.awaited + count + 2 ^ 32 - bar.bar_total) % 2 ^ 32;
}

pub data Pc : Type 0 where
  -- in front of a wait
  idle : Pc
  -- in front of the decrement, with `generation` masked by `-BAR_INCR`
  loaded : (ret : ℕ) → Pc
  -- the last: in front of `awaited = total`, of the read and of the store of `generation`
  resetting reading : Pc
  storing : (generation : ℕ) → Pc
  -- in front of the test of `awaited`, and of a test of `generation`
  checking waiting : (state : ℕ) → Pc

-- A thread, with the waits that it has entered, by the decrement, and those that it has left.
pub data Thread : Type 0 where
  at : Pc → (entered left : ℕ) → Thread

abbrev pub entered_of : Thread → ℕ
entered_of (at pc e l) = e

abbrev pub left_of : Thread → ℕ
left_of (at pc e l) = l

pub step : Barrier → Thread → Barrier × Thread
step bar (at idle e l) = (bar, at (loaded (bar.generation / bar_incr * bar_incr)) e l)
step bar (at (loaded ret) e l) =
    let awaited = (bar.awaited + 2 ^ 32 - 1) % 2 ^ 32 in
    (
      record bar { awaited = awaited },
      at (if awaited == 0 then resetting else checking ret) (suc e) l,
    )
step bar (at resetting e l) = (record bar { awaited = bar.bar_total }, at reading e l)
step bar (at reading e l) = (bar, at (storing bar.generation) e l)
step bar (at (storing generation) e l) =
    (record bar { generation = (generation + bar_incr) % 2 ^ 32 }, at idle e (suc l))
step bar (at (checking state) e l) =
    (bar, if ltb bar_overflow bar.awaited then at idle e (suc l) else at (waiting state) e l)
step bar (at (waiting state) e l) =
    (bar, if bar.generation == state then at (waiting state) e l else at idle e (suc l))

pub record System : Type 0 where
  pub bar : Barrier
  pub thread : ℕ → Thread

pub start : ℕ → System
unfolding ab_barrier_init
start count = record { bar = ab_barrier_init count; thread = λ id. at idle 0 0 }

pub placed : System → ℕ → Barrier × Thread → System
placed s id out = record { bar = out.0; thread = update s.thread id out.1 }

pub turn : System → ℕ → System
unfolding placed step
turn s id = placed s id (step s.bar (s.thread id))

-- The threads below `threads` take their steps in the order of the list.
pub run : ℕ → System → List ℕ → System
unfolding turn
run threads s [] = s
run threads s (id ∷ schedule) = run threads (if ltb id threads then turn s id else s) schedule
