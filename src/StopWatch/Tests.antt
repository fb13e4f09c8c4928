-- ===== src/StopWatch/Tests.antt =====
-- A watch that is stopped after two seconds, started and restarted, and the times of a thread.
use network_demo.Base.{ℕ, ◌≡◌, refl, false, List, [], ◌∷◌, arith}
use network_demo.StopWatch.{Timespec, fresh, start, elapsed, Rusage, StopwatchRusage}
use network_demo.StopWatch.Laws.{
  exact, Event, start_at, stop_at, restart_at, replay, running, meter, measured, elapsed-replay,
}

abbrev at : ℕ → Timespec
at sec = record { tv_sec = sec; tv_nsec = 5 }

abbrev history : List Event
history = stop_at (at 3) ∷ start_at (at 4) ∷ restart_at (at 5) ∷ []

elapsed-replay_example :
    elapsed (replay (start fresh (at 1)) history) (at 6)
    ≡ measured (meter (running (exact (at 1))) history) (exact (at 6))
elapsed-replay_example = elapsed-replay (at 1) history (at 6) (omega arith)

measured-history : measured (meter (running (exact (at 1))) history) (exact (at 6)) ≡ 1000000000
unfolding measured meter
measured-history = refl

abbrev watch : StopwatchRusage
watch = record {
  start_ts = record { user_ns = 7; sys_ns = 8 };
  stop_ts = record { user_ns = 9; sys_ns = 20 };
  is_running = false;
}

abbrev usage : Rusage
usage = record { utime_sec = 1; utime_usec = 2; stime_sec = 3; stime_usec = 4 }
