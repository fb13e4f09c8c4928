-- ===== src/StopWatch/Shared/Tests.antt =====
-- Two threads that ask for the lock of a watch at the same time.
use network_demo.Base.{ℕ, ◌≤◌, ◌≡◌, ◌↔◌, refl, true, false, List, [], ◌∷◌, arith}
use network_demo.StopWatch.{Timespec, nanoseconds}
use network_demo.Base.Family.{total}
use network_demo.StopWatch.Shared.{
  is_locked, Call, restart_deferred, Chance, exchange, round, step, unlocked_nanoseconds, init,
  turn, run,
}
use network_demo.StopWatch.Shared.Exclusive.{holders, one_holder}

abbrev ask : ℕ → Call
ask id = restart_deferred 100

abbrev at : ℕ → Timespec
at nsec = record { tv_sec = 0; tv_nsec = nsec }

abbrev moment : ℕ → Chance
moment nsec = record { now = at nsec; spurious = false }

-- The second thread looks before the first takes the lock.
abbrev events : List (ℕ × Chance)
events =
    (0, moment 200)
    ∷ (1, moment 201)
    ∷ (0, moment 202)
    ∷ (1, moment 203)
    ∷ (0, moment 204)
    ∷ (1, moment 205)
    ∷ (1, moment 206)
    ∷ []

one_taken : holders 2 (run ask 2 (init (at 10)) events) ≡ 1
unfolding run turn step round exchange init unlocked_nanoseconds nanoseconds total
one_taken = refl

one_holder_example :
    (holders 2 (run ask 2 (init (at 10)) events) ≤ 1)
    × ((holders 2 (run ask 2 (init (at 10)) events) ≡ 1)
        ↔ (is_locked (run ask 2 (init (at 10)) events).start_ns ≡ true))
one_holder_example =
    one_holder ask 2 1000 (λ id. omega arith) (at 10) events (omega arith) (omega arith)
