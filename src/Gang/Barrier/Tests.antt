-- ===== src/Gang/Barrier/Tests.antt =====
-- Two threads that pass a barrier once.
use network_demo.Base.{ℕ, ◌≤◌, ◌<◌, ◌≡◌, List, [], ◌∷◌, true, refl, arith}
use network_demo.Gang.Barrier.{
  at, idle, entered_of, left_of, run, start, turn, placed, step, ab_barrier_init, ab_barrier_reinit,
}
use network_demo.Gang.Barrier.Safety.{waits_for_all, held_back, never_all_held_back}

-- Thread 0 comes first and waits; thread 1 is the last and lets it go.
abbrev schedule : List ℕ
schedule = 0 ∷ 0 ∷ 0 ∷ 0 ∷ 1 ∷ 1 ∷ 1 ∷ 1 ∷ 1 ∷ 0 ∷ []

both_out : (run 2 (start 2) schedule).thread 0 ≡ at idle 1 1
unfolding run start turn placed step ab_barrier_init
both_out = refl

reinit_more : ab_barrier_reinit (ab_barrier_init 2) 5 ≡ ab_barrier_init 5
unfolding ab_barrier_reinit ab_barrier_init
reinit_more = refl

waits_for_all_example :
    left_of ((run 2 (start 2) schedule).thread 0) ≤ entered_of ((run 2 (start 2) schedule).thread 1)
waits_for_all_example = waits_for_all 2 schedule 0 1 (omega arith) (omega arith) (omega arith)

never_all_held_back_example : ¬ (
    (j : ℕ)
    → j < 2
    → held_back (run 2 (start 2) schedule) ((run 2 (start 2) schedule).thread j) ≡ true)
never_all_held_back_example = never_all_held_back 2 schedule (omega arith) (omega arith)
