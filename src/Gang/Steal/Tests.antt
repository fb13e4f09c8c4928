-- ===== src/Gang/Steal/Tests.antt =====
-- Two workers that steal chunks of two indices from the ranges `[3, 6)` and `[6, 8)`.
use network_demo.Base.{
  ℕ, zero, suc, ◌+◌, ◌*◌, ◌^◌, ◌≤◌, ◌<◌, ◌≡◌, ◌≢◌, refl, List, [], ◌∷◌, arith, ◌⊎◌, inl, inr,
}
use network_demo.Base.Family.{total}
use network_demo.Gang.Steal.{Job, step, start, turn, run}
use network_demo.Gang.Steal.Claims.{count}
use network_demo.Gang.Steal.Invariant.{Fits}
use network_demo.Gang.Steal.Exact.{Home, AllFinished, calls_exactly_once}
use network_demo.Gang.Steal.Finish.{measure}
use network_demo.Gang.Steal.Fair.{AreRounds, in_turn, rounds_exactly_once}

abbrev ends : ℕ → ℕ
ends zero = 6
ends (suc u) = 8

abbrev begins : ℕ → ℕ
begins zero = 3
begins (suc u) = 6

abbrev job : Job
job = record { size = 2; e = ends; chunk_size = 2 }

-- Worker 1 goes first, and steals a chunk of the first range.
abbrev schedule : List ℕ
schedule = 1 ∷ 1 ∷ 1 ∷ 1 ∷ 1 ∷ 1 ∷ 0 ∷ 0 ∷ 1 ∷ 1 ∷ 0 ∷ 0 ∷ 1 ∷ 1 ∷ 0 ∷ 1 ∷ 0 ∷ 0 ∷ 0 ∷ []

job-Fits : Fits job 2
job-Fits = record { own = omega arith; some_range = omega arith; room = room }
  where
    room : (u : ℕ) → u < 2 → ends u + 2 * (2 * 2 + 2) < 2 ^ 64
    room zero lt = omega arith
    room (suc u) lt = omega arith

job_ordered : (u : ℕ) → u < 2 → begins u ≤ ends u
job_ordered zero lt = omega arith
job_ordered (suc u) lt = omega arith

four : Home job begins 0 4
four = record { valid = omega arith; from = omega arith; to = omega arith; apart = apart }
  where
    apart : (u : ℕ) → u < 2 → u ≢ 0 → (4 < begins u) ⊎ (ends u ≤ 4)
    apart zero lt ne = absurd (ne refl)
    apart (suc u) lt ne = inl (omega arith)

nine_outside : (u : ℕ) → u < 2 → (9 < begins u) ⊎ (ends u ≤ 9)
nine_outside zero lt = inr (omega arith)
nine_outside (suc u) lt = inr (omega arith)

calls_run : (run job 2 (start begins) schedule).mem.calls ≡ 4 ∷ 3 ∷ 5 ∷ 7 ∷ 6 ∷ []
unfolding run turn step start
calls_run = refl

schedule-AllFinished : AllFinished 2 (run job 2 (start begins) schedule)
unfolding run turn step start
schedule-AllFinished zero lt = refl
schedule-AllFinished (suc zero) lt = refl
schedule-AllFinished (suc (suc id)) lt = absurd (omega arith)

calls_exactly_once_example : count 4 (run job 2 (start begins) schedule).mem.calls ≡ 1
calls_exactly_once_example =
    calls_exactly_once job 2 begins job-Fits schedule job_ordered 0 4 four (omega arith)
      schedule-AllFinished

measure-start : measure job 2 (start begins) ≤ 100
unfolding measure start total
measure-start = omega arith

-- Rounds in which now the one and now the other worker is first, and one has two turns.
abbrev alternating : ℕ → List (List ℕ)
alternating zero = []
alternating (suc k) = (0 ∷ 1 ∷ []) ∷ (1 ∷ 0 ∷ 1 ∷ []) ∷ alternating k

alternating-AreRounds : (k : ℕ) → AreRounds 2 (alternating k)
unfolding count
alternating-AreRounds zero = tt
alternating-AreRounds (suc k) =
    (λ id lt. ground arith, (λ id lt. ground arith, alternating-AreRounds k))

rounds_exactly_once_example :
    count 4 (run job 2 (start begins) (in_turn (alternating 50))).mem.calls ≡ 1
rounds_exactly_once_example =
    rounds_exactly_once job 2 begins job-Fits job_ordered (omega arith) (omega arith)
      (alternating 50) (alternating-AreRounds 50) measure-start 0 4 four
