-- ===== src/Gang/Steal/Fair.antt =====
-- Under a schedule of rounds that each give every worker a turn, all workers finish.
use network_demo.Base.{
  ℕ, ◌≤◌, ◌<◌, ◌≡◌, ◌≢◌, refl, List, [], ◌∷◌, ◌++◌, length, false, ltb, arith, inl, inr, ℕ_discrete,
  dec_lt, ap,
}
use network_demo.Base.Family.{update_self, update_ne}
use network_demo.Gang.Steal.{Job, Shared, Pc, finished, step, System, start, turn, run}
use network_demo.Gang.Steal.Invariant.{Fits, Inv, turn-Inv, run_keep, start-Inv}
use network_demo.Gang.Steal.Exact.{AllFinished, Home, calls_exactly_once}
use network_demo.Gang.Steal.Claims.{count}
use network_demo.Gang.Steal.Finish.{
  measure, turn_uses_up, step_finished, busy_or_finished, find_busy, run-append, run-cons,
  turn_finished_measure,
}

turn-AllFinished :
    (job : Job) (workers : ℕ) (s : System) (id : ℕ)
    → id < workers
    → AllFinished workers s
    → AllFinished workers (turn job s id)
unfolding turn
turn-AllFinished job workers s id lt done j h = elim (ℕ_discrete j id) [
  | yes e ↦
      rw (e, update_self s.pc id (step job id s.mem (s.pc id)).1)
        (ap (λ (r : Shared × Pc). r.1) (step_finished job id s.mem (s.pc id) (done id lt)))
  | no ne ↦ rw (update_ne s.pc id (step job id s.mem (s.pc id)).1 j ne) (done j h)
]

run-skip :
    (job : Job) (workers id : ℕ) (ids : List ℕ) (s : System)
    → ¬ (id < workers)
    → run job workers s (id ∷ ids) ≡ run job workers s ids
unfolding run
run-skip job workers id ids s over =
    let off : ltb id workers ≡ false = ground arith in rw (run, off) refl

turn_pc_ne : (job : Job) (s : System) (id j : ℕ) → j ≢ id → (turn job s id).pc j ≡ s.pc j
unfolding turn
turn_pc_ne job s id j ne = update_ne s.pc id (step job id s.mem (s.pc id)).1 j ne

-- Rounds, one behind the other, in each of which every worker has a turn at least, in any order.
abbrev pub AreRounds : ℕ → List (List ℕ) → Type 0
AreRounds workers [] = Unit {0}
AreRounds workers (round ∷ rounds) =
    ((id : ℕ) → id < workers → 0 < count id round) × AreRounds workers rounds

abbrev pub in_turn : List (List ℕ) → List ℕ
in_turn [] = []
in_turn (round ∷ rounds) = round ++ in_turn rounds

done_stays :
    (job : Job) (workers : ℕ) (rounds : List (List ℕ)) (s : System)
    → AllFinished workers s
    → AllFinished workers (run job workers s (in_turn rounds))
done_stays job workers rounds s done =
    run_keep job workers (AllFinished workers) (turn-AllFinished job workers) (in_turn rounds) s
      done

module _ {job : Job} {workers : ℕ} {first : ℕ → ℕ} (fits : Fits job workers)
    (some_chunk : 0 < job.chunk_size) where
  turn-measure-le :
      (s : System) (id : ℕ)
      → id < workers
      → Inv job workers first s
      → measure job workers (turn job s id) ≤ measure job workers s
  turn-measure-le s id lt inv = elim (busy_or_finished (s.pc id)) [
    | inl done ↦ omega (arith, turn_finished_measure job workers s id lt done)
    | inr busy ↦ omega (arith, turn_uses_up fits some_chunk id lt inv busy)
  ]

  run-measure-le :
      (ids : List ℕ) (s : System)
      → Inv job workers first s
      → measure job workers (run job workers s ids) ≤ measure job workers s
  run-measure-le ids s inv =
      (run_keep job workers
        (λ r. Inv job workers first r × (measure job workers r ≤ measure job workers s))
        (λ r id lt k. (turn-Inv fits id lt k.0, omega (arith, k.1, turn-measure-le r id lt k.0)))
        ids s (inv, omega arith)).1

  -- A round in which a worker has a turn that has not finished makes the measure smaller.
  round_uses_up :
      (ids : List ℕ) (s : System) (id : ℕ)
      → Inv job workers first s
      → id < workers
      → 0 < count id ids
      → s.pc id ≢ finished
      → measure job workers (run job workers s ids) < measure job workers s
  unfolding count
  round_uses_up [] s id inv lt has busy = absurd (omega arith)
  round_uses_up (x ∷ ids) s id inv lt has busy = elim (ℕ_discrete id x) [
    | yes e ↦
        let busy' = rw e at busy in
        let lt' : x < workers = rw e at lt in
        rw (run-cons job workers x ids s lt') (
          omega (
            arith,
            run-measure-le ids (turn job s x) (turn-Inv fits x lt' inv),
            turn_uses_up fits some_chunk x lt' inv busy',
          ))
    | no ne ↦
        let later : 0 < count id ids = ground arith in
        elim (dec_lt x workers) [
          | yes lt' ↦ rw (run-cons job workers x ids s lt') (
              omega (
                arith,
                turn-measure-le s x lt' inv,
                round_uses_up ids (turn job s x) id (turn-Inv fits x lt' inv) lt later
                    (rw (turn_pc_ne job s x id ne) busy),
              ))
          | no over ↦
              rw (run-skip job workers x ids s over) (round_uses_up ids s id inv lt later busy)
        ]
  ]

  rounds_finish :
      (rounds : List (List ℕ)) (s : System)
      → AreRounds workers rounds
      → Inv job workers first s
      → measure job workers s ≤ length rounds
      → AllFinished workers (run job workers s (in_turn rounds))
  rounds_finish [] s fair inv le = elim (find_busy workers s) [
    | inl done ↦ done_stays job workers [] s done
    | inr (id, lt, busy) ↦ absurd (omega (arith, turn_uses_up fits some_chunk id lt inv busy))
  ]
  rounds_finish (round ∷ rounds) s fair inv le = elim (find_busy workers s) [
    | inl done ↦ done_stays job workers (round ∷ rounds) s done
    | inr (id, lt, busy) ↦
        let s' : System = run job workers s round in
        let inv' : Inv job workers first s' =
          run_keep job workers (Inv job workers first) (λ r id lt. turn-Inv fits id lt) round s
            inv in
        let less = round_uses_up round s id inv lt (fair.0 id lt) busy in
        rw (run-append job workers round (in_turn rounds) s)
          (rounds_finish rounds s' fair.1 inv' (omega (arith, less)))
  ]

module _ (job : Job) (workers : ℕ) (b : ℕ → ℕ) (fits : Fits job workers)
    (ordered : (u : ℕ) → u < job.size → b u ≤ job.e u) where
  -- With chunks of at least one index and at least one worker, whatever the order of the turns is
  -- within the rounds, `f` has been called exactly once at every index of the ranges after as many
  -- rounds as the measure of the start says, in each of which every worker has a turn at least. Every
  -- worker has a range of its own, no range ends before it begins, and each end leaves room below 2^64
  -- for as many chunks as there are workers times ranges, and two more.
  pub rounds_exactly_once :
      0 < job.chunk_size
      → 0 < workers
      → (rounds : List (List ℕ)) → AreRounds workers rounds
      → measure job workers (start b) ≤ length rounds
      → (t i : ℕ) → Home job b t i
      → count i (run job workers (start b) (in_turn rounds)).mem.calls ≡ 1
  rounds_exactly_once some_chunk some_worker rounds fair le t i home =
      calls_exactly_once job workers b fits (in_turn rounds) ordered t i home some_worker (
        rounds_finish fits some_chunk rounds (start b) fair
          (start-Inv job workers b fits.some_range ordered) le)
