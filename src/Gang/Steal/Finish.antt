-- ===== src/Gang/Steal/Finish.antt =====
-- Work stealing ends: every step of a worker that has not finished uses up a bounded measure.
use network_demo.Base.{
  ℕ, zero, suc, ◌+◌, ◌-◌, ◌*◌, ◌^◌, ◌<◌, ◌≡◌, ◌≢◌, refl, List, [], ◌∷◌, ◌++◌, arith, ◌⊎◌, inl, inr,
  ap, dec_lt, lt→ltb,
}
use mathlib.Core.Path.{subst}
use network_demo.Base.Words.{add_size}
use network_demo.Base.Family.{total, total_same, total-update, total_change}
use network_demo.Gang.Steal.{
  Job, Shared, Pc, grab, chunk, finished, target, step, System, turn, run,
}
use network_demo.Gang.Steal.Invariant.{Fits, IsLocal, Inv, no_wrap, grab_target}
use network_demo.Gang.Steal.Exact.{AllFinished}

-- What a worker has still to do before it grabs again, and the targets that it has still to visit.
abbrev pub ahead : Job → Pc → ℕ
ahead job (grab o) = 1 + (job.size - o)
ahead job (chunk o b_i end_b_i) = (end_b_i - b_i) + 2 + (job.size - o)
ahead job finished = 0

-- The indices of range `u` that no worker has taken, four times.
abbrev pub untaken : Job → Shared → ℕ → ℕ
untaken job m u = 4 * (job.e u - m.b u)

unfoldable pub measure : Job → ℕ → System → ℕ
measure job workers s =
    total job.size (untaken job s.mem) + total workers (λ id. ahead job (s.pc id))

module _ (job : Job) (id : ℕ) (m : Shared) (some_chunk : 0 < job.chunk_size) where
  grab_uses_up :
      (o : ℕ)
      → o < job.size
      → add_size (m.b (target job id o)) job.chunk_size ≡ m.b (target job id o) + job.chunk_size
      → untaken job (step job id m (grab o)).0 (target job id o)
          + ahead job (step job id m (grab o)).1
        < untaken job m (target job id o) + ahead job (grab o)
  unfolding step
  grab_uses_up o lt no_wrap = ground arith

  grab_others :
      (o u : ℕ) → u ≢ target job id o → untaken job (step job id m (grab o)).0 u ≡ untaken job m u
  unfolding step
  grab_others o u ne = ground arith

  chunk_uses_up :
      (o b_i end_b_i : ℕ)
      → end_b_i < 2 ^ 64
      → ahead job (step job id m (chunk o b_i end_b_i)).1 < ahead job (chunk o b_i end_b_i)
  unfolding step
  chunk_uses_up o b_i end_b_i small = ground arith

  chunk_keeps :
      (o b_i end_b_i u : ℕ)
      → untaken job (step job id m (chunk o b_i end_b_i)).0 u ≡ untaken job m u
  unfolding step
  chunk_keeps o b_i end_b_i u = ground arith

module _ {job : Job} {workers : ℕ} {first : ℕ → ℕ} (fits : Fits job workers)
    (some_chunk : 0 < job.chunk_size) where
  step_uses_up :
      {s : System} (id : ℕ)
      → id < workers
      → Inv job workers first s
      → (p : Pc) → s.pc id ≡ p
      → p ≢ finished
      → total job.size (untaken job (step job id s.mem p).0) + ahead job (step job id s.mem p).1
        < total job.size (untaken job s.mem) + ahead job p
  step_uses_up {s} id lt inv (grab o) at busy =
      let valid : target job id o < job.size = grab_target fits inv id o lt at in
      let local : o < job.size = subst (IsLocal job) at (inv.locals id) in
      omega (
        arith,
        total_change job.size (untaken job (step job id s.mem (grab o)).0) (untaken job s.mem)
            (target job id o) valid (λ u ne. grab_others job id s.mem some_chunk o u ne),
        grab_uses_up job id s.mem some_chunk o local (no_wrap fits inv (target job id o) valid),
      )
  step_uses_up {s} id lt inv (chunk o b_i end_b_i) at busy = omega (
    arith,
    total_same job.size (untaken job (step job id s.mem (chunk o b_i end_b_i)).0)
        (untaken job s.mem) (λ u below. chunk_keeps job id s.mem some_chunk o b_i end_b_i u),
    chunk_uses_up job id s.mem some_chunk o b_i end_b_i (subst (IsLocal job) at (inv.locals id)).1,
  )
  step_uses_up id lt inv finished at busy = absurd (busy refl)

  -- A step of a worker that has not finished makes the measure smaller.
  pub turn_uses_up :
      {s : System} (id : ℕ)
      → id < workers
      → Inv job workers first s
      → s.pc id ≢ finished
      → measure job workers (turn job s id) < measure job workers s
  unfolding turn measure
  turn_uses_up {s} id lt inv busy = omega (
    arith,
    step_uses_up id lt inv (s.pc id) refl busy,
    total-update (ahead job) workers s.pc id (step job id s.mem (s.pc id)).1 lt,
  )

pub step_finished :
    (job : Job) (id : ℕ) (m : Shared) (p : Pc) → p ≡ finished → step job id m p ≡ (m, finished)
unfolding step
step_finished job id m p e = rw e refl

pub busy_or_finished : (p : Pc) → (p ≡ finished) ⊎ (p ≢ finished)
busy_or_finished (grab o) = inr (λ e. cc)
busy_or_finished (chunk o b_i end_b_i) = inr (λ e. cc)
busy_or_finished finished = inl refl

pub find_busy :
    (workers : ℕ) (s : System)
    → AllFinished workers s ⊎ ((id : ℕ) × (id < workers) × (s.pc id ≢ finished))
find_busy zero s = inl (λ id lt. absurd (omega arith))
find_busy (suc n) s = elim (busy_or_finished (s.pc n)) [
  | inr busy ↦ inr (n, omega arith, busy)
  | inl done ↦ elim (find_busy n s) [
    | inr (id, lt, busy) ↦ inr (id, omega arith, busy)
    | inl all ↦ inl λ id lt. elim (dec_lt id n) [
      | yes below ↦ all id below
      | no top ↦ let e : id ≡ n = omega arith in rw e done
    ]
  ]
]

-- Each worker in turn, from the last to the first.
abbrev pub countdown : ℕ → List ℕ
countdown zero = []
countdown (suc n) = n ∷ countdown n

pub run-append :
    (job : Job) (workers : ℕ) (xs ys : List ℕ) (s : System)
    → run job workers s (xs ++ ys) ≡ run job workers (run job workers s xs) ys
unfolding run
run-append job workers [] ys s = refl
run-append job workers (x ∷ xs) ys s = run-append job workers xs ys _

pub run-cons :
    (job : Job) (workers id : ℕ) (ids : List ℕ) (s : System)
    → id < workers
    → run job workers s (id ∷ ids) ≡ run job workers (turn job s id) ids
unfolding run
run-cons job workers id ids s lt = rw (run, lt→ltb id workers lt) refl

pub turn_finished_measure :
    (job : Job) (workers : ℕ) (s : System) (id : ℕ)
    → id < workers
    → s.pc id ≡ finished
    → measure job workers (turn job s id) ≡ measure job workers s
unfolding turn measure
turn_finished_measure job workers s id lt done =
    let e = step_finished job id s.mem (s.pc id) done in
    omega (
      arith,
      total_same job.size (untaken job (step job id s.mem (s.pc id)).0) (untaken job s.mem)
          (λ u below. ap (λ (r : Shared × Pc). untaken job r.0 u) e),
      total-update (ahead job) workers s.pc id (step job id s.mem (s.pc id)).1 lt,
      ap (λ (r : Shared × Pc). ahead job r.1) e,
      ap (ahead job) done,
    )
