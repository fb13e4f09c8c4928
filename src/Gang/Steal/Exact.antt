-- ===== src/Gang/Steal/Exact.antt =====
-- Work stealing calls `f` once for every index of the ranges, and for no other.
use network_demo.Base.{
  ℕ, zero, suc, ◌+◌, ◌≤◌, ◌<◌, ◌≡◌, ◌≢◌, refl, true, false, List, ltb, arith, ◌⊎◌, inl, inr,
  ℕ_discrete, lt→ltb,
}
use mathlib.Core.Path.{subst}
use native.Mathlib.Nat.{mod-eq_of_lt}
use network_demo.Base.Family.{total, total-update, total-eq-zero}
use network_demo.Gang.Steal.{Job, Pc, grab, chunk, finished, target, step, System, start, turn, run}
use network_demo.Gang.Steal.Claims.{
  count, pending, passed, claims, seen, grab_claims, chunk_claims, grab_outside, chunk_outside,
}
use network_demo.Gang.Steal.Invariant.{
  Fits, IsLocal, Inv, no_wrap, turn-Inv, run_keep, start-Inv, grab_target,
}

-- `i` is in range `t` and in no other.
pub record Home (job : Job) (first : ℕ → ℕ) (t i : ℕ) : Type 0 where
  pub valid : t < job.size
  pub from : first t ≤ i
  pub to : i < job.e t
  pub apart : (u : ℕ) → u < job.size → u ≢ t → (i < first u) ⊎ (job.e u ≤ i)

module _ {job : Job} {workers : ℕ} {first : ℕ → ℕ} (fits : Fits job workers) where
  module _ {t i : ℕ} (home : Home job first t i) where
    step_claims :
        {s : System} (id : ℕ)
        → id < workers
        → Inv job workers first s
        → (p : Pc) → s.pc id ≡ p
        → count i (step job id s.mem p).0.calls + pending i (step job id s.mem p).1 + seen t i s.mem
          ≡ count i s.mem.calls + pending i p + seen t i (step job id s.mem p).0
    step_claims {s} id lt inv (grab o) at =
        let valid : target job id o < job.size = grab_target fits inv id o lt at in
        let wraps = no_wrap fits inv (target job id o) valid in
        let low = inv.low (target job id o) valid in
        let where_it_is : (target job id o ≡ t)
            ⊎ ((target job id o ≢ t)
                × ((i < first (target job id o)) ⊎ (job.e (target job id o) ≤ i))) =
          elim (ℕ_discrete (target job id o) t) [
            | yes e ↦ inl e
            | no ne ↦ inr (ne, home.apart (target job id o) valid ne)
          ] in
        omega (
          arith,
          grab_claims job id s.mem t i o (first (target job id o)) wraps low where_it_is home.to,
        )
    step_claims {s} id lt inv (chunk o b_i end_b_i) at =
        chunk_claims job id s.mem t i o b_i end_b_i (subst (IsLocal job) at (inv.locals id)).1
    step_claims {s} id lt inv finished at = unfold step in refl

    -- The claims at `i` are one as soon as the counter of its range is past `i`, and none before.
    claims-turn :
        {s : System} (id : ℕ)
        → id < workers
        → Inv job workers first s
        → claims workers i s ≡ seen t i s.mem
        → claims workers i (turn job s id) ≡ seen t i (turn job s id).mem
    unfolding turn
    claims-turn {s} id lt inv h = omega (
      arith,
      step_claims id lt inv (s.pc id) refl,
      total-update (pending i) workers s.pc id (step job id s.mem (s.pc id)).1 lt,
    )

    run-claims :
        (ids : List ℕ) (s : System)
        → Inv job workers first s
        → claims workers i s ≡ seen t i s.mem
        → Inv job workers first (run job workers s ids)
          × (claims workers i (run job workers s ids) ≡ seen t i (run job workers s ids).mem)
    run-claims ids s inv h =
        run_keep job workers (λ s. Inv job workers first s × (claims workers i s ≡ seen t i s.mem))
          (λ s id lt k. (turn-Inv fits id lt k.0, claims-turn id lt k.0 k.1)) ids s (inv, h)

  module _ (i : ℕ) (outside : (u : ℕ) → u < job.size → (i < first u) ⊎ (job.e u ≤ i)) where
    turn_outside :
        {s : System} (id : ℕ)
        → id < workers
        → Inv job workers first s
        → claims workers i s ≡ 0
        → claims workers i (turn job s id) ≡ 0
    unfolding turn
    turn_outside {s} id lt inv h = omega (
      arith,
      step_outside (s.pc id) refl,
      total-update (pending i) workers s.pc id (step job id s.mem (s.pc id)).1 lt,
    )
      where
        step_outside :
            (p : Pc)
            → s.pc id ≡ p
            → count i (step job id s.mem p).0.calls + pending i (step job id s.mem p).1
              ≡ count i s.mem.calls + pending i p
        step_outside (grab o) at =
            let valid : target job id o < job.size = grab_target fits inv id o lt at in
            omega (
              arith,
              grab_outside job id s.mem i o (first (target job id o))
                  (inv.low (target job id o) valid) (outside (target job id o) valid),
            )
        step_outside (chunk o b_i end_b_i) at =
            chunk_outside job id s.mem i o b_i end_b_i (subst (IsLocal job) at (inv.locals id)).1
        step_outside finished at = unfold step in refl

abbrev pub AllFinished : ℕ → System → Type 0
AllFinished workers s = (id : ℕ) → id < workers → s.pc id ≡ finished

start_pending : (workers i : ℕ) (b : ℕ → ℕ) → claims workers i (start b) ≡ 0
unfolding start count
start_pending workers i b = omega (arith, total-eq-zero workers (λ id. 0) (λ id h. refl))

none_pending :
    (workers i : ℕ) (s : System)
    → AllFinished workers s
    → total workers (λ id. pending i (s.pc id)) ≡ 0
none_pending workers i s done =
    total-eq-zero workers (λ id. pending i (s.pc id)) (λ id lt. rw (done id lt) refl)

-- Worker 0 visits range `t` at offset `t`.
target_of_zero : (job : Job) (t : ℕ) → t < job.size → target job 0 t ≡ t
target_of_zero job zero h = refl
target_of_zero job (suc t) h = let e : 0 + suc t ≡ suc t = omega arith in rw e (mod-eq_of_lt h)

module _ (job : Job) (workers : ℕ) (b : ℕ → ℕ) (fits : Fits job workers) (ids : List ℕ)
    (ordered : (u : ℕ) → u < job.size → b u ≤ job.e u) where
  abbrev after : System
  after = run job workers (start b) ids

  started : Inv job workers b (start b)
  started = start-Inv job workers b fits.some_range ordered

  begins : (t i : ℕ) → Home job b t i → claims workers i (start b) ≡ seen t i (start b).mem
  unfolding start
  begins t i home =
      let fresh : ltb i (b t) ≡ false = ground arith in rw fresh (start_pending workers i b)

  -- In no schedule is `f` called twice at an index of one of disjoint ranges.
  calls_at_most_once : (t i : ℕ) → Home job b t i → count i after.mem.calls ≤ 1
  calls_at_most_once t i home =
      let (inv, e) = run-claims fits home ids (start b) started (begins t i home) in ground arith

  -- Once all workers have finished, `f` has been called exactly once at every index of the ranges,
  -- in whatever order the workers went.
  pub calls_exactly_once :
      (t i : ℕ)
      → Home job b t i
      → 0 < workers
      → AllFinished workers after
      → count i after.mem.calls ≡ 1
  calls_exactly_once t i home some_worker done =
      let (inv, e) = run-claims fits home ids (start b) started (begins t i home) in
      let left : t < passed job (after.pc 0) = rw (done 0 some_worker) home.valid in
      let used_up = rw (target_of_zero job t home.valid) at (inv.behind 0 t some_worker left) in
      let past : ltb i (after.mem.b t) ≡ true = lt→ltb i (after.mem.b t) (omega (arith, home.to)) in
      let all_claimed : claims workers i after ≡ 1 = rw past at e in
      omega (arith, none_pending workers i after done)

  -- In no schedule is `f` called at an index outside the ranges.
  pub calls_outside :
      (i : ℕ) → ((u : ℕ) → u < job.size → (i < b u) ⊎ (job.e u ≤ i)) → count i after.mem.calls ≡ 0
  calls_outside i outside =
      let kept =
        run_keep job workers (λ s. Inv job workers b s × (claims workers i s ≡ 0))
          (λ s id lt k. (turn-Inv fits id lt k.0, turn_outside fits i outside id lt k.0 k.1)) ids
          (start b) (started, start_pending workers i b) in
      omega (arith, kept.1)
