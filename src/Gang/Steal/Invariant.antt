-- ===== src/Gang/Steal/Invariant.antt =====
-- The invariant of work stealing: no counter wraps, and what a worker leaves behind is used up.
use network_demo.Base.{
  ℕ, zero, suc, ◌+◌, ◌*◌, ◌^◌, ◌≤◌, ◌<◌, ◌≡◌, refl, List, [], ◌∷◌, ltb, leb, arith, inl, inr,
  Bool-cases, ltb→lt, ℕ_discrete,
}
use native.Mathlib.Nat.{le_trans}
use mathlib.Core.Path.{subst}
use network_demo.Base.Words.{add_size}
use network_demo.Base.Family.{update, total, total-update, total-le, update_self, update_ne}
use network_demo.Gang.Steal.{
  Job, Shared, Pc, grab, chunk, finished, target, step, System, start, turn, run,
}
use network_demo.Gang.Steal.Claims.{passed, left_behind}

-- What the sizes have to satisfy: every worker has a range of its own, and the ends leave room
-- for the chunks by which the counters overshoot.
pub record Fits (job : Job) (workers : ℕ) : Type 0 where
  pub own : workers ≤ job.size
  pub some_range : 0 < job.size
  pub room : (u : ℕ) → u < job.size → job.e u + job.chunk_size * (workers * job.size + 2) < 2 ^ 64

abbrev pub IsLocal : Job → Pc → Type 0
IsLocal job (grab o) = o < job.size
IsLocal job (chunk o b_i end_b_i) = (o < job.size) × (end_b_i < 2 ^ 64)
IsLocal job finished = Unit {0}

pub record Inv (job : Job) (workers : ℕ) (first : ℕ → ℕ) (s : System) : Type 0 where
  pub low : (u : ℕ) → u < job.size → first u ≤ s.mem.b u
  pub bound :
      (u : ℕ)
      → u < job.size
      → s.mem.b u ≤ job.e u + job.chunk_size * suc (left_behind job workers s)
  pub locals : (id : ℕ) → IsLocal job (s.pc id)
  pub behind :
      (id o : ℕ)
      → id < workers
      → o < passed job (s.pc id)
      → job.e (target job id o) ≤ s.mem.b (target job id o)

pub target-lt : (job : Job) (id o : ℕ) → id < job.size → target job id o < job.size
target-lt job id zero h = h
target-lt job id (suc o) h = omega arith

passed-le : (job : Job) (p : Pc) → IsLocal job p → passed job p ≤ job.size
passed-le job (grab o) h = omega arith
passed-le job (chunk o b_i end_b_i) h = omega arith
passed-le job finished h = omega arith

module _ (job : Job) (id : ℕ) (m : Shared) where
  step-IsLocal : (p : Pc) → IsLocal job p → IsLocal job (step job id m p).1
  unfolding step
  step-IsLocal (grab o) h = ground arith
  step-IsLocal (chunk o b_i end_b_i) h = ground arith
  step-IsLocal finished h = tt

  step_mono :
      (p : Pc)
      → ((o : ℕ)
          → p ≡ grab o
          → m.b (target job id o) ≤ add_size (m.b (target job id o)) job.chunk_size)
      → (u : ℕ) → m.b u ≤ (step job id m p).0.b u
  unfolding step
  step_mono (grab o) h u = ground (arith, h o refl)
  step_mono (chunk o b_i end_b_i) h u = ground arith
  step_mono finished h u = omega arith

  -- A grab that finds its range used up leaves it behind; any other stays below the end.
  step_bound :
      (p : Pc) (u w w' : ℕ)
      → IsLocal job p
      → m.b u ≤ job.e u + job.chunk_size * suc w
      → w' + passed job p ≡ w + passed job (step job id m p).1
      → (step job id m p).0.b u ≤ job.e u + job.chunk_size * suc w'
  unfolding step
  step_bound (grab o) u w w' h below change =
      elim (Bool-cases (leb (job.e (target job id o)) (m.b (target job id o)))) [
        | inl used_up ↦
            let more : w' ≡ suc w = ground arith in
            let product : job.chunk_size * suc w' ≡ job.chunk_size * suc w + job.chunk_size =
              rw more (omega arith) in
            rw used_up (ground arith)
        | inr left ↦ let more : w' ≡ w = ground arith in rw (left, more) (ground arith)
      ]
  step_bound (chunk o b_i end_b_i) u w w' h below change =
      let more : w' ≡ w = ground arith in rw more (ground arith)
  step_bound finished u w w' h below change = let e : w' ≡ w = omega arith in rw e below

  step_behind :
      (p : Pc) (o : ℕ)
      → IsLocal job p
      → ((u : ℕ) → m.b u ≤ (step job id m p).0.b u)
      → (o < passed job p → job.e (target job id o) ≤ m.b (target job id o))
      → o < passed job (step job id m p).1
      → job.e (target job id o) ≤ (step job id m p).0.b (target job id o)
  unfolding step
  step_behind (grab k) o h mono old lt = elim (ℕ_discrete o k) [
    | yes same ↦ rw same (ground (arith, mono (target job id k)))
    | no other ↦ ground (arith, mono (target job id o), old)
  ]
  step_behind (chunk k b_i end_b_i) o h mono old lt = ground (arith, mono (target job id o), old)
  step_behind finished o h mono old lt = old lt

mul_mono : (k : ℕ) {x y : ℕ} → x ≤ y → k * x ≤ k * y
mul_mono k h = grind arith

left_behind-le :
    (job : Job) (workers : ℕ) {first : ℕ → ℕ} {s : System}
    → Inv job workers first s
    → left_behind job workers s ≤ workers * job.size
left_behind-le job workers {s = s} inv =
    total-le workers job.size _ (λ id h. passed-le job (s.pc id) (inv.locals id))

module _ {job : Job} {workers : ℕ} {first : ℕ → ℕ} (fits : Fits job workers) where
  -- The counter of a range does not wrap when a chunk is taken.
  pub no_wrap :
      {s : System}
      → Inv job workers first s
      → (u : ℕ) → u < job.size
      → add_size (s.mem.b u) job.chunk_size ≡ s.mem.b u + job.chunk_size
  no_wrap {s} inv u lt =
      let few : left_behind job workers s ≤ workers * job.size = left_behind-le job workers inv in
      let product : job.chunk_size * (left_behind job workers s + 2)
          ≤ job.chunk_size * (workers * job.size + 2) =
        mul_mono job.chunk_size (omega arith) in
      omega (arith, inv.bound u lt, fits.room u lt)

  pub grab_target :
      {s : System}
      → Inv job workers first s
      → (id o : ℕ) → id < workers
      → s.pc id ≡ grab o
      → target job id o < job.size
  grab_target inv id o lt at =
      let here : o < job.size = subst (IsLocal job) at (inv.locals id) in
      target-lt job id o (omega (arith, fits.own))

  turn_mono :
      {s : System} (id : ℕ)
      → id < workers
      → Inv job workers first s
      → (u : ℕ) → s.mem.b u ≤ (step job id s.mem (s.pc id)).0.b u
  turn_mono {s} id lt inv =
      step_mono job id s.mem (s.pc id)
        λ o at_grab. omega (arith, no_wrap inv (target job id o) (grab_target inv id o lt at_grab))

  -- Every step keeps the invariant.
  pub turn-Inv :
      {s : System} (id : ℕ)
      → id < workers
      → Inv job workers first s
      → Inv job workers first (turn job s id)
  unfolding turn
  turn-Inv {s} id lt inv = record {
    low = λ u h. le_trans (inv.low u h) (mono u);
    bound = λ u h.
        step_bound job id s.mem p u (left_behind job workers s) _ (inv.locals id) (inv.bound u h)
          change;
    locals = λ j. elim (ℕ_discrete j id) [
      | yes e ↦ rw (e, update_self s.pc id p') (step-IsLocal job id s.mem p (inv.locals id))
      | no ne ↦ rw (update_ne s.pc id p' j ne) (inv.locals j)
    ];
    behind = λ j o h k. elim (ℕ_discrete j id) [
      | yes e ↦
          let moved : o < passed job (update s.pc id p' id) =
            subst (λ x. o < passed job (update s.pc id p' x)) e k in
          rw e (
            step_behind job id s.mem p o (inv.locals id) mono (inv.behind id o lt)
              (rw (update_self s.pc id p') at moved))
      | no ne ↦
          le_trans (inv.behind j o h (rw (update_ne s.pc id p' j ne) at k)) (mono (target job j o))
    ];
  }
    where
      p : Pc
      p = s.pc id

      p' : Pc
      p' = (step job id s.mem p).1

      mono : (u : ℕ) → s.mem.b u ≤ (step job id s.mem p).0.b u
      mono = turn_mono id lt inv

      change :
          total workers (λ j. passed job (update s.pc id p' j)) + passed job p
          ≡ left_behind job workers s + passed job p'
      change = total-update (passed job) workers s.pc id p' lt

-- What every step of a worker keeps, every schedule keeps.
pub run_keep {κ} :
    (job : Job) (workers : ℕ) (P : System → Type κ)
    → ((s : System) (id : ℕ) → id < workers → P s → P (turn job s id))
    → (ids : List ℕ) (s : System) → P s
    → P (run job workers s ids)
unfolding run
run_keep job workers P keep [] s h = h
run_keep job workers P keep (id ∷ ids) s h = elim (Bool-cases (ltb id workers)) [
  | inl e ↦
      rw e (run_keep job workers P keep ids (turn job s id) (keep s id (ltb→lt id workers e) h))
  | inr e ↦ rw e (run_keep job workers P keep ids s h)
]

-- A gang starts with no range left behind.
pub start-Inv :
    (job : Job) (workers : ℕ) (b : ℕ → ℕ)
    → 0 < job.size
    → ((u : ℕ) → u < job.size → b u ≤ job.e u)
    → Inv job workers b (start b)
unfolding start
start-Inv job workers b pos below = record {
  low = λ u h. omega arith;
  bound = λ u h. omega (arith, below u h);
  locals = λ id. pos;
  behind = λ id o h k. absurd (omega arith);
}
