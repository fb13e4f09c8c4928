-- ===== src/Gang/Atomic/Progress.antt =====
-- The retry loops end: a failed `CAS` costs steps that a successful one of another thread has paid.
use network_demo.Base.{
  ℕ, zero, suc, ◌+◌, ◌*◌, ◌≤◌, ◌<◌, ◌≡◌, ◌⊎◌, Bool, List, [], ◌∷◌, length, refl, arith, ap, ◌∙◌,
  ◌==◌, if◌then◌else◌, Bool-cases, inl, inr, dec_lt, lt→ltb, Option-cases,
}
use network_demo.Base.Order.{mul_mono, suc_mul}
use network_demo.Base.Family.{update, total, total-update, total-le}
use network_demo.Gang.Atomic.{
  Attempt, Pc, load, swap, returned, after_load, step, System, start, turn, run,
}
use network_demo.Gang.Atomic.Cell.{AllReturned}

abbrev pub live : Pc → ℕ
live (returned r oldv) = 0
live _ = 1

abbrev weight : ℕ → Pc → ℕ
weight cell load = 2
weight cell (swap oldv newv) = if cell == oldv then 1 else 3
weight cell (returned r oldv) = 0

weight-le : (cell : ℕ) (p : Pc) → weight cell p ≤ 3
weight-le cell load = omega arith
weight-le cell (swap oldv newv) = ground arith
weight-le cell (returned r oldv) = omega arith

abbrev measure : ℕ → System → ℕ
measure threads s =
    total threads (λ id. live (s.pc id)) * (3 * threads + 1)
    + total threads (λ id. weight s.cell (s.pc id))

-- A step changes the cell and returns, or it leaves the cell and comes nearer to its end.
step_nearer :
    (attempt : Attempt) (m : ℕ) (p : Pc)
    → live p ≡ 1
    → (live (step attempt m p).1 ≡ 0)
      ⊎ (((step attempt m p).0 ≡ m)
          × (live (step attempt m p).1 ≡ 1)
          × (weight m (step attempt m p).1 < weight m p))
unfolding step
step_nearer attempt m load h = elim (Option-cases (attempt m)) [
  | inl e ↦ rw (after_load, e) (inl refl)
  | inr (newv, e) ↦ rw (after_load, e) (inr (refl, refl, ground arith))
]
step_nearer attempt m (swap oldv newv) h = elim (Bool-cases (m == oldv)) [
  | inl e ↦ rw e (inl refl)
  | inr e ↦ rw e (inr (refl, refl, omega arith))
]
step_nearer attempt m (returned r oldv) h = absurd (omega arith)

find_live :
    (threads : ℕ) (s : System)
    → AllReturned threads s ⊎ ((id : ℕ) × (id < threads) × (live (s.pc id) ≡ 1))
find_live zero s = inl (λ id lt. absurd (omega arith))
find_live (suc n) s = elim (returned_or_live (s.pc n)) [
  | inr busy ↦ inr (n, omega arith, busy)
  | inl done ↦ elim (find_live n s) [
    | inr (id, lt, busy) ↦ inr (id, omega arith, busy)
    | inl all ↦ inl λ id lt. elim (dec_lt id n) [
      | yes below ↦ all id below
      | no top ↦ let e : id ≡ n = omega arith in rw e done
    ]
  ]
]
  where
    returned_or_live : (p : Pc) → ((r : Bool) × ((oldv : ℕ) × (p ≡ returned r oldv))) ⊎ (live p ≡ 1)
    returned_or_live load = inr refl
    returned_or_live (swap oldv newv) = inr refl
    returned_or_live (returned r oldv) = inl (r, (oldv, refl))

module _ (calls : ℕ → Attempt) (threads : ℕ) where
  turn_uses_up :
      (s : System) (id : ℕ)
      → id < threads
      → live (s.pc id) ≡ 1
      → measure threads (turn calls s id) < measure threads s
  unfolding turn
  turn_uses_up s id lt busy =
      let p' : Pc = (step (calls id) s.cell (s.pc id)).1 in
      let lives = total-update live threads s.pc id p' lt in
      elim (step_nearer (calls id) s.cell (s.pc id) busy) [
        | inl done ↦
            let light =
              total-le threads 3
                (λ j. weight (step (calls id) s.cell (s.pc id)).0 (update s.pc id p' j))
                (λ j below. weight-le _ (update s.pc id p' j)) in
            let fewer : total threads (λ j. live (s.pc j))
                ≡ suc (total threads (λ j. live (update s.pc id p' j))) =
              omega (arith, lives, done, busy) in
            let product = ap (λ l. l * (3 * threads + 1)) fewer ∙ suc_mul _ (3 * threads + 1) in
            omega (arith, product, light)
        | inr (same, still, less) ↦
            let weights = total-update (weight s.cell) threads s.pc id p' lt in
            let as_many : total threads (λ j. live (update s.pc id p' j))
                ≡ total threads (λ j. live (s.pc j)) =
              omega (arith, lives, still, busy) in
            let product = ap (λ l. l * (3 * threads + 1)) as_many in
            rw same (omega (arith, product, weights, less))
      ]

  -- Every step of the schedule is one of a thread that is not back.
  abbrev pub IsBusy : System → List ℕ → Type 0
  IsBusy s [] = Unit {0}
  IsBusy s (id ∷ ids) = (id < threads) × (live (s.pc id) ≡ 1) × IsBusy (turn calls s id) ids

  run_uses_up :
      (ids : List ℕ) (s : System)
      → IsBusy s ids
      → length ids + measure threads (run calls threads s ids) ≤ measure threads s
  unfolding run
  run_uses_up [] s busy = omega arith
  run_uses_up (id ∷ ids) s (lt, here, rest) =
      rw (run, lt→ltb id threads lt)
        (omega (arith, turn_uses_up s id lt here, run_uses_up ids (turn calls s id) rest))

  -- However the threads interleave, they take at most `3 * threads * (threads + 1)` steps in all,
  -- and as long as one is not back it can take one: so all calls return.
  pub progress :
      (cell : ℕ) (ids : List ℕ)
      → IsBusy (start cell) ids
      → (length ids ≤ 3 * (threads * (threads + 1)))
        × (AllReturned threads (run calls threads (start cell) ids)
            ⊎ ((id : ℕ) × (id < threads) × (live ((run calls threads (start cell) ids).pc id) ≡ 1)))
  unfolding start
  progress cell ids busy =
      let lives = total-le threads 1 (λ id. 1) (λ id lt. omega arith) in
      let weights = total-le threads 2 (λ id. 2) (λ id lt. omega arith) in
      let product = mul_mono (3 * threads + 1) lives in
      let all = run_uses_up ids (start cell) busy in
      (grind (arith, product, weights, all), find_live threads (run calls threads (start cell) ids))
