-- ===== src/Gang/Barrier/Steps.antt =====
-- Every step of a thread keeps what holds of a barrier.
use network_demo.Base.{
  ℕ, suc, ◌+◌, ◌-◌, ◌*◌, ◌/◌, ◌%◌, ◌^◌, ◌≤◌, ◌<◌, ◌≡◌, ◌≢◌, inl, inr, refl, ltb, ◌==◌, arith,
  Bool-cases, ℕ_discrete, ap, List, [], ◌∷◌, ltb→lt,
}
use mathlib.Core.Path.{subst}
use network_demo.Base.Family.{
  update, update_self, update_ne, total, total-eq-zero, le-total, total-full, two-total,
}
use network_demo.Gang.Barrier.{
  Barrier, idle, loaded, resetting, reading, storing, checking, waiting, Thread, at, bar_overflow,
  step, System, placed, turn, run, start, ab_barrier_init,
}
use network_demo.Gang.Barrier.Invariant.{
  resets, stores, entered_now, IsLocal, Inv, entered_now_le, total-placed, placed-Inv,
}

-- A thread that has entered, and is not one of the last, when another one stores.
store-IsLocal :
    (rounds gen : ℕ) (t : Thread)
    → gen < 2 ^ 32
    → IsLocal rounds gen t
    → entered_now rounds t ≡ 1
    → resets t ≡ 0
    → stores t ≡ 0
    → IsLocal (suc rounds) ((gen + 512) % 2 ^ 32) t
store-IsLocal rounds gen (at idle e l) word h in_ r u = absurd (omega arith)
store-IsLocal rounds gen (at (loaded ret) e l) word h in_ r u = absurd (omega arith)
store-IsLocal rounds gen (at resetting e l) word h in_ r u = absurd (omega arith)
store-IsLocal rounds gen (at reading e l) word h in_ r u = absurd (omega arith)
store-IsLocal rounds gen (at (storing g) e l) word h in_ r u = absurd (omega arith)
store-IsLocal rounds gen (at (checking state) e l) word h in_ r u = ground arith
store-IsLocal rounds gen (at (waiting state) e l) word h in_ r u = ground arith

module _ {n rounds : ℕ} {s : System} (id : ℕ) (lt : id < n) (inv : Inv n rounds s) (g e l : ℕ)
    (here : s.thread id ≡ at (storing g) e l) where
  phase_at_store :
      (s.bar.awaited ≡ n)
      × (total n (λ j. entered_now rounds (s.thread j)) ≡ n)
      × (total n (λ j. resets (s.thread j)) ≡ 0)
      × (total n (λ j. stores (s.thread j)) ≡ 1)
  phase_at_store =
      let mine : stores (s.thread id) ≡ 1 = rw here refl in
      let part = le-total n (λ j. stores (s.thread j)) id lt in
      ground (arith, mine, part, inv.phase)

  all_entered : (j : ℕ) → j < n → entered_now rounds (s.thread j) ≡ 1
  all_entered =
      total-full n (λ j. entered_now rounds (s.thread j))
        (λ j below. entered_now_le rounds s.bar.generation (s.thread j) (inv.locals j below))
        phase_at_store.1

  stored : Thread
  stored = at idle e (suc l)

  mine : (e ≡ suc rounds) × (l ≡ rounds) × (g ≡ s.bar.generation)
  mine = subst (λ t. IsLocal rounds s.bar.generation t) here (inv.locals id lt)

  other_moved :
      (j : ℕ)
      → j < n
      → j ≢ id
      → IsLocal (suc rounds) ((s.bar.generation + 512) % 2 ^ 32) (s.thread j)
  other_moved j below ne =
      let (free, full, none_resets, one_stores) = phase_at_store in
      let mine1 : stores (s.thread id) ≡ 1 = rw here refl in
      store-IsLocal rounds s.bar.generation (s.thread j) inv.word (inv.locals j below)
        (all_entered j below)
        (omega (arith, none_resets, le-total n (λ k. resets (s.thread k)) j below))
        (omega (arith, one_stores, mine1, two-total n (λ k. stores (s.thread k)) id j lt below ne))

  moved : (j : ℕ) → j < n → IsLocal (suc rounds) ((g + 512) % 2 ^ 32) (update s.thread id stored j)
  unfolding stored
  moved j below =
      let next : (g + 512) % 2 ^ 32 ≡ (s.bar.generation + 512) % 2 ^ 32 =
        ap (λ x. (x + 512) % 2 ^ 32) mine.2 in
      rw next (elim (ℕ_discrete j id) [
        | yes same ↦ rw (same, update_self s.thread id stored) (mine.0, ap suc mine.1)
        | no ne ↦ rw (update_ne s.thread id stored j ne) (other_moved j below ne)
      ])

  nobody_entered : (j : ℕ) → j < n → entered_now (suc rounds) (update s.thread id stored j) ≡ 0
  unfolding stored
  nobody_entered j below = elim (ℕ_discrete j id) [
    | yes same ↦ rw (same, update_self s.thread id stored) (omega (arith, mine.0))
    | no ne ↦ rw (update_ne s.thread id stored j ne) (omega (arith, all_entered j below))
  ]

  store-Inv : Inv n (suc rounds) (placed s id (step s.bar (at (storing g) e l)))
  unfolding placed step stored
  store-Inv =
      let (free, full, none_resets, one_stores) = phase_at_store in
      let b : Barrier = record s.bar { generation = (g + 512) % 2 ^ 32 } in
      let r = total-placed id b (at (storing g) e l) stored lt inv here (λ x. resets x) in
      let u = total-placed id b (at (storing g) e l) stored lt inv here (λ x. stores x) in
      let i =
        total-eq-zero n (λ j. entered_now (suc rounds) (update s.thread id stored j))
          nobody_entered in
      record {
        size = inv.size;
        aligned = omega (arith, inv.aligned, mine.2);
        word = omega arith;
        locals = moved;
        phase = inl (
          omega (arith, free, i),
          omega (arith, free, lt),
          omega (arith, none_resets, one_stores, r, u),
        );
      }

-- A step goes on with the same rounds, or with one more.
module _ {n rounds : ℕ} {s : System} (id : ℕ) (lt : id < n) (few : n ≤ 10000000)
    (inv : Inv n rounds s) where
  step-Inv :
      (t : Thread)
      → s.thread id ≡ t
      → IsLocal rounds s.bar.generation t
      → (rounds' : ℕ) × Inv n rounds' (placed s id (step s.bar t))
  unfolding step
  step-Inv (at idle e l) here h = (
    rounds,
    placed-Inv id s.bar (at idle e l) (at (loaded (s.bar.generation / 512 * 512)) e l) lt inv here
        refl refl (h.0, h.1, omega (arith, inv.aligned))
        (λ i r u le a b c. ground (arith, inv.phase)),
  )
  step-Inv (at (loaded ret) e l) here h =
      let awaited = (s.bar.awaited + 2 ^ 32 - 1) % 2 ^ 32 in
      elim (Bool-cases (awaited == 0)) [
        | inl last ↦
            rw (step, last)
              (
                rounds,
                placed-Inv id (record s.bar { awaited = awaited }) (at (loaded ret) e l)
                    (at resetting (suc e) l) lt inv here refl refl (omega arith, h.1)
                    (λ i r u le a b c. ground (arith, inv.phase, h.0)),
              )
        | inr more ↦
            rw (step, more)
              (
                rounds,
                placed-Inv id (record s.bar { awaited = awaited }) (at (loaded ret) e l)
                    (at (checking ret) (suc e) l) lt inv here refl refl
                    (inl (omega arith, h.1, h.2))
                    (λ i r u le a b c. ground (arith, inv.phase, h.0)),
              )
      ]
  step-Inv (at resetting e l) here h = (
    rounds,
    placed-Inv id (record s.bar { awaited = s.bar.bar_total }) (at resetting e l) (at reading e l)
        lt inv here refl refl h (λ i r u le a b c. ground (arith, inv.phase, inv.size)),
  )
  step-Inv (at reading e l) here h = (
    rounds,
    placed-Inv id s.bar (at reading e l) (at (storing s.bar.generation) e l) lt inv here refl refl
        (h.0, h.1, refl) (λ i r u le a b c. ground (arith, inv.phase)),
  )
  step-Inv (at (storing g) e l) here h = (suc rounds, store-Inv id lt inv g e l here)
  step-Inv (at (checking state) e l) here h = elim (Bool-cases (ltb bar_overflow s.bar.awaited)) [
    | inl over ↦ absurd (ground (arith, inv.phase))
    | inr fits ↦
        rw (step, fits)
          (
            rounds,
            placed-Inv id s.bar (at (checking state) e l) (at (waiting state) e l) lt inv here refl
                refl h (λ i r u le a b c. ground (arith, inv.phase)),
          )
  ]
  step-Inv (at (waiting state) e l) here h = elim (Bool-cases (s.bar.generation == state)) [
    | inl same ↦
        rw (step, same)
          (
            rounds,
            placed-Inv id s.bar (at (waiting state) e l) (at (waiting state) e l) lt inv here refl
                refl h (λ i r u le a b c. ground (arith, inv.phase)),
          )
    | inr moved ↦
        rw (step, moved)
          (
            rounds,
            placed-Inv id s.bar (at (waiting state) e l) (at idle e (suc l)) lt inv here refl refl
                (ground arith) (λ i r u le a b c. ground (arith, inv.phase)),
          )
  ]

pub turn-Inv :
    {n rounds : ℕ} {s : System} (id : ℕ)
    → id < n
    → n ≤ 10000000
    → Inv n rounds s
    → (rounds' : ℕ) × Inv n rounds' (turn s id)
unfolding turn
turn-Inv {s = s} id lt few inv = step-Inv id lt few inv (s.thread id) refl (inv.locals id lt)

pub run-Inv :
    (n rounds : ℕ) (s : System) (schedule : List ℕ)
    → n ≤ 10000000
    → Inv n rounds s
    → (rounds' : ℕ) × Inv n rounds' (run n s schedule)
unfolding run
run-Inv n rounds s [] few inv = (rounds, inv)
run-Inv n rounds s (id ∷ schedule) few inv = elim (Bool-cases (ltb id n)) [
  | inl e ↦
      let (rounds', inv') = turn-Inv id (ltb→lt id n e) few inv in
      rw (run, e) (run-Inv n rounds' (turn s id) schedule few inv')
  | inr e ↦ rw (run, e) (run-Inv n rounds s schedule few inv)
]

pub start-Inv : (n : ℕ) → 0 < n → Inv n 0 (start n)
unfolding start ab_barrier_init
start-Inv n pos =
    let i = total-eq-zero n (λ j. 0) (λ j lt. refl) in
    record {
      size = refl;
      aligned = refl;
      word = omega arith;
      locals = λ id lt. (refl, refl);
      phase = inl (omega (arith, i), pos, omega (arith, i));
    }
