-- ===== src/Gang/Barrier/Safety.antt =====
-- No thread leaves a wait before all have entered it.
use network_demo.Base.{ℕ, ◌≤◌, ◌<◌, suc, List, arith, ◌≡◌, zero, Bool, true, false, ◌==◌, refl}
use network_demo.Base.Family.{total, total-eq-zero}
use network_demo.Gang.Barrier.{
  idle, loaded, resetting, reading, storing, checking, waiting, Thread, at, entered_of, left_of,
  System, run, start,
}
use network_demo.Gang.Barrier.Invariant.{IsLocal, resets, stores, entered_now}
use network_demo.Gang.Barrier.Steps.{run-Inv, start-Inv}

left_le : (rounds gen : ℕ) (t : Thread) → IsLocal rounds gen t → left_of t ≤ rounds
left_le rounds gen (at idle e l) h = omega arith
left_le rounds gen (at (loaded ret) e l) h = omega arith
left_le rounds gen (at resetting e l) h = omega arith
left_le rounds gen (at reading e l) h = omega arith
left_le rounds gen (at (storing g) e l) h = omega arith
left_le rounds gen (at (checking state) e l) h = omega arith
left_le rounds gen (at (waiting state) e l) h = omega arith

entered_ge : (rounds gen : ℕ) (t : Thread) → IsLocal rounds gen t → rounds ≤ entered_of t
entered_ge rounds gen (at idle e l) h = omega arith
entered_ge rounds gen (at (loaded ret) e l) h = omega arith
entered_ge rounds gen (at resetting e l) h = omega arith
entered_ge rounds gen (at reading e l) h = omega arith
entered_ge rounds gen (at (storing g) e l) h = omega arith
entered_ge rounds gen (at (checking state) e l) h = omega arith
entered_ge rounds gen (at (waiting state) e l) h = omega arith

-- However the steps of `n` threads interleave, when one of them has left its `k`th wait, every one
-- has entered its `k`th wait, for a barrier of at most `BAR_OVERFLOW` threads, also when the number
-- of the generation has wrapped.
pub waits_for_all :
    (n : ℕ) (schedule : List ℕ) (i j : ℕ)
    → n ≤ 10000000
    → i < n
    → j < n
    → left_of ((run n (start n) schedule).thread i)
      ≤ entered_of ((run n (start n) schedule).thread j)
waits_for_all n schedule i j few lt below =
    let s = run n (start n) schedule in
    let (rounds, inv) = run-Inv n 0 (start n) schedule few (start-Inv n (omega arith)) in
    omega (
      arith,
      left_le rounds s.bar.generation (s.thread i) (inv.locals i lt),
      entered_ge rounds s.bar.generation (s.thread j) (inv.locals j below),
    )

-- A thread that the barrier holds back.
abbrev pub held_back : System → Thread → Bool
held_back s (at (waiting state) e l) = s.bar.generation == state
held_back s _ = false

held_back-counts :
    (rounds : ℕ) (s : System) (t : Thread)
    → IsLocal rounds s.bar.generation t
    → held_back s t ≡ true
    → (entered_now rounds t ≡ 1) × (resets t ≡ 0) × (stores t ≡ 0)
held_back-counts rounds s (at idle e l) h held = absurd (cc)
held_back-counts rounds s (at (loaded ret) e l) h held = absurd (cc)
held_back-counts rounds s (at resetting e l) h held = absurd (cc)
held_back-counts rounds s (at reading e l) h held = absurd (cc)
held_back-counts rounds s (at (storing g) e l) h held = absurd (cc)
held_back-counts rounds s (at (checking state) e l) h held = absurd (cc)
held_back-counts rounds s (at (waiting state) e l) h held = (ground arith, refl, refl)

total-ones : (n : ℕ) (w : ℕ → ℕ) → ((j : ℕ) → j < n → w j ≡ 1) → total n w ≡ n
unfolding total
total-ones zero w ones = refl
total-ones (suc n) w ones =
    omega (arith, ones n (omega arith), total-ones n w (λ j lt. ones j (omega arith)))

-- However the steps of `n` threads interleave, the barrier never holds back all of them at a time,
-- for at least one and at most `BAR_OVERFLOW` threads.
pub never_all_held_back :
    (n : ℕ) (schedule : List ℕ)
    → 0 < n
    → n ≤ 10000000
    → ¬ (
        (j : ℕ)
        → j < n
        → held_back (run n (start n) schedule) ((run n (start n) schedule).thread j) ≡ true)
never_all_held_back n schedule pos few all =
    let s = run n (start n) schedule in
    let (rounds, inv) = run-Inv n 0 (start n) schedule few (start-Inv n pos) in
    let counts : (j : ℕ)
        → j < n
        → (entered_now rounds (s.thread j) ≡ 1)
          × (resets (s.thread j) ≡ 0)
          × (stores (s.thread j) ≡ 0) =
      λ j lt. held_back-counts rounds s (s.thread j) (inv.locals j lt) (all j lt) in
    let i = total-ones n (λ j. entered_now rounds (s.thread j)) (λ j lt. (counts j lt).0) in
    let r = total-eq-zero n (λ j. resets (s.thread j)) (λ j lt. (counts j lt).1) in
    let u = total-eq-zero n (λ j. stores (s.thread j)) (λ j lt. (counts j lt).2) in
    ground (arith, i, r, u, inv.phase)
