-- ===== src/Gang/Barrier/Invariant.antt =====
-- What holds of a barrier and its threads between any two steps.
use network_demo.Base.{
  ℕ, suc, ◌+◌, ◌-◌, ◌%◌, ◌^◌, ◌≤◌, ◌<◌, ◌≡◌, ◌≢◌, ◌⊎◌, arith, ℕ_discrete, ◌∙◌, ap, sym,
}
use network_demo.Base.Family.{update, update_self, update_ne, total, total-update, total-le}
use network_demo.Gang.Barrier.{
  Barrier, idle, loaded, resetting, reading, storing, checking, waiting, Thread, at, entered_of,
  System, placed,
}

-- How many of a thread stand for the last one in front of its reset, and in front of its store.
abbrev pub resets : Thread → ℕ
resets (at resetting e l) = 1
resets _ = 0

abbrev pub stores : Thread → ℕ
stores (at reading e l) = 1
stores (at (storing g) e l) = 1
stores _ = 0

-- Whether a thread has entered the wait after the first `rounds`.
abbrev pub entered_now : ℕ → Thread → ℕ
entered_now rounds t = entered_of t - rounds

-- A thread in a barrier that has been passed `rounds` times and shows `gen`.
abbrev pub IsLocal : ℕ → ℕ → Thread → Type 0
IsLocal rounds gen (at idle e l) = (e ≡ rounds) × (l ≡ rounds)
IsLocal rounds gen (at (loaded ret) e l) = (e ≡ rounds) × (l ≡ rounds) × (ret ≡ gen)
IsLocal rounds gen (at resetting e l) = (e ≡ suc rounds) × (l ≡ rounds)
IsLocal rounds gen (at reading e l) = (e ≡ suc rounds) × (l ≡ rounds)
IsLocal rounds gen (at (storing g) e l) = (e ≡ suc rounds) × (l ≡ rounds) × (g ≡ gen)
IsLocal rounds gen (at (checking state) e l) =
    ((e ≡ suc rounds) × (l ≡ rounds) × (state ≡ gen))
    ⊎ ((e ≡ rounds) × (suc l ≡ rounds) × (state ≢ gen))
IsLocal rounds gen (at (waiting state) e l) =
    ((e ≡ suc rounds) × (l ≡ rounds) × (state ≡ gen))
    ⊎ ((e ≡ rounds) × (suc l ≡ rounds) × (state ≢ gen))

-- `inside` threads have entered: not yet all, or all with the last in front of its reset or store.
abbrev pub Phase : (n awaited inside resetting_ storing_ : ℕ) → Type 0
Phase n awaited inside resetting_ storing_ =
    ((awaited + inside ≡ n) × (0 < awaited) × (resetting_ + storing_ ≡ 0))
    ⊎ ((awaited ≡ 0) × (inside ≡ n) × (resetting_ ≡ 1) × (storing_ ≡ 0))
    ⊎ ((awaited ≡ n) × (inside ≡ n) × (resetting_ ≡ 0) × (storing_ ≡ 1))

pub record Inv (n rounds : ℕ) (s : System) : Type 0 where
  pub size : s.bar.bar_total ≡ n
  pub aligned : s.bar.generation % 512 ≡ 0
  pub word : s.bar.generation < 2 ^ 32
  pub locals : (id : ℕ) → id < n → IsLocal rounds s.bar.generation (s.thread id)
  pub phase :
      Phase n s.bar.awaited
        (total n (λ id. entered_now rounds (s.thread id)))
        (total n (λ id. resets (s.thread id)))
        (total n (λ id. stores (s.thread id)))

pub entered_now_le : (rounds gen : ℕ) (t : Thread) → IsLocal rounds gen t → entered_now rounds t ≤ 1
entered_now_le rounds gen (at idle e l) h = omega arith
entered_now_le rounds gen (at (loaded ret) e l) h = omega arith
entered_now_le rounds gen (at resetting e l) h = omega arith
entered_now_le rounds gen (at reading e l) h = omega arith
entered_now_le rounds gen (at (storing g) e l) h = omega arith
entered_now_le rounds gen (at (checking state) e l) h = omega arith
entered_now_le rounds gen (at (waiting state) e l) h = omega arith

module _ {n rounds : ℕ} {s : System} (id : ℕ) (b : Barrier) (t t' : Thread) (lt : id < n)
    (inv : Inv n rounds s) (here : s.thread id ≡ t) where
  pub total-placed :
      (w : Thread → ℕ)
      → total n (λ j. w (update s.thread id t' j)) + w t ≡ total n (λ j. w (s.thread j)) + w t'
  total-placed w =
      sym (ap (λ x. total n (λ j. w (update s.thread id t' j)) + w x) here)
      ∙ total-update w n s.thread id t' lt

  -- A step after which the barrier shows the same generation.
  pub placed-Inv :
      b.bar_total ≡ s.bar.bar_total
      → b.generation ≡ s.bar.generation
      → IsLocal rounds s.bar.generation t'
      → ((i r u : ℕ)
          → i ≤ n
          → i + entered_now rounds t
            ≡ total n (λ j. entered_now rounds (s.thread j)) + entered_now rounds t'
          → r + resets t ≡ total n (λ j. resets (s.thread j)) + resets t'
          → u + stores t ≡ total n (λ j. stores (s.thread j)) + stores t'
          → Phase n b.awaited i r u)
      → Inv n rounds (placed s id (b, t'))
  unfolding placed
  placed-Inv size same local phase =
      let moved : (j : ℕ) → j < n → IsLocal rounds b.generation (update s.thread id t' j) =
        λ j below. rw same (elim (ℕ_discrete j id) [
          | yes e ↦ rw (e, update_self s.thread id t') local
          | no ne ↦ rw (update_ne s.thread id t' j ne) (inv.locals j below)
        ]) in
      let few =
        total-le n 1 (λ j. entered_now rounds (update s.thread id t' j))
          (λ j below.
            entered_now_le rounds b.generation (update s.thread id t' j) (moved j below)) in
      record {
        size = size ∙ inv.size;
        aligned = rw same inv.aligned;
        word = rw same inv.word;
        locals = moved;
        phase =
            phase (total n (λ j. entered_now rounds (update s.thread id t' j)))
              (total n (λ j. resets (update s.thread id t' j)))
              (total n (λ j. stores (update s.thread id t' j))) (omega (arith, few))
              (total-placed (λ x. entered_now rounds x)) (total-placed (λ x. resets x))
              (total-placed (λ x. stores x));
      }
