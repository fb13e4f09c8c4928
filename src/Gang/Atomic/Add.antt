-- ===== src/Gang/Atomic/Add.antt =====
-- `writeAdd` and `fetchAdd`: no addition is lost.
use network_demo.Base.{
  ℕ, ◌+◌, ◌%◌, ◌^◌, ◌<◌, ◌≡◌, Option, List, refl, arith, ap, sym, ◌∙◌, ◌==◌, Bool-cases, inl, inr,
  ℕ_discrete,
}
use native.Mathlib.Nat.{mod-eq_of_lt, mod-lt, mod-add-mod, one-le-pow}
use network_demo.Base.Family.{
  update, update_self, update_ne, total, total_change, total_same, total-eq-zero,
}
use network_demo.Gang.Atomic.{Pc, load, swap, returned, write_add, step, System, start, turn, run}
use network_demo.Gang.Atomic.Cell.{AllReturned, run_keep}

-- What a call has added to the cell.
abbrev pub added : ℕ → Pc → ℕ
added b (returned r oldv) = b
added b _ = 0

-- The new value of a call is that of its old value.
abbrev IsAdd : ℕ → ℕ → Pc → Type 0
IsAdd w b (swap oldv newv) = newv ≡ (oldv + b) % 2 ^ w
IsAdd w b _ = Unit {0}

step-IsAdd : (w b m : ℕ) (p : Pc) → IsAdd w b p → IsAdd w b (step (write_add w b) m p).1
unfolding step
step-IsAdd w b m load h = refl
step-IsAdd w b m (swap oldv newv) h = ground arith
step-IsAdd w b m (returned r oldv) h = h

step-adds :
    (w b m : ℕ) (p : Pc)
    → m < 2 ^ w
    → IsAdd w b p
    → (d : ℕ) × (added b (step (write_add w b) m p).1 ≡ added b p + d)
      × ((step (write_add w b) m p).0 ≡ (m + d) % 2 ^ w)
unfolding step
step-adds w b m load small h =
    let same : m + 0 ≡ m = omega arith in (0, refl, rw same (sym (mod-eq_of_lt small)))
step-adds w b m (swap oldv newv) small h = elim (Bool-cases (m == oldv)) [
  | inl e ↦ let same : m ≡ oldv = ground arith in rw e (b, omega arith, rw same h)
  | inr e ↦ let same : m + 0 ≡ m = omega arith in rw e (0, refl, rw same (sym (mod-eq_of_lt small)))
]
step-adds w b m (returned r oldv) small h =
    let same : m + 0 ≡ m = omega arith in (0, omega arith, rw same (sym (mod-eq_of_lt small)))

module _ (w : ℕ) (b : ℕ → ℕ) (threads cell : ℕ) (small : cell < 2 ^ w) where
  abbrev calls : ℕ → ℕ → Option ℕ
  calls id = write_add w (b id)

  abbrev sum : System → ℕ
  sum s = total threads (λ id. added (b id) (s.pc id))

  abbrev Inv : System → Type 0
  Inv s = (s.cell ≡ (cell + sum s) % 2 ^ w) × ((id : ℕ) → IsAdd w (b id) (s.pc id))

  turn-Inv : (s : System) (id : ℕ) → id < threads → Inv s → Inv (turn calls s id)
  unfolding turn
  turn-Inv s id lt (value, locals) =
      let p' : Pc = (step (calls id) s.cell (s.pc id)).1 in
      let bound : s.cell < 2 ^ w =
        rw value (mod-lt (cell + sum s) (one-le-pow w 2 (omega arith))) in
      let (d, more, next) = step-adds w (b id) s.cell (s.pc id) bound (locals id) in
      let change =
        total_change threads (λ j. added (b j) (update s.pc id p' j)) (λ j. added (b j) (s.pc j)) id
          lt (λ j ne. ap (added (b j)) (update_ne s.pc id p' j ne)) in
      let here : added (b id) (update s.pc id p' id) ≡ added (b id) p' =
        ap (added (b id)) (update_self s.pc id p') in
      let all : sum s + d ≡ total threads (λ j. added (b j) (update s.pc id p' j)) =
        omega (arith, change, here, more) in
      let regroup : cell + sum s + d ≡ cell + (sum s + d) = omega arith in
      (
        next
            ∙ ap (λ m. (m + d) % 2 ^ w) value
            ∙ mod-add-mod (cell + sum s) (2 ^ w) d
            ∙ ap (λ m. m % 2 ^ w) (regroup ∙ ap (λ m. cell + m) all),
        λ j. elim (ℕ_discrete j id) [
          | yes e ↦
              rw (e, update_self s.pc id p') (step-IsAdd w (b id) s.cell (s.pc id) (locals id))
          | no ne ↦ rw (update_ne s.pc id p' j ne) (locals j)
        ],
      )

  start-Inv : Inv (start cell)
  unfolding start
  start-Inv =
      let none_yet : total threads (λ id. 0) ≡ 0 =
        total-eq-zero threads (λ id. 0) (λ id lt. refl) in
      let same : cell + 0 ≡ cell = omega arith in
      (rw (none_yet, same) (sym (mod-eq_of_lt small)), λ id. tt)

  -- When all threads are back, in whatever order they went, the cell holds the sum of its first
  -- value and all that was to be added, modulo the size of the type.
  pub all_added :
      (ids : List ℕ)
      → AllReturned threads (run calls threads (start cell) ids)
      → (run calls threads (start cell) ids).cell ≡ (cell + total threads b) % 2 ^ w
  all_added ids done =
      let (value, locals) = run_keep calls threads Inv turn-Inv ids (start cell) start-Inv in
      let s : System = run calls threads (start cell) ids in
      let all : sum s ≡ total threads b =
        total_same threads (λ id. added (b id) (s.pc id)) b
          λ id lt. let (r, (oldv, back)) = done id lt in rw back refl in
      value ∙ ap (λ m. (cell + m) % 2 ^ w) all
