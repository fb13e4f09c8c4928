-- ===== src/Gang/Atomic/Least.antt =====
-- `writeMin`: the cell ends at the least of its first value and the values that were offered.
use network_demo.Base.{
  ℕ, ◌≤◌, ◌<◌, ◌≡◌, ◌⊎◌, Option, List, refl, arith, sym, ◌==◌, ltb, Bool-cases, inl, inr,
  ℕ_discrete,
}
use mathlib.Core.Path.{subst}
use network_demo.Base.Family.{update_self, update_ne}
use network_demo.Gang.Atomic.{
  Pc, load, swap, returned, write_min, after_load, step, System, start, turn, run,
}
use network_demo.Gang.Atomic.Cell.{AllReturned, run_keep}

-- A call that is going to write offers less than it read; one that is back left no more than it
-- offered.
abbrev IsMin : ℕ → ℕ → Pc → Type 0
IsMin b m load = Unit {0}
IsMin b m (swap oldv newv) = (newv ≡ b) × (newv < oldv)
IsMin b m (returned r oldv) = m ≤ b

IsMin-mono : (b m m' : ℕ) (p : Pc) → m' ≤ m → IsMin b m p → IsMin b m' p
IsMin-mono b m m' load le h = tt
IsMin-mono b m m' (swap oldv newv) le h = h
IsMin-mono b m m' (returned r oldv) le h = omega arith

step-IsMin :
    (b m : ℕ) (p : Pc) → IsMin b m p → IsMin b (step (write_min b) m p).0 (step (write_min b) m p).1
unfolding step
step-IsMin b m load h = elim (Bool-cases (ltb b m)) [
  | inl e ↦ rw (after_load, e) (refl, ground arith)
  | inr e ↦ rw (after_load, e) (ground arith)
]
step-IsMin b m (swap oldv newv) h = elim (Bool-cases (m == oldv)) [
  | inl e ↦ rw e (omega (arith, h.0))
  | inr e ↦ rw e tt
]
step-IsMin b m (returned r oldv) h = h

-- A step leaves the cell alone or lowers it to what is offered.
step-lowers :
    (b m : ℕ) (p : Pc)
    → IsMin b m p
    → ((step (write_min b) m p).0 ≤ m)
      × (((step (write_min b) m p).0 ≡ m) ⊎ ((step (write_min b) m p).0 ≡ b))
unfolding step
step-lowers b m load h = (omega arith, inl refl)
step-lowers b m (swap oldv newv) h = elim (Bool-cases (m == oldv)) [
  | inl e ↦ let same : m ≡ oldv = ground arith in rw e (omega (arith, h.1, same), inr h.0)
  | inr e ↦ rw e (omega arith, inl refl)
]
step-lowers b m (returned r oldv) h = (omega arith, inl refl)

module _ (b : ℕ → ℕ) (threads cell : ℕ) where
  abbrev calls : ℕ → ℕ → Option ℕ
  calls id = write_min (b id)

  -- The value is the first one or one that was offered.
  abbrev pub Offered : ℕ → Type 0
  Offered m = (m ≡ cell) ⊎ ((id : ℕ) × (id < threads) × (m ≡ b id))

  abbrev Inv : System → Type 0
  Inv s = (s.cell ≤ cell) × Offered s.cell × ((id : ℕ) → IsMin (b id) s.cell (s.pc id))

  turn-Inv : (s : System) (id : ℕ) → id < threads → Inv s → Inv (turn calls s id)
  unfolding turn
  turn-Inv s id lt (below, offered, locals) =
      let p' : Pc = (step (calls id) s.cell (s.pc id)).1 in
      let (less, from) = step-lowers (b id) s.cell (s.pc id) (locals id) in
      (
        omega (arith, below, less),
        elim from [ inl same ↦ subst Offered (sym same) offered | inr new ↦ inr (id, lt, new) ],
        λ j. elim (ℕ_discrete j id) [
          | yes e ↦ rw (e, update_self s.pc id p') (step-IsMin (b id) s.cell (s.pc id) (locals id))
          | no ne ↦
              rw (update_ne s.pc id p' j ne) (IsMin-mono (b j) s.cell _ (s.pc j) less (locals j))
        ],
      )

  start-Inv : Inv (start cell)
  unfolding start
  start-Inv = (omega arith, inl refl, λ id. tt)

  -- When all threads are back, in whatever order they went, the cell holds the least of its first
  -- value and of all values offered.
  pub least :
      (ids : List ℕ)
      → AllReturned threads (run calls threads (start cell) ids)
      → Offered (run calls threads (start cell) ids).cell
        × ((run calls threads (start cell) ids).cell ≤ cell)
        × ((id : ℕ) → id < threads → (run calls threads (start cell) ids).cell ≤ b id)
  least ids done =
      let (below, offered, locals) =
        run_keep calls threads Inv turn-Inv ids (start cell) start-Inv in
      let s : System = run calls threads (start cell) ids in
      (
        offered,
        below,
        λ id lt. let (r, (oldv, back)) = done id lt in subst (IsMin (b id) s.cell) back (locals id),
      )
