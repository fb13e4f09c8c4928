-- ===== src/Gang/Atomic.antt =====
-- The compare-and-swap helpers of utils/Gang.h: `writeCond` with `write`, `writeMin` and
-- `writeMax`, `writeAdd` and `fetchAdd`. Several threads call them on one cell. One step is one
-- load or one `CAS` of the cell; what is computed between them is local.
pub mod Cell
pub mod Add
pub mod Least
pub mod Progress
mod Tests
use network_demo.Base.{
  ℕ, zero, suc, ◌+◌, ◌%◌, ◌^◌, Bool, true, false, Option, none, some, List, [], ◌∷◌, ltb, ◌==◌,
  if◌then◌else◌,
}
use network_demo.Base.Family.{update}

-- The new value that a call computes from the old one; `none` if its condition fails.
abbrev pub Attempt : Type 0
Attempt = ℕ → Option ℕ

-- `writeCond(t, newv, f)`
abbrev pub write_cond : ℕ → (ℕ → ℕ → Bool) → Attempt
write_cond newv f oldv = if f oldv newv then some newv else none

abbrev pub write : ℕ → Attempt
write b = write_cond b (λ oldv newv. true)

-- `std::greater`
abbrev pub write_min : ℕ → Attempt
write_min b = write_cond b (λ oldv newv. ltb newv oldv)

-- `std::less`
abbrev pub write_max : ℕ → Attempt
write_max b = write_cond b (λ oldv newv. ltb oldv newv)

-- `writeAdd` and `fetchAdd` at a type of `w` bits.
abbrev pub write_add : ℕ → ℕ → Attempt
write_add w b oldv = some ((oldv + b) % 2 ^ w)

-- Where a call stands: at `oldv = *t`, at the `CAS`, or back with `r` and `oldv`.
pub data Pc : Type 0 where
  load : Pc
  swap : (oldv newv : ℕ) → Pc
  returned : (r : Bool) (oldv : ℕ) → Pc

-- Where a call goes from its load of `oldv`.
pub after_load : ℕ → Option ℕ → Pc
after_load oldv none = returned false oldv
after_load oldv (some newv) = swap oldv newv

-- One step of a call, from the value of the cell.
pub step : Attempt → ℕ → Pc → ℕ × Pc
unfolding after_load
step attempt cell load = (cell, after_load cell (attempt cell))
step attempt cell (swap oldv newv) =
    if cell == oldv then (newv, returned true oldv) else (cell, load)
step attempt cell (returned r oldv) = (cell, returned r oldv)

pub record System : Type 0 where
  pub cell : ℕ
  pub pc : ℕ → Pc

pub start : ℕ → System
start cell = record { cell = cell; pc = λ _. load }

-- `calls` has the call of each thread.
pub turn : (ℕ → Attempt) → System → ℕ → System
unfolding step
turn calls s id =
    let (cell, p) = step (calls id) s.cell (s.pc id) in
    record { cell = cell; pc = update s.pc id p }

-- A schedule names the thread of each step.
pub run : (ℕ → Attempt) → ℕ → System → List ℕ → System
unfolding turn
run calls threads s [] = s
run calls threads s (id ∷ ids) =
    run calls threads (if ltb id threads then turn calls s id else s) ids
