-- ===== src/Gang/Atomic/Cell.antt =====
-- What every step of a thread keeps, every schedule keeps.
use network_demo.Base.{ℕ, Bool, ◌<◌, ◌≡◌, List, [], ◌∷◌, Bool-cases, inl, inr, ltb, ltb→lt}
use network_demo.Gang.Atomic.{Attempt, returned, System, turn, run}

-- All threads are back from their calls.
abbrev pub AllReturned : ℕ → System → Type 0
AllReturned threads s =
    (id : ℕ) → id < threads → (r : Bool) × ((oldv : ℕ) × (s.pc id ≡ returned r oldv))

pub run_keep {κ} :
    (calls : ℕ → Attempt) (threads : ℕ) (P : System → Type κ)
    → ((s : System) (id : ℕ) → id < threads → P s → P (turn calls s id))
    → (ids : List ℕ) (s : System) → P s
    → P (run calls threads s ids)
unfolding run
run_keep calls threads P keep [] s h = h
run_keep calls threads P keep (id ∷ ids) s h = elim (Bool-cases (ltb id threads)) [
  | inl e ↦
      rw e (run_keep calls threads P keep ids (turn calls s id) (keep s id (ltb→lt id threads e) h))
  | inr e ↦ rw e (run_keep calls threads P keep ids s h)
]
