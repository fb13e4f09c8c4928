-- ===== src/Gang/Atomic/Tests.antt =====
-- Two threads that update one cell; the second one's first `CAS` fails.
use network_demo.Base.{
  ℕ, zero, suc, ◌+◌, ◌*◌, ◌%◌, ◌^◌, ◌≤◌, ◌<◌, ◌≡◌, ◌⊎◌, true, List, [], ◌∷◌, length, refl, arith,
}
use network_demo.Base.Family.{total}
use network_demo.Gang.Atomic.{write_add, write_min, after_load, step, start, turn, run}
use network_demo.Gang.Atomic.Cell.{AllReturned}
use network_demo.Gang.Atomic.Add.{all_added}
use network_demo.Gang.Atomic.Least.{Offered, least}
use network_demo.Gang.Atomic.Progress.{live, IsBusy, progress}

abbrev offers : ℕ → ℕ
offers zero = 5
offers (suc id) = 3

abbrev schedule : List ℕ
schedule = 0 ∷ 1 ∷ 0 ∷ 1 ∷ 1 ∷ 1 ∷ []

abbrev summands : ℕ → ℕ
summands id = 200

adds-AllReturned : AllReturned 2 (run (λ id. write_add 8 (summands id)) 2 (start 100) schedule)
unfolding run turn step start after_load
adds-AllReturned zero lt = (true, (100, refl))
adds-AllReturned (suc zero) lt = (true, (44, refl))
adds-AllReturned (suc (suc id)) lt = absurd (omega arith)

all_added_example :
    (run (λ id. write_add 8 (summands id)) 2 (start 100) schedule).cell
    ≡ (100 + total 2 summands) % 2 ^ 8
all_added_example = all_added 8 summands 2 100 (omega arith) schedule adds-AllReturned

mins-AllReturned : AllReturned 2 (run (λ id. write_min (offers id)) 2 (start 9) schedule)
unfolding run turn step start after_load
mins-AllReturned zero lt = (true, (9, refl))
mins-AllReturned (suc zero) lt = (true, (5, refl))
mins-AllReturned (suc (suc id)) lt = absurd (omega arith)

least_example :
    Offered offers 2 9 (run (λ id. write_min (offers id)) 2 (start 9) schedule).cell
    × ((run (λ id. write_min (offers id)) 2 (start 9) schedule).cell ≤ 9)
    × ((id : ℕ)
        → id < 2
        → (run (λ id. write_min (offers id)) 2 (start 9) schedule).cell ≤ offers id)
least_example = least offers 2 9 schedule mins-AllReturned

schedule-IsBusy : IsBusy (λ id. write_min (offers id)) 2 (start 9) schedule
unfolding turn step start after_load
schedule-IsBusy = (
  omega arith,
  refl,
  (
    omega arith,
    refl,
    (omega arith, refl, (omega arith, refl, (omega arith, refl, (omega arith, refl, tt)))),
  ),
)

progress_example :
    (length schedule ≤ 3 * (2 * (2 + 1)))
    × (AllReturned 2 (run (λ id. write_min (offers id)) 2 (start 9) schedule)
        ⊎ ((id : ℕ) × (id < 2)
            × (live ((run (λ id. write_min (offers id)) 2 (start 9) schedule).pc id) ≡ 1)))
progress_example = progress (λ id. write_min (offers id)) 2 9 schedule schedule-IsBusy
