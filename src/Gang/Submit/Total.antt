-- ===== src/Gang/Submit/Total.antt =====
-- A submitted function is called once at every index of its interval, and at no other.
use network_demo.Base.{
  ℕ, zero, suc, ◌+◌, ◌*◌, ◌^◌, ◌≤◌, ◌<◌, ◌≡◌, ◌≢◌, refl, List, [], ◌∷◌, length, arith, ◌⊎◌, inl,
  inr, dec_lt,
}
use mathlib.Core.Path.{subst}
use native.Mathlib.Nat.{mul-le-mul, mul-le-mul_left}
use network_demo.Gang.Partition.{Range, crew, submit}
use network_demo.Gang.Partition.Laws.{Tiles, Covers, submit-Covers}
use network_demo.Gang.Steal.{start, run}
use network_demo.Gang.Steal.Claims.{count}
use network_demo.Gang.Steal.Invariant.{Fits}
use network_demo.Gang.Steal.Exact.{Home, AllFinished, calls_exactly_once, calls_outside}
use network_demo.Gang.Submit.{begin_of, end_of, tasks}

Tiles-le : (lo : ℕ) (rs : List Range) (hi : ℕ) → Tiles lo rs hi → lo ≤ hi
Tiles-le lo [] hi t = omega arith
Tiles-le lo (r ∷ rs) hi t = omega (arith, t.0, t.1, Tiles-le r.e rs hi t.2)

Tiles-bounds :
    (lo : ℕ) (rs : List Range) (hi : ℕ)
    → Tiles lo rs hi
    → (u : ℕ) → u < length rs
    → (lo ≤ begin_of rs u) × (begin_of rs u ≤ end_of rs u) × (end_of rs u ≤ hi)
unfolding begin_of end_of
Tiles-bounds lo [] hi t u lt = absurd (omega arith)
Tiles-bounds lo (r ∷ rs) hi t zero lt = omega (arith, t.0, t.1, Tiles-le r.e rs hi t.2)
Tiles-bounds lo (r ∷ rs) hi t (suc u) lt =
    omega (arith, t.0, t.1, Tiles-bounds r.e rs hi t.2 u (omega arith))

-- Every index between the ends lies in one range and outside the others.
Tiles-Home :
    (lo : ℕ) (rs : List Range) (hi granular : ℕ)
    → Tiles lo rs hi
    → (i : ℕ) → lo ≤ i
    → i < hi
    → (t : ℕ) × Home (tasks rs granular) (begin_of rs) t i
unfolding begin_of end_of
Tiles-Home lo [] hi granular t i from to = absurd (omega arith)
Tiles-Home lo (r ∷ rs) hi granular tiles i from to = elim (dec_lt i r.e) [
  | yes first ↦ (
    0,
    record { valid = omega arith; from = omega (arith, tiles.0); to = first; apart = after first },
  )
  | no later ↦
      let (t, home) = Tiles-Home r.e rs hi granular tiles.2 i (omega arith) to in
      (
        suc t,
        record {
          valid = omega (arith, home.valid);
          from = home.from;
          to = home.to;
          apart = before (omega arith) t home;
        },
      )
]
  where
    after :
        i < r.e
        → (u : ℕ) → u < suc (length rs)
        → u ≢ 0
        → (i < begin_of (r ∷ rs) u) ⊎ (end_of (r ∷ rs) u ≤ i)
    after first zero lt ne = absurd (ne refl)
    after first (suc u) lt ne = inl (omega (arith, Tiles-bounds r.e rs hi tiles.2 u (omega arith)))

    before :
        r.e ≤ i
        → (t : ℕ) → Home (tasks rs granular) (begin_of rs) t i
        → (u : ℕ) → u < suc (length rs)
        → u ≢ suc t
        → (i < begin_of (r ∷ rs) u) ⊎ (end_of (r ∷ rs) u ≤ i)
    before past t home zero lt ne = inr past
    before past t home (suc u) lt ne = home.apart u (omega arith) (omega arith)

module _ (num first end granular n : ℕ) (rs : List Range) (some_thread : 0 < num)
    (some_index : 0 < granular) (ordered : first ≤ end)
    (room : end + granular * (num * num + 2) < 2 ^ 64)
    (planned : submit num first end granular ≡ crew n rs) where
  small : end + granular < 2 ^ 64
  small =
      let once : granular * 1 ≤ granular * (num * num + 2) =
        mul-le-mul_left granular (omega arith) in
      omega (arith, once)

  covers : Covers first end num (crew n rs)
  covers =
      subst (Covers first end num) planned
        (submit-Covers num first end granular some_thread some_index ordered small)

  fits : Fits (tasks rs granular) n
  fits = record {
    own = omega (arith, covers.2);
    some_range = omega (arith, covers.0, covers.2);
    room = λ u lt.
        let squares : n * length rs ≤ num * num =
          mul-le-mul covers.1 (omega (arith, covers.1, covers.2)) in
        let product : granular * (n * length rs + 2) ≤ granular * (num * num + 2) =
          mul-le-mul_left granular (omega arith) in
        omega (arith, product, Tiles-bounds first rs end covers.3 u lt);
  }

  in_order : (u : ℕ) → u < length rs → begin_of rs u ≤ end_of rs u
  in_order u lt = (Tiles-bounds first rs end covers.3 u lt).1

  -- When `submit` hands `[first, end)` to a crew and its workers have all finished, in whatever
  -- order they took their steps, the function has been called exactly once at every index of the
  -- interval.
  pub submit_calls_once :
      (ids : List ℕ)
      → AllFinished n (run (tasks rs granular) n (start (begin_of rs)) ids)
      → (i : ℕ) → first ≤ i
      → i < end
      → count i (run (tasks rs granular) n (start (begin_of rs)) ids).mem.calls ≡ 1
  submit_calls_once ids done i from to =
      let (t, home) = Tiles-Home first rs end granular covers.3 i from to in
      calls_exactly_once (tasks rs granular) n (begin_of rs) fits ids in_order t i home
        (omega (arith, covers.0)) done

  -- At no time has the function been called at an index outside the interval.
  submit_calls_outside :
      (ids : List ℕ) (i : ℕ)
      → (i < first) ⊎ (end ≤ i)
      → count i (run (tasks rs granular) n (start (begin_of rs)) ids).mem.calls ≡ 0
  submit_calls_outside ids i out =
      calls_outside (tasks rs granular) n (begin_of rs) fits ids in_order i
        λ u lt. apart (Tiles-bounds first rs end covers.3 u lt) out
    where
      apart :
          {lo hi : ℕ}
          → (first ≤ lo) × (lo ≤ hi) × (hi ≤ end)
          → (i < first) ⊎ (end ≤ i)
          → (i < lo) ⊎ (hi ≤ i)
      apart b (inl before) = inl (omega arith)
      apart b (inr past) = inr (omega arith)
