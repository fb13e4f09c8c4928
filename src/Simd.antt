-- ===== src/Simd.antt =====
-- utils/SIMD.h: vectors and matrices in units of eight `Float32`. The graph whose lists of neighbours
-- make a matrix is not in the repository, and what the processor computes on numbers is a parameter.
pub mod Laws
pub mod Row
mod Tests
use network_demo.Base.{
  ℕ, zero, suc, ◌+◌, ◌-◌, ◌*◌, ◌/◌, ◌%◌, ◌^◌, Bool, true, false, List, [], ◌∷◌, ltb, leb, ◌==◌,
  if◌then◌else◌, Option, none, some, length, get_elem?, get_or, set, replicate,
}
use network_demo.Gang.Blocks.{fill}

-- The operations on `Float32` and on the `double` that a product is summed up in.
pub record Floats {ℓ} (F D : Type ℓ) : Type ℓ where
  pub zero_float : F
  pub add_one : F → F
  pub mul : F → F → F
  pub zero_double : D
  pub add_double : D → F → D
  pub add_product : F → D → F

-- `256 / 8 / sizeof(Float32)`
abbrev pub num : ℕ
num = 8

abbrev pub unit_count : ℕ → ℕ
unit_count size = (if size % num == 0 then 0 else 1) + size / num

module _ {ℓ} {F D : Type ℓ} (fl : Floats F D) where
  -- `dotProduct` of two units, from the first lane to the last.
  unfoldable pub dot_from : D → List F → List F → D
  dot_from ret [] ys = ret
  dot_from ret (x ∷ xs) [] = ret
  dot_from ret (x ∷ xs) (y ∷ ys) = dot_from (fl.add_double ret (fl.mul x y)) xs ys

  unfoldable pub dot_product : List F → List F → D
  unfolding dot_from
  dot_product x y = dot_from fl.zero_double x y

  abbrev pub zero_unit : List F
  zero_unit = replicate num fl.zero_float

  -- The lanes of unit `i` from `j` on, `k` of them; the index is a `UInt32`.
  unfoldable pub unit_from : List F → ℕ → ℕ → ℕ → List F
  unit_from vec i j zero = []
  unit_from vec i j (suc k) =
      let idx = (i * num + j) % 2 ^ 32 in
      (if ltb idx (length vec) then get_or vec idx fl.zero_float else fl.zero_float)
      ∷ unit_from vec i (suc j) k

  -- `vector2SIMDFloat`; the calls of the loop are made in the order given.
  unfoldable pub vector_to_simd_float : (ℕ → List ℕ) → List F → List (List F)
  unfolding unit_from
  vector_to_simd_float schedule vec =
      let size = unit_count (length vec) in
      fill (schedule size) (λ i. unit_from vec i 0 num) (replicate size zero_unit)

  -- `unit[i % NUM] += 1`
  unfoldable pub bump_lane : ℕ → List F → List F
  bump_lane i unit = set unit (i % num) (fl.add_one (get_or unit (i % num) fl.zero_float))

  -- The row of a vertex: the offsets and the data behind those that are there, from neighbour `i` on.
  unfoldable pub row_from : ℕ → List F → List ℕ → List ℕ × List (List F)
  unfolding bump_lane
  row_from i unit [] = ([], [])
  row_from i unit (x ∷ []) = ([], bump_lane i unit ∷ [])
  row_from i unit (x ∷ y ∷ ngh) =
      let unit1 = bump_lane i unit in
      let apart = row_from (suc i) zero_unit (y ∷ ngh) in
      let together = row_from (suc i) unit1 (y ∷ ngh) in
      if leb num ((y + 2 ^ 32 - x) % 2 ^ 32)
      then ((y / num) ∷ apart.0, unit1 ∷ apart.1)
      else together

  unfoldable pub matrix_row : List ℕ → List ℕ × List (List F)
  unfolding row_from
  matrix_row [] = ([], [])
  matrix_row (x ∷ ngh) = let row = row_from 0 zero_unit (x ∷ ngh) in ((x / num) ∷ row.0, row.1)

  -- `ret[v]` of `matrixMultiplyVector`; `none` is an access out of bounds.
  unfoldable pub row_product : List (List F) → F → List ℕ → List (List F) → Option F
  unfolding dot_product
  row_product vec ret [] data_ = some ret
  row_product vec ret (off ∷ offset) [] = none
  row_product vec ret (off ∷ offset) (mx ∷ data_) = elim (get_elem? vec off) [
    | none ↦ none
    | some vy ↦ row_product vec (fl.add_product ret (dot_product mx vy)) offset data_
  ]

  -- The rows of a matrix, one call for each vertex.
  unfoldable pub simd_matrix : (ℕ → List ℕ) → List (List ℕ) → List (List ℕ × List (List F))
  unfolding matrix_row
  simd_matrix schedule lists =
      fill (schedule (length lists)) (λ v. matrix_row (get_or lists v []))
        (replicate (length lists) ([], []))

  unfoldable pub all_some : List (Option F) → Option (List F)
  all_some [] = some []
  all_some (none ∷ xs) = none
  all_some (some x ∷ xs) = elim (all_some xs) [ none ↦ none | some ys ↦ some (x ∷ ys) ]

  -- `matrixMultiplyVector`; `none` is also the assertion that the sizes agree.
  unfoldable pub matrix_multiply_vector :
      (ℕ → List ℕ) → List (List ℕ × List (List F)) → List (List F) → Option (List (List F))
  unfolding vector_to_simd_float row_product all_some
  matrix_multiply_vector schedule rows vec =
      let row : ℕ → List ℕ × List (List F) = λ v. get_or rows v ([], []) in
      let ret =
        fill (schedule (length rows)) (λ v. row_product vec fl.zero_float (row v).0 (row v).1)
          (replicate (length rows) (some fl.zero_float)) in
      if unit_count (length rows) == length vec
      then (elim (all_some ret) [ none ↦ none | some xs ↦ some (vector_to_simd_float schedule xs) ])
      else none
