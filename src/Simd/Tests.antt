-- ===== src/Simd/Tests.antt =====
-- Vectors of whole numbers, in place of numbers with a point.
use network_demo.Base.{
  ℕ, zero, suc, ◌+◌, ◌*◌, ◌%◌, ◌<◌, ◌≡◌, refl, List, [], ◌∷◌, ◌++◌, length, replicate, some, arith,
  dec_lt,
}
use network_demo.Gang.Steal.Claims.{count}
use network_demo.Gang.Steal.Finish.{countdown}
use network_demo.Gang.Blocks.Laws.{Visits}
use network_demo.Gang.Scan.{join_blocks}
use network_demo.Simd.{Floats, num, vector_to_simd_float, matrix_row, row_product}
use network_demo.Simd.Laws.{vector_to_simd_float-join}
use network_demo.Simd.Row.{row_product-one_neighbour}

-- The operations on whole numbers.
abbrev exact : Floats ℕ ℕ
exact = record {
  zero_float = 0;
  add_one = λ x. x + 1;
  mul = λ x y. x * y;
  zero_double = 0;
  add_double = λ x y. x + y;
  add_product = λ x y. x + y;
}

countdown-Visits : (nb : ℕ) → Visits nb (countdown nb)
unfolding count
countdown-Visits zero i lt = absurd (omega arith)
countdown-Visits (suc nb) i lt = elim (dec_lt i nb) [
  | yes below ↦ omega (arith, countdown-Visits nb i below)
  | no top ↦ let e : nb ≡ i = omega arith in ground arith
]

abbrev ten : List ℕ
ten = 1 ∷ 2 ∷ 3 ∷ 4 ∷ 5 ∷ 6 ∷ 7 ∷ 8 ∷ 9 ∷ 10 ∷ []

vector_to_simd_float-join_example :
    (pad : ℕ) × (pad < num)
    × ((length ten + pad) % num ≡ 0)
    × (join_blocks (vector_to_simd_float exact countdown ten) ≡ ten ++ replicate pad 0)
vector_to_simd_float-join_example =
    vector_to_simd_float-join exact countdown ten countdown-Visits (omega arith)

-- The neighbour 9 has the second lane of the second unit, and the first is taken.
row_product-one_neighbour_example :
    row_product exact
      ((1 ∷ 2 ∷ []) ∷ (9 ∷ 10 ∷ []) ∷ [])
      0
      (matrix_row exact (9 ∷ [])).0
      (matrix_row exact (9 ∷ [])).1
    ≡ some (0 + (0 + (0 + 1) * 9))
row_product-one_neighbour_example =
    row_product-one_neighbour exact ((1 ∷ 2 ∷ []) ∷ (9 ∷ 10 ∷ []) ∷ []) 9 9 (10 ∷ []) refl
      (refl, tt)
