-- ===== src/Simd/Row.antt =====
-- The product of a vector with a row of one neighbour.
use network_demo.Base.{
  ℕ, zero, suc, ◌/◌, ◌≡◌, refl, ap, ◌∙◌, List, [], ◌∷◌, get_elem?, replicate, some,
}
use network_demo.Simd.{
  Floats, num, dot_from, dot_product, bump_lane, row_from, matrix_row, row_product,
}

module _ {ℓ} {F D : Type ℓ} (fl : Floats F D) where
  -- Zero times each of these numbers, added to a sum, leaves it as it is: so it is for finite numbers,
  -- and not for an infinity or a NaN.
  abbrev pub AreAbsorbed : D → List F → Type ℓ
  AreAbsorbed r [] = Unit {ℓ}
  AreAbsorbed r (z ∷ zs) = (fl.add_double r (fl.mul fl.zero_float z) ≡ r) × AreAbsorbed r zs

  dot_from-zeros :
      (k : ℕ) (ret : D) (ys : List F)
      → AreAbsorbed ret ys
      → dot_from fl ret (replicate k fl.zero_float) ys ≡ ret
  unfolding dot_from
  dot_from-zeros zero ret ys h = refl
  dot_from-zeros (suc k) ret [] h = refl
  dot_from-zeros (suc k) ret (y ∷ ys) h =
      ap (λ r. dot_from fl r (replicate k fl.zero_float) ys) h.0 ∙ dot_from-zeros k ret ys h.1

  -- One times a lane, summed up.
  abbrev pub once : F → D
  once y = fl.add_double fl.zero_double (fl.mul (fl.add_one fl.zero_float) y)

  -- The product with the row of a vertex that has one neighbour takes the first lane of the unit in
  -- which the neighbour stands, whichever lane of that unit is the neighbour's own, where zero times
  -- each of the other lanes leaves the sum as it is.
  pub row_product-one_neighbour :
      (vec : List (List F)) (x : ℕ) (y : F) (ys : List F)
      → get_elem? vec (x / num) ≡ some (y ∷ ys)
      → AreAbsorbed (once y) ys
      → row_product fl vec fl.zero_float (matrix_row fl (x ∷ [])).0 (matrix_row fl (x ∷ [])).1
        ≡ some (fl.add_product fl.zero_float (once y))
  unfolding row_product matrix_row row_from bump_lane dot_product dot_from
  row_product-one_neighbour vec x y ys e absorbed =
      rw (row_product, e)
        (ap (λ r. some (fl.add_product fl.zero_float r)) (dot_from-zeros 7 (once y) ys absorbed))
