-- ===== src/Simd/Laws.antt =====
-- What `vector2SIMDFloat` makes of a vector, and what a row of one neighbour picks from it.
use network_demo.Base.{
  ℕ, zero, suc, ◌+◌, ◌-◌, ◌*◌, ◌%◌, ◌^◌, ◌≤◌, ◌<◌, ◌≡◌, refl, ap, ◌∙◌, sym, List, [], ◌∷◌, ◌++◌,
  ltb, length, length-replicate, get_or, replicate, Bool-cases, inl, inr, arith,
}
use network_demo.Gang.Blocks.Laws.{tabulate, Visits, fill-tabulate}
use network_demo.Gang.Scan.{join_blocks}
use network_demo.Simd.{Floats, num, unit_from, unit_count, vector_to_simd_float}

module _ {ℓ} {A : Type ℓ} (d : A) where
  -- `k` places of a list from `b` on, with `d` past its end.
  unfoldable places : List A → ℕ → ℕ → List A
  places vec b zero = []
  places vec b (suc k) = get_or vec b d ∷ places vec (suc b) k

  places-append :
      (vec : List A) (b k m : ℕ) → places vec b (k + m) ≡ places vec b k ++ places vec (b + k) m
  unfolding places
  places-append vec b zero m =
      let e : zero + m ≡ m = omega arith in let f : b + zero ≡ b = omega arith in rw (e, f) refl
  places-append vec b (suc k) m =
      let e : suc k + m ≡ suc (k + m) = omega arith in
      let f : b + suc k ≡ suc b + k = omega arith in
      rw (e, f) (ap (◌∷◌ (get_or vec b d)) (places-append vec (suc b) k m))

  places_shift : (x : A) (vec : List A) (b k : ℕ) → places (x ∷ vec) (suc b) k ≡ places vec b k
  unfolding places
  places_shift x vec b zero = refl
  places_shift x vec b (suc k) = ap (◌∷◌ (get_or vec b d)) (places_shift x vec (suc b) k)

  places-nil : (b k : ℕ) → places [] b k ≡ replicate k d
  unfolding places
  places-nil b zero = refl
  places-nil b (suc k) = ap (◌∷◌ d) (places-nil (suc b) k)

  places_all : (vec : List A) (m : ℕ) → places vec 0 (length vec + m) ≡ vec ++ replicate m d
  unfolding places
  places_all [] m = let e : 0 + m ≡ m = omega arith in rw e (places-nil 0 m)
  places_all (x ∷ vec) m =
      let e : suc (length vec) + m ≡ suc (length vec + m) = omega arith in
      rw e (ap (◌∷◌ x) (places_shift x vec 0 (length vec + m) ∙ places_all vec m))

  get_or_past : (vec : List A) (i : ℕ) → length vec ≤ i → get_or vec i d ≡ d
  get_or_past [] i le = refl
  get_or_past (x ∷ vec) zero le = absurd (omega arith)
  get_or_past (x ∷ vec) (suc i) le = get_or_past vec i (omega arith)

module _ {ℓ} {F D : Type ℓ} (fl : Floats F D) where
  unit_from-places :
      (vec : List F) (i j k : ℕ)
      → i * num + j + k ≤ 2 ^ 32
      → unit_from fl vec i j k ≡ places fl.zero_float vec (i * num + j) k
  unfolding unit_from places
  unit_from-places vec i j zero le = refl
  unit_from-places vec i j (suc k) le =
      let idx : (i * num + j) % 2 ^ 32 ≡ i * num + j = omega arith in
      let next : i * num + suc j ≡ suc (i * num + j) = omega arith in
      let tail = unit_from-places vec i (suc j) k (omega arith) in
      elim (Bool-cases (ltb (i * num + j) (length vec))) [
        | inl here ↦ rw (idx, here, tail, next) refl
        | inr past ↦
            let nothing = get_or_past fl.zero_float vec (i * num + j) (ground arith) in
            rw (idx, past, tail, next, nothing) refl
      ]

  join_units :
      (vec : List F) (size i : ℕ)
      → (i + size) * num ≤ 2 ^ 32
      → join_blocks (tabulate size i (λ u. unit_from fl vec u 0 num))
        ≡ places fl.zero_float vec (i * num) (size * num)
  unfolding join_blocks places
  join_units vec zero i le = refl
  join_units vec (suc size) i le =
      let first : unit_from fl vec i 0 num ≡ places fl.zero_float vec (i * num + 0) num =
        unit_from-places vec i 0 num (omega arith) in
      let zero_off : i * num + 0 ≡ i * num = omega arith in
      let rest = join_units vec size (suc i) (omega arith) in
      let start : suc i * num ≡ i * num + num = omega arith in
      let total : suc size * num ≡ num + size * num = omega arith in
      rw (first, zero_off, rest, start, total)
        (sym (places-append fl.zero_float vec (i * num) num (size * num)))

  -- The units of a vector, one behind the other, are the vector and as many zeros as fill the last
  -- unit, whatever the order of the calls, for a loop that calls every unit and a vector of at most
  -- 2^32 - 8 elements.
  pub vector_to_simd_float-join :
      (schedule : ℕ → List ℕ) (vec : List F)
      → ((nb : ℕ) → Visits nb (schedule nb))
      → length vec + num ≤ 2 ^ 32
      → (pad : ℕ) × (pad < num)
        × ((length vec + pad) % num ≡ 0)
        × (join_blocks (vector_to_simd_float fl schedule vec) ≡ vec ++ replicate pad fl.zero_float)
  unfolding vector_to_simd_float
  vector_to_simd_float-join schedule vec visits small =
      let size = unit_count (length vec) in
      let pad = size * num - length vec in
      let units =
        fill-tabulate size (schedule size) (λ i. unit_from fl vec i 0 num)
          (replicate size (replicate num fl.zero_float)) (length-replicate size _) (visits size) in
      let all : size * num ≡ length vec + pad = ground arith in
      let joined = join_units vec size 0 (ground arith) in
      let full : size * num ≡ length vec + pad = all in
      (
        pad,
        ground arith,
        ground arith,
        ap join_blocks units
            ∙ joined
            ∙ ap (places fl.zero_float vec 0) full
            ∙ places_all fl.zero_float vec pad,
      )
