-- ===== src/PodArray/Storage/Reserve.antt =====
-- `reserve` and `resize` of utils/PODArray.h, for elements whose size is a power of two.
use network_demo.Base.{
  ℕ, suc, ◌+◌, ◌-◌, ◌*◌, ◌^◌, ◌≤◌, ◌<◌, ◌≡◌, inl, inr, ltb, arith, refl, ap, ◌∙◌, Bool-cases,
  dec_le, ap₂, sym, Bool, if◌then◌else◌, List, length, ◌++◌,
}
use native.Mathlib.Nat.{div-eq_of_eq-mul_left, pow-le-pow_right, pow-suc, mul-le-mul_left}
use mathlib.Core.Path.{subst}
use network_demo.Base.Words.{add_size}
use network_demo.Base.Order.{mul_mono}
use network_demo.PodArray.Sizes.{
  Params, pad_right, pad_left, byte_size, minimum_memory_for_elements,
  round_up_to_power_of_two_or_zero,
}
use network_demo.PodArray.Sizes.PowerOfTwo.{round_up-power, pow_pos, pow_add}
use network_demo.PodArray.Storage.{
  Numa, State, null, size, capacity, reserve, insert_prepare, insert,
}
use network_demo.PodArray.Storage.Valid.{NumaLaws, Whole, IsValid, contents}
use network_demo.PodArray.Storage.Grow.{realloc-grow}
use network_demo.PodArray.Storage.Push.{put-append, size-count, cancel}

pow_cancel : (k m : ℕ) → 2 ^ k ≤ 2 ^ m → k ≤ m
pow_cancel k m h = elim (dec_le k m) [
  | yes le ↦ le
  | no gt ↦
      let more : 2 ^ suc m ≤ 2 ^ k = pow-le-pow_right (omega arith) (omega arith) in
      absurd (omega (arith, more, pow-suc 2 m, pow_pos m))
]

pow_multiple : (k m es : ℕ) → es ≡ 2 ^ k → es ≤ 2 ^ m → 2 ^ m ≡ 2 ^ (m - k) * es
pow_multiple k m es e le =
    let below : k ≤ m = pow_cancel k m (omega (arith, e)) in
    let back : m - k + k ≡ m = omega arith in
    let split : 2 ^ m ≡ 2 ^ (m - k) * 2 ^ k = rw back at (pow_add (m - k) k) in rw e split

few : (m es : ℕ) → 0 < es → 2 * m ≤ 2 * m * es
few m es pos =
    let more : 2 * m * 1 ≤ 2 * m * es = mul-le-mul_left (2 * m) (omega arith) in omega (arith, more)

module _ (numa : Numa) (p : Params) (empty pr pl : ℕ) (whole : Whole p pr pl)
    (laws : NumaLaws numa empty) (k : ℕ) (power : p.element_size ≡ 2 ^ k) where
  -- The rounded size is a whole number of elements, at least those asked for.
  rounded_size :
      (n : ℕ)
      → 0 < n
      → n * p.element_size + pad_right p + pad_left p ≤ 2 ^ 63
      → (b : ℕ) × (round_up_to_power_of_two_or_zero (minimum_memory_for_elements p n)
          ≡ b * p.element_size)
        × (n + pr + pl ≤ b)
  unfolding minimum_memory_for_elements byte_size
  rounded_size n pos small =
      let parts : (n + pr + pl) * p.element_size ≡ n * p.element_size + pad_right p + pad_left p =
        grind (arith, whole.right, whole.left) in
      let memory : minimum_memory_for_elements p n ≡ (n + pr + pl) * p.element_size =
        omega (arith, parts) in
      let some = whole.some_size in
      let one = mul_mono p.element_size {x = 1} {y = n + pr + pl} (omega arith) in
      let (m, e, above, below) =
        round_up-power ((n + pr + pl) * p.element_size) (omega (arith, one))
          (omega (arith, parts)) in
      let bytes = pow_multiple k m p.element_size power (omega (arith, one)) in
      (
        2 ^ (m - k),
        ap round_up_to_power_of_two_or_zero memory ∙ e ∙ bytes,
        cancel p.element_size (n + pr + pl) (2 ^ (m - k)) some (omega (arith, bytes)),
      )

  -- After `reserve` of a well-formed array it is well formed, there is room for the elements asked
  -- for, and those held are the same: where the size of an element is a power of two, the pads are
  -- whole elements, the elements asked for and the pads take at most 2^63 bytes, the storage held
  -- takes less than 2^64, and the allocator never answers with the null address.
  pub reserve-capacity :
      (s : State) (count cap n : ℕ)
      → IsValid p (null numa p empty) s.pod count cap
      → n * p.element_size + pad_right p + pad_left p ≤ 2 ^ 63
      → cap * p.element_size + pad_right p + pad_left p < 2 ^ 64
      → (cap' : ℕ) × (n ≤ cap')
        × (cap ≤ cap')
        × IsValid p (null numa p empty) (reserve numa p empty s n).pod count cap'
        × (contents (reserve numa p empty s n) ≡ contents s)
  unfolding reserve
  reserve-capacity s count cap n valid small room =
      let number : capacity numa p empty s.pod ≡ cap =
        div-eq_of_eq-mul_left whole.some_size (omega (arith, valid.storage)) in
      elim (Bool-cases (ltb cap n)) [
        | inl more ↦
            let (b, bytes, fits) = rounded_size n (ground arith) small in
            let (valid', same) =
              realloc-grow numa p empty pr pl whole laws s count cap b valid
                (ground (arith, valid.fits)) room in
            rw (number, more, bytes) (b - pr - pl, omega arith, ground arith, valid', same)
        | inr enough ↦ rw (number, enough) (cap, ground arith, omega arith, valid, refl)
      ]

  -- `reserve` with the number of elements rounded up, as `insertPrepare` calls it.
  pub grown_for :
      (s : State) (count cap m : ℕ)
      → IsValid p (null numa p empty) s.pod count cap
      → 0 < m
      → 2 * m * p.element_size + pad_right p + pad_left p ≤ 2 ^ 63
      → cap * p.element_size + pad_right p + pad_left p < 2 ^ 64
      → (cap' : ℕ) × (m ≤ cap')
        × IsValid p
            (null numa p empty)
            (reserve numa p empty s (round_up_to_power_of_two_or_zero m)).pod
            count
            cap'
        × (contents (reserve numa p empty s (round_up_to_power_of_two_or_zero m)) ≡ contents s)
  grown_for s count cap m valid some small room =
      let bound : 2 * m ≤ 2 * m * p.element_size = few m p.element_size whole.some_size in
      let (j, e, above, below) = round_up-power m some (omega (arith, bound)) in
      let up : round_up_to_power_of_two_or_zero m ≤ 2 * m = omega (arith, e, below) in
      let product = mul_mono p.element_size up in
      let (cap', fits, grows, valid', same) =
        reserve-capacity s count cap (round_up_to_power_of_two_or_zero m) valid
          (omega (arith, product, small)) room in
      (cap', omega (arith, fits, e, above), valid', same)

  prepared :
      (s : State) (count cap n : ℕ)
      → IsValid p (null numa p empty) s.pod count cap
      → 0 < n
      → 2 * (count + n) * p.element_size + pad_right p + pad_left p ≤ 2 ^ 63
      → cap * p.element_size + pad_right p + pad_left p < 2 ^ 64
      → (cap' : ℕ) × (count + n ≤ cap')
        × IsValid p (null numa p empty) (insert_prepare numa p empty s n).pod count cap'
        × (contents (insert_prepare numa p empty s n) ≡ contents s)
  unfolding insert_prepare
  prepared s count cap n valid some small room =
      let number : size numa p empty s.pod ≡ count =
        size-count numa p empty pr pl whole s.pod count cap valid in
      let total : capacity numa p empty s.pod ≡ cap =
        div-eq_of_eq-mul_left whole.some_size (omega (arith, valid.storage)) in
      let bound = few (count + n) p.element_size whole.some_size in
      let required : add_size (size numa p empty s.pod) n ≡ count + n =
        ap (λ c. add_size c n) number ∙ omega (arith, bound) in
      let cases : insert_prepare numa p empty s n ≡ (
          if ltb cap (count + n)
          then reserve numa p empty s (round_up_to_power_of_two_or_zero (count + n))
          else s) =
        ap₂
          (λ c r.
            if ltb c r then reserve numa p empty s (round_up_to_power_of_two_or_zero r) else s)
          total required in
      elim (Bool-cases (ltb cap (count + n))) [
        | inl more ↦
            subst Prepared (sym (cases ∙ ap choose more))
              (grown_for s count cap (count + n) valid (omega arith) small room)
        | inr enough ↦
            subst Prepared (sym (cases ∙ ap choose enough)) (cap, ground arith, valid, refl)
      ]
    where
      choose : Bool → State
      choose b =
          if b then reserve numa p empty s (round_up_to_power_of_two_or_zero (count + n)) else s

      Prepared : State → Type 0
      Prepared t =
          (cap' : ℕ) × (count + n ≤ cap')
          × IsValid p (null numa p empty) t.pod count cap'
          × (contents t ≡ contents s)

  -- `insert` of some elements behind the others keeps a well-formed array so and appends their
  -- bytes, where the size of an element is a power of two and twice the new size does not wrap.
  insert-append :
      (s : State) (count cap n : ℕ) (bytes : List ℕ)
      → IsValid p (null numa p empty) s.pod count cap
      → 0 < n
      → length bytes ≡ n * p.element_size
      → 2 * (count + n) * p.element_size + pad_right p + pad_left p ≤ 2 ^ 63
      → cap * p.element_size + pad_right p + pad_left p < 2 ^ 64
      → (cap' : ℕ) × IsValid p
          (null numa p empty)
          (insert numa p empty s n bytes).pod
          (count + n)
          cap'
        × (contents (insert numa p empty s n bytes) ≡ contents s ++ bytes)
  unfolding insert byte_size
  insert-append s count cap n bytes valid some len small room =
      let (cap', fits, valid', same) = prepared s count cap n valid some small room in
      let doubled = mul_mono p.element_size {x = n} {y = 2 * (count + n)} (omega arith) in
      let size : byte_size p n ≡ n * p.element_size = omega (arith, doubled, small) in
      let (valid'', held) =
        put-append numa p empty pr pl whole (insert_prepare numa p empty s n) count cap' n bytes
          valid' fits len in
      rw size (cap', valid'', held ∙ ap (λ c. c ++ bytes) same)
