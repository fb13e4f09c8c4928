-- ===== src/PodArray/Elements/Assign.antt =====
-- `assign` of utils/PODArray.h, both forms, as seen in the bytes that an array holds.
use network_demo.Base.{
  ℕ, ◌+◌, ◌-◌, ◌*◌, ◌^◌, ◌≤◌, ◌<◌, ◌≡◌, ap, ◌∙◌, List, length, ltb, ltb→lt, Bool-cases, inl, inr,
  arith,
}
use native.Mathlib.Nat.{div-eq_of_eq-mul_left}
use network_demo.Base.Order.{mul_mono}
use network_demo.Base.Bytes.{read_bytes-write_bytes}
use network_demo.PodArray.Sizes.{
  Params, pad_right, pad_left, byte_size, round_up_to_power_of_two_or_zero,
}
use network_demo.PodArray.Storage.{
  Numa, Pod, State, null, capacity, reserve, resize, resize_assume_reserved,
}
use network_demo.PodArray.Storage.Valid.{NumaLaws, Whole, IsValid, contents}
use network_demo.PodArray.Storage.Push.{size-count}
use network_demo.PodArray.Storage.Reserve.{reserve-capacity, grown_for}
use network_demo.PodArray.Elements.{copies, overwritten, assign_value, assign}
use network_demo.PodArray.Elements.Fill.{length-copies}

module _ (numa : Numa) (p : Params) (empty pr pl : ℕ) (whole : Whole p pr pl) where
  -- An end at `n` elements within the storage.
  end_at-IsValid :
      (a : Pod) (count cap n : ℕ)
      → IsValid p (null numa p empty) a count cap
      → n ≤ cap
      → n * p.element_size < 2 ^ 64
      → IsValid p (null numa p empty) (record a { c_end = a.c_start + byte_size p n }) n cap
  unfolding byte_size
  end_at-IsValid a count cap n valid room small = record {
    ends = omega (arith, small);
    storage = valid.storage;
    fits = room;
    block = valid.block;
  }

  overwritten-contents :
      (s : State) (count cap n : ℕ) (bytes : List ℕ)
      → IsValid p (null numa p empty) s.pod count cap
      → n ≤ cap
      → n * p.element_size < 2 ^ 64
      → length bytes ≡ n * p.element_size
      → IsValid p (null numa p empty) (overwritten numa p empty s n bytes).pod n cap
        × (contents (overwritten numa p empty s n bytes) ≡ bytes)
  unfolding overwritten byte_size
  overwritten-contents s count cap n bytes valid room small len =
      let held : s.pod.c_start + byte_size p n - s.pod.c_start ≡ length bytes =
        omega (arith, small, len) in
      (
        end_at-IsValid s.pod count cap n valid room small,
        rw held (read_bytes-write_bytes s.mem s.pod.c_start bytes),
      )

module _ (numa : Numa) (p : Params) (empty pr pl : ℕ) (whole : Whole p pr pl)
    (laws : NumaLaws numa empty) (k : ℕ) (power : p.element_size ≡ 2 ^ k) where
  -- After `assign` of `n` elements a well-formed array holds just their bytes, whatever it held
  -- before, where the size of an element is a power of two and the sizes do not wrap.
  assign-contents :
      (s : State) (count cap n : ℕ) (bytes : List ℕ)
      → IsValid p (null numa p empty) s.pod count cap
      → length bytes ≡ n * p.element_size
      → 2 * n * p.element_size + pad_right p + pad_left p ≤ 2 ^ 63
      → cap * p.element_size + pad_right p + pad_left p < 2 ^ 64
      → (cap' : ℕ) × IsValid p (null numa p empty) (assign numa p empty s n bytes).pod n cap'
        × (contents (assign numa p empty s n bytes) ≡ bytes)
  unfolding assign
  assign-contents s count cap n bytes valid len small room =
      let total : capacity numa p empty s.pod ≡ cap =
        div-eq_of_eq-mul_left whole.some_size (omega (arith, valid.storage)) in
      let once = mul_mono p.element_size {x = n} {y = 2 * n} (omega arith) in
      elim (Bool-cases (ltb cap n)) [
        | inl more ↦
            let (cap', fits, valid', same) =
              grown_for numa p empty pr pl whole laws k power s count cap n valid
                (omega (arith, ltb→lt cap n more)) small room in
            let (valid'', held) =
              overwritten-contents numa p empty pr pl whole
                (reserve numa p empty s (round_up_to_power_of_two_or_zero n)) count cap' n bytes
                valid' fits (omega (arith, once, small)) len in
            rw (total, more) (cap', valid'', held)
        | inr enough ↦
            let (valid'', held) =
              overwritten-contents numa p empty pr pl whole s count cap n bytes valid (ground arith)
                (omega (arith, once, small)) len in
            rw (total, enough) (cap, valid'', held)
      ]

  -- After `assign(n, x)` it holds `n` copies of `x`.
  assign_value-copies :
      (s : State) (count cap n : ℕ) (x : List ℕ)
      → IsValid p (null numa p empty) s.pod count cap
      → length x ≡ p.element_size
      → n * p.element_size + pad_right p + pad_left p ≤ 2 ^ 63
      → cap * p.element_size + pad_right p + pad_left p < 2 ^ 64
      → (cap' : ℕ) × IsValid p (null numa p empty) (assign_value numa p empty s n x).pod n cap'
        × (contents (assign_value numa p empty s n x) ≡ copies n x)
  unfolding assign_value resize resize_assume_reserved byte_size
  assign_value-copies s count cap n x valid len small room =
      let (cap', fits, grows, valid', same) =
        reserve-capacity numa p empty pr pl whole laws k power s count cap n valid small room in
      let t = reserve numa p empty s n in
      let valid'' =
        end_at-IsValid numa p empty pr pl whole t.pod count cap' n valid' fits
          (omega (arith, small)) in
      let number =
        size-count numa p empty pr pl whole (resize numa p empty s n).pod n cap' valid'' in
      let held : t.pod.c_start + byte_size p n - t.pod.c_start ≡ length (copies n x) =
        omega (arith, small, length-copies n x ∙ ap (λ m. n * m) len) in
      (cap', valid'', rw (number, held) (read_bytes-write_bytes t.mem t.pod.c_start (copies n x)))
