-- ===== src/PodArray/Elements/Fill.antt =====
-- `resize_fill` and `assign` of utils/PODArray.h, as seen in the bytes that an array holds.
use network_demo.Base.{
  ℕ, zero, suc, ◌+◌, ◌-◌, ◌*◌, ◌^◌, ◌≤◌, ◌<◌, ◌≡◌, refl, ap, ◌∙◌, sym, List, [], ◌∷◌, ◌++◌, length,
  length-append, length-replicate, replicate, ltb, ltb→lt, Bool-cases, inl, inr, arith,
}
use network_demo.Base.Order.{mul_mono}
use network_demo.Base.Bytes.{
  read_bytes, write_bytes, read_bytes_extend, read_bytes-write_bytes, length-read_bytes,
}
use network_demo.Base.Bytes as Bytes
use network_demo.PodArray.Sizes.{Params, pad_right, pad_left, byte_size}
use network_demo.PodArray.Storage.{Numa, State, null, size, reserve}
use network_demo.PodArray.Storage.Valid.{NumaLaws, Whole, IsValid, contents}
use network_demo.PodArray.Storage.Push.{size-count}
use network_demo.PodArray.Storage.Reserve.{reserve-capacity}
use network_demo.PodArray.Elements.{copies, filled, resize_fill}

-- The front of a block is the block cut short.
read_bytes-resize :
    (mem : ℕ → ℕ) (a k m : ℕ) → k ≤ m → read_bytes mem a k ≡ Bytes.resize k 0 (read_bytes mem a m)
unfolding read_bytes Bytes.resize
read_bytes-resize mem a zero m le = refl
read_bytes-resize mem a (suc k) zero le = absurd (omega arith)
read_bytes-resize mem a (suc k) (suc m) le =
    ap (◌∷◌ (mem a)) (read_bytes-resize mem (suc a) k m (omega arith))

resize-nil : (k : ℕ) → Bytes.resize k 0 [] ≡ replicate k 0
unfolding Bytes.resize
resize-nil zero = refl
resize-nil (suc k) = ap (◌∷◌ 0) (resize-nil k)

resize-longer : (xs : List ℕ) (k : ℕ) → Bytes.resize (length xs + k) 0 xs ≡ xs ++ replicate k 0
unfolding Bytes.resize
resize-longer [] k = let e : 0 + k ≡ k = omega arith in rw e (resize-nil k)
resize-longer (x ∷ xs) k =
    let e : suc (length xs) + k ≡ suc (length xs + k) = omega arith in
    rw e (ap (◌∷◌ x) (resize-longer xs k))

pub length-copies : (n : ℕ) (x : List ℕ) → length (copies n x) ≡ n * length x
unfolding copies
length-copies zero x = omega arith
length-copies (suc n) x = grind (arith, length-append x (copies n x), length-copies n x)

module _ (numa : Numa) (p : Params) (empty pr pl : ℕ) (whole : Whole p pr pl) where
  -- Elements written behind the others, up to `n`.
  filled-contents :
      (s : State) (count cap n : ℕ) (bytes : List ℕ)
      → IsValid p (null numa p empty) s.pod count cap
      → count ≤ n
      → n ≤ cap
      → n * p.element_size < 2 ^ 64
      → length bytes ≡ (n - count) * p.element_size
      → IsValid p (null numa p empty) (filled numa p empty s n bytes).pod n cap
        × (contents (filled numa p empty s n bytes) ≡ contents s ++ bytes)
  unfolding filled byte_size
  filled-contents s count cap n bytes valid more room small len =
      let e = n - count in
      let both : count + e ≡ n = omega arith in
      let parts : (count + e) * p.element_size ≡ count * p.element_size + e * p.element_size =
        grind arith in
      let all = rw both at parts in
      let before : s.pod.c_end - s.pod.c_start ≡ count * p.element_size =
        omega (arith, valid.ends) in
      let after : s.pod.c_start + byte_size p n - s.pod.c_start
          ≡ count * p.element_size + length bytes =
        omega (arith, small, all, len) in
      let ends : s.pod.c_end ≡ s.pod.c_start + count * p.element_size = valid.ends in
      (
        record {
          ends = omega (arith, small);
          storage = valid.storage;
          fits = room;
          block = valid.block;
        },
        rw (after, before, ends)
            (read_bytes_extend s.mem s.pod.c_start (count * p.element_size) bytes),
      )

  zeros-contents :
      (s : State) (count cap n : ℕ)
      → IsValid p (null numa p empty) s.pod count cap
      → count < n
      → n ≤ cap
      → n * p.element_size < 2 ^ 64
      → IsValid p
          (null numa p empty)
          (filled numa p empty s n (replicate (byte_size p (n - count)) 0)).pod
          n
          cap
        × (contents (filled numa p empty s n (replicate (byte_size p (n - count)) 0))
            ≡ Bytes.resize (n * p.element_size) 0 (contents s))
  unfolding byte_size
  zeros-contents s count cap n valid more room small =
      let k : ℕ = byte_size p (n - count) in
      let new = mul_mono p.element_size {x = n - count} {y = n} (omega arith) in
      let size : k ≡ (n - count) * p.element_size = omega (arith, new, small) in
      let zeros : length (replicate {A = ℕ} k 0) ≡ (n - count) * p.element_size =
        length-replicate k 0 ∙ size in
      let (valid', held) =
        filled-contents s count cap n (replicate k 0) valid (omega (arith, more)) room small
          zeros in
      let both : count + (n - count) ≡ n = omega (arith, more) in
      let parts : (count + (n - count)) * p.element_size
          ≡ count * p.element_size + (n - count) * p.element_size =
        grind arith in
      let all = rw both at parts in
      let old : length (contents s) ≡ count * p.element_size =
        length-read_bytes s.mem s.pod.c_start (s.pod.c_end - s.pod.c_start)
        ∙ omega (arith, valid.ends) in
      let long : length (contents s) + k ≡ n * p.element_size = omega (arith, old, size, all) in
      (
        valid',
        held ∙ sym (resize-longer (contents s) k) ∙ ap (λ m. Bytes.resize m 0 (contents s)) long,
      )

  -- Fewer elements: the end moves down, and the bytes of the others are held as before.
  cut-contents :
      (s : State) (count cap n : ℕ)
      → IsValid p (null numa p empty) s.pod count cap
      → n ≤ count
      → count * p.element_size < 2 ^ 64
      → IsValid p (null numa p empty) (filled numa p empty s n []).pod n cap
        × (contents (filled numa p empty s n []) ≡ Bytes.resize (n * p.element_size) 0 (contents s))
  unfolding filled byte_size write_bytes
  cut-contents s count cap n valid less small =
      let product = mul_mono p.element_size less in
      let before : s.pod.c_end - s.pod.c_start ≡ count * p.element_size =
        omega (arith, valid.ends) in
      let after : s.pod.c_start + byte_size p n - s.pod.c_start ≡ n * p.element_size =
        omega (arith, product, small) in
      (
        record {
          ends = omega (arith, product, small);
          storage = valid.storage;
          fits = omega (arith, less, valid.fits);
          block = valid.block;
        },
        rw (after, before)
            (read_bytes-resize s.mem s.pod.c_start (n * p.element_size) (count * p.element_size)
              product),
      )

module _ (numa : Numa) (p : Params) (empty pr pl : ℕ) (whole : Whole p pr pl)
    (laws : NumaLaws numa empty) (k : ℕ) (power : p.element_size ≡ 2 ^ k) where
  -- After `resize_fill(n)` a well-formed array is well formed and has `n` elements: the old ones, cut
  -- short or followed by zeros. The size of an element is a power of two, the pads are whole elements,
  -- the `n` elements and the pads take at most 2^63 bytes, the storage held takes less than 2^64, and
  -- the allocator never answers with the null address.
  pub resize_fill-resize :
      (s : State) (count cap n : ℕ)
      → IsValid p (null numa p empty) s.pod count cap
      → n * p.element_size + pad_right p + pad_left p ≤ 2 ^ 63
      → cap * p.element_size + pad_right p + pad_left p < 2 ^ 64
      → (cap' : ℕ) × IsValid p (null numa p empty) (resize_fill numa p empty s n).pod n cap'
        × (contents (resize_fill numa p empty s n)
            ≡ Bytes.resize (n * p.element_size) 0 (contents s))
  unfolding resize_fill byte_size
  resize_fill-resize s count cap n valid small room =
      let number : size numa p empty s.pod ≡ count =
        size-count numa p empty pr pl whole s.pod count cap valid in
      let stored = mul_mono p.element_size valid.fits in
      elim (Bool-cases (ltb count n)) [
        | inl more ↦
            let (cap', fits, grows, valid', same) =
              reserve-capacity numa p empty pr pl whole laws k power s count cap n valid small
                room in
            let (valid'', held) =
              zeros-contents numa p empty pr pl whole (reserve numa p empty s n) count cap' n valid'
                (ltb→lt count n more) fits (omega (arith, small)) in
            rw (number, more) (cap', valid'', held ∙ ap (Bytes.resize (n * p.element_size) 0) same)
        | inr less ↦
            let (valid', held) =
              cut-contents numa p empty pr pl whole s count cap n valid (ground arith)
                (omega (arith, stored, room)) in
            rw (number, less) (cap, valid', held)
      ]
