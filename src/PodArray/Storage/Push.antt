-- ===== src/PodArray/Storage/Push.antt =====
-- `push_back` and `pop_back` of utils/PODArray.h on the elements that an array holds.
use network_demo.Base.{
  ℕ, suc, ◌+◌, ◌-◌, ◌*◌, ◌/◌, ◌^◌, ◌≤◌, ◌<◌, ◌≡◌, ◌≢◌, inl, inr, List, ◌++◌, ltb, ◌==◌,
  if◌then◌else◌, arith, refl, ap, ◌∙◌, Bool-cases, length, dec_le,
}
use native.Mathlib.Nat.{div-eq_of_eq-mul_left, div-mul-le_self, div-le_self}
use network_demo.Base.Words.{add_size, mul_size, sub_size}
use network_demo.Base.Order.{mul_mono}
use network_demo.Base.Bytes.{read_bytes, read_bytes_extend, read_bytes-append}
use network_demo.PodArray.Sizes.{
  Params, pad_right, pad_left, byte_size, minimum_memory_for_elements,
}
use network_demo.PodArray.Storage.{
  Numa, Pod, State, null, size, max_size, allocated_bytes, reserve_for_next_size, put,
  push_back_raw, pop_back,
}
use network_demo.PodArray.Storage.Valid.{NumaLaws, Whole, IsValid, contents}
use network_demo.PodArray.Storage.Grow.{realloc-grow}

-- The first sizes do not wrap.
pub record Starts (p : Params) : Type 0 where
  pub some_initial : 0 < p.initial_size
  pub initial : p.initial_size + p.element_size < 2 ^ 64
  pub one : p.element_size + pad_right p + pad_left p < 2 ^ 64

pub cancel : (k x y : ℕ) → 0 < k → x * k ≤ y * k → x ≤ y
cancel k x y pos h = elim (dec_le x y) [
  | yes le ↦ le
  | no gt ↦ let more = mul_mono k {x = suc y} {y = x} (omega arith) in absurd (grind (arith, more))
]

rounded : (n k : ℕ) → 0 < k → ((n - 1) / k + 1) * k ≤ n + k
rounded n k pos = grind (arith, div-mul-le_self (n - 1) k)

module _ (numa : Numa) (p : Params) (empty pr pl : ℕ) (whole : Whole p pr pl) where
  pub size-count :
      (a : Pod) (count cap : ℕ)
      → IsValid p (null numa p empty) a count cap
      → size numa p empty a ≡ count
  size-count a count cap valid = div-eq_of_eq-mul_left whole.some_size (omega (arith, valid.ends))

  one_element :
      p.element_size + pad_right p + pad_left p < 2 ^ 64
      → minimum_memory_for_elements p 1 ≡ (1 + pr + pl) * p.element_size
  unfolding minimum_memory_for_elements byte_size
  one_element small =
      let parts : (1 + pr + pl) * p.element_size ≡ p.element_size + pad_right p + pad_left p =
        grind (arith, whole.right, whole.left) in
      omega (arith, parts)

  -- The bytes of `k` elements are written behind the others.
  pub put-append :
      (s : State) (count cap k : ℕ) (bytes : List ℕ)
      → IsValid p (null numa p empty) s.pod count cap
      → count + k ≤ cap
      → length bytes ≡ k * p.element_size
      → IsValid p
          (null numa p empty)
          (put numa p empty s bytes (k * p.element_size)).pod
          (count + k)
          cap
        × (contents (put numa p empty s bytes (k * p.element_size)) ≡ contents s ++ bytes)
  put-append s count cap k bytes valid room len =
      let n : ℕ = count * p.element_size in
      let more : (count + k) * p.element_size ≡ n + k * p.element_size = grind arith in
      let before : s.pod.c_end - s.pod.c_start ≡ n = omega (arith, valid.ends) in
      let after : s.pod.c_end + k * p.element_size - s.pod.c_start ≡ n + length bytes =
        omega (arith, valid.ends) in
      let ends : s.pod.c_end ≡ s.pod.c_start + n = valid.ends in
      (
        record {
          ends = omega (arith, valid.ends, more);
          storage = valid.storage;
          fits = room;
          block = valid.block;
        },
        rw (after, before, ends) (read_bytes_extend s.mem s.pod.c_start n bytes),
      )

module _ (numa : Numa) (p : Params) (empty pr pl : ℕ) (whole : Whole p pr pl)
    (laws : NumaLaws numa empty) (starts : Starts p) where
  -- The size of the first block is a whole number of elements, at least one.
  first_size :
      (b : ℕ) × (max_size numa p empty
          (mul_size (add_size (sub_size p.initial_size 1 / p.element_size) 1) p.element_size)
          (minimum_memory_for_elements p 1)
        ≡ b * p.element_size)
      × (1 + pr + pl ≤ b)
  first_size =
      let es : ℕ = p.element_size in
      let k : ℕ = (p.initial_size - 1) / es + 1 in
      let bound = rounded p.initial_size es whole.some_size in
      let less : sub_size p.initial_size 1 ≡ p.initial_size - 1 =
        omega (arith, starts.some_initial, starts.initial) in
      let some = whole.some_size in
      let few : (p.initial_size - 1) / es ≤ p.initial_size - 1 =
        div-le_self (p.initial_size - 1) es in
      let more : add_size (sub_size p.initial_size 1 / es) 1 ≡ k =
        rw less (omega (arith, few, starts.initial)) in
      let initial : mul_size k es ≡ k * es = omega (arith, bound, starts.initial) in
      let one = one_element numa p empty pr pl whole starts.one in
      elim (Bool-cases (ltb (k * es) ((1 + pr + pl) * es))) [
        | inl below ↦ (1 + pr + pl, rw (more, initial, one, below) refl, omega arith)
        | inr above ↦
            (k, rw (more, initial, one, above) refl, cancel es (1 + pr + pl) k some (ground arith))
      ]

  reserve_next :
      (s : State) (count cap : ℕ)
      → IsValid p (null numa p empty) s.pod count cap
      → count ≡ cap
      → 2 * (cap * p.element_size + pad_right p + pad_left p) < 2 ^ 64
      → (cap' : ℕ) × (suc count ≤ cap')
        × IsValid p (null numa p empty) (reserve_for_next_size numa p empty s).pod count cap'
        × (contents (reserve_for_next_size numa p empty s) ≡ contents s)
  unfolding reserve_for_next_size
  reserve_next s count cap valid full small =
      let number = size-count numa p empty pr pl whole s.pod count cap valid in
      elim (Bool-cases (count == 0)) [
        | inl none ↦
            let (b, bytes, room) = first_size in
            let (valid', same) =
              realloc-grow numa p empty pr pl whole laws s count cap b valid (ground arith)
                (omega arith) in
            rw (number, none, bytes) (b - pr - pl, ground arith, valid', same)
        | inr some ↦
            let b : ℕ = 2 * (cap + pr + pl) in
            let parts : b * p.element_size ≡ 2 * (cap * p.element_size + pad_right p + pad_left p) =
              grind (arith, whole.right, whole.left) in
            let bytes : mul_size (allocated_bytes numa p empty s.pod) 2 ≡ b * p.element_size =
              omega (arith, valid.storage, parts) in
            let (valid', same) =
              realloc-grow numa p empty pr pl whole laws s count cap b valid (omega (arith, full))
                (omega arith) in
            rw (number, some, bytes) (b - pr - pl, ground arith, valid', same)
      ]

  -- The test with which `push_back` begins.
  abbrev with_room : State → State
  with_room s =
      if s.pod.c_end == s.pod.c_end_of_storage then reserve_for_next_size numa p empty s else s

  -- Room for one more element is there when `push_back` writes it.
  make_room :
      (s : State) (count cap : ℕ)
      → IsValid p (null numa p empty) s.pod count cap
      → 2 * (cap * p.element_size + pad_right p + pad_left p) < 2 ^ 64
      → (cap' : ℕ) × (suc count ≤ cap')
        × IsValid p (null numa p empty) (with_room s).pod count cap'
        × (contents (with_room s) ≡ contents s)
  make_room s count cap valid small = elim (Bool-cases (s.pod.c_end == s.pod.c_end_of_storage)) [
    | inl full ↦
        let equal : count * p.element_size ≡ cap * p.element_size =
          ground (arith, valid.ends, valid.storage) in
        let all : count ≡ cap =
          omega
            (arith, valid.fits, cancel p.element_size cap count whole.some_size (omega arith)) in
        rw full (reserve_next s count cap valid all small)
    | inr left ↦
        let ne : count ≢ cap = λ e.
          let same : count * p.element_size ≡ cap * p.element_size =
            ap (λ k. k * p.element_size) e in
          ground (arith, valid.ends, valid.storage, same) in
        rw left (cap, omega (arith, valid.fits, ne), valid, refl)
  ]

  -- `push_back` keeps a well-formed array so and appends the bytes of its element, whether or not
  -- it has to make room first: for pads of whole elements, blocks apart from the null address, first
  -- sizes that do not wrap and a storage that can be doubled.
  pub push_back_raw-append :
      (s : State) (count cap : ℕ) (bytes : List ℕ)
      → IsValid p (null numa p empty) s.pod count cap
      → length bytes ≡ p.element_size
      → 2 * (cap * p.element_size + pad_right p + pad_left p) < 2 ^ 64
      → (cap' : ℕ) × IsValid p
          (null numa p empty)
          (push_back_raw numa p empty s bytes).pod
          (suc count)
          cap'
        × (contents (push_back_raw numa p empty s bytes) ≡ contents s ++ bytes)
  unfolding push_back_raw byte_size
  push_back_raw-append s count cap bytes valid len small =
      let (cap', room, valid', same) = make_room s count cap valid small in
      let one : byte_size p 1 ≡ 1 * p.element_size = omega (arith, starts.one) in
      let next : count + 1 ≡ suc count = omega arith in
      let (valid'', held) =
        put-append numa p empty pr pl whole (with_room s) count cap' 1 bytes valid' (omega arith)
          (omega (arith, len)) in
      rw one (cap', rw next at valid'', held ∙ ap (λ c. c ++ bytes) same)

-- `pop_back` of a well-formed array that is not empty keeps it so, drops the bytes of the last
-- element and keeps the others.
pop_back-drops_last :
    (numa : Numa) (p : Params) (empty count cap : ℕ) (s : State)
    → p.element_size < 2 ^ 64
    → IsValid p (null numa p empty) s.pod (suc count) cap
    → IsValid p (null numa p empty) (pop_back numa p empty s).pod count cap
      × (contents s
          ≡ contents (pop_back numa p empty s)
            ++ read_bytes s.mem (pop_back numa p empty s).pod.c_end p.element_size)
unfolding pop_back byte_size
pop_back-drops_last numa p empty count cap s small valid =
    let n : ℕ = count * p.element_size in
    let more : suc count * p.element_size ≡ n + p.element_size = grind arith in
    let one : byte_size p 1 ≡ p.element_size = omega arith in
    let ends : s.pod.c_end ≡ s.pod.c_start + (n + p.element_size) = omega (arith, valid.ends) in
    let last : s.pod.c_start + (n + p.element_size) - p.element_size ≡ s.pod.c_start + n =
      omega arith in
    let all : s.pod.c_start + (n + p.element_size) - s.pod.c_start ≡ n + p.element_size =
      omega arith in
    let left : s.pod.c_start + n - s.pod.c_start ≡ n = omega arith in
    rw (one, ends, last, all, left)
      (
        record {
          ends = refl;
          storage = valid.storage;
          fits = omega (arith, valid.fits);
          block = valid.block;
        },
        read_bytes-append s.mem s.pod.c_start n p.element_size,
      )
