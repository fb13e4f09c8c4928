-- ===== src/PodArray/Storage/Valid.antt =====
-- When a `PODArray` is well formed, what it holds, and what its allocator has to do for it.
use network_demo.Base.{
  ℕ, ◌+◌, ◌-◌, ◌*◌, ◌≤◌, ◌<◌, ◌≡◌, ◌≢◌, ◌⊎◌, inl, inr, List, ◌==◌, arith, refl, Bool-cases,
}
use network_demo.Base.Order.{mul_mono}
use network_demo.Base.Bytes.{read_bytes}
use network_demo.PodArray.Sizes.{Params, pad_right, pad_left}
use network_demo.PodArray.Storage.{Numa, Pod, State, null, frame}

-- What is asked of libnuma: a block is neither at the null pointer nor in the static array.
abbrev pub Apart : ℕ → ℕ → ℕ → Type 0
Apart empty x bytes = (0 < x) × ((x + bytes ≤ empty) ⊎ (empty + 1024 ≤ x))

pub record NumaLaws (numa : Numa) (empty : ℕ) : Type 0 where
  pub interleaved : (request bytes : ℕ) → Apart empty (numa.alloc_interleaved request bytes) bytes
  pub onnode : (request bytes node : ℕ) → Apart empty (numa.alloc_onnode request bytes node) bytes
  pub again :
      (request old old_bytes bytes : ℕ)
      → Apart empty (numa.realloc_at request old old_bytes bytes) bytes

-- The pads are whole numbers of elements, and small enough for the static array.
pub record Whole (p : Params) (pr pl : ℕ) : Type 0 where
  pub some_size : 0 < p.element_size
  pub right : pad_right p ≡ pr * p.element_size
  pub left : pad_left p ≡ pl * p.element_size
  pub small : pad_left p ≤ 1024

-- `count` elements in a storage for `cap`; an array without a block has no storage.
pub record IsValid (p : Params) (null_end : ℕ) (a : Pod) (count cap : ℕ) : Type 0 where
  pub ends : a.c_end ≡ a.c_start + count * p.element_size
  pub storage : a.c_end_of_storage ≡ a.c_start + cap * p.element_size
  pub fits : count ≤ cap
  pub block :
      ((a.c_start ≡ null_end) × (cap ≡ 0)) ⊎ ((a.c_start ≢ null_end) × (pad_left p ≤ a.c_start))

-- The bytes of the elements.
abbrev pub contents : State → List ℕ
contents s = read_bytes s.mem s.pod.c_start (s.pod.c_end - s.pod.c_start)

module _ (numa : Numa) (p : Params) (empty pr pl : ℕ) (whole : Whole p pr pl) where
  Apart-not_null :
      (x bytes : ℕ) → Apart empty x bytes → pad_left p ≤ bytes → x + pad_left p ≢ null numa p empty
  Apart-not_null x bytes laws room e = elim (Bool-cases (pad_left p == 0)) [
    | inl none ↦ let n : null numa p empty ≡ 0 = rw none refl in omega (arith, laws.0, e, n)
    | inr some ↦
        let n : null numa p empty ≡ empty + 1024 = rw some refl in
        let pos : 0 < pad_left p = ground arith in
        elim laws.1 [
          | inl before ↦ omega (arith, before, e, n, room)
          | inr past ↦ omega (arith, past, e, n, pos)
        ]
  ]

  -- The pointers into a new block of `b` elements.
  pub frame-IsValid :
      (a : Pod) (x b count : ℕ)
      → Apart empty x (b * p.element_size)
      → count + pr + pl ≤ b
      → IsValid p
          (null numa p empty)
          (frame numa p empty a x (b * p.element_size) (count * p.element_size))
          count
          (b - pr - pl)
  frame-IsValid a x b count laws room =
      let all = mul_mono p.element_size room in
      let parts : (count + pr + pl) * p.element_size
          ≡ count * p.element_size + pad_right p + pad_left p =
        grind (arith, whole.right, whole.left) in
      let k : b - pr - pl + pr + pl ≡ b = omega arith in
      let total : (b - pr - pl + pr + pl) * p.element_size
          ≡ (b - pr - pl) * p.element_size + pad_right p + pad_left p =
        grind (arith, whole.right, whole.left) in
      let total' = rw k at total in
      record {
        ends = refl;
        storage = omega (arith, total');
        fits = omega arith;
        block =
            inr
              (Apart-not_null x (b * p.element_size) laws (omega (arith, all, parts)), omega arith);
      }
