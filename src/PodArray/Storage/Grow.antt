-- ===== src/PodArray/Storage/Grow.antt =====
-- `PODArrayBase::alloc` and `PODArrayBase::realloc`: a larger block with the same elements.
use network_demo.Base.{
  ℕ, ◌+◌, ◌-◌, ◌*◌, ◌^◌, ◌≤◌, ◌<◌, ◌≡◌, ◌≢◌, inl, inr, [], ltb, leb, ◌==◌, ◌&&◌, arith, refl, ap,
  ◌∙◌, sym, true, false, Option, none, some,
}
use network_demo.Base.Order.{mul_mono}
use network_demo.Base.Bytes.{read_bytes, read_bytes_ext}
use network_demo.PodArray.Sizes.{Params, pad_right, pad_left}
use network_demo.PodArray.Storage.{
  Numa, State, moved, null, alloc, realloc, place, allocated_bytes, grown,
}
use network_demo.PodArray.Storage.Valid.{Apart, NumaLaws, Whole, IsValid, contents, frame-IsValid}

place-Apart :
    {numa : Numa} {empty : ℕ}
    → NumaLaws numa empty
    → (socket : Option ℕ) (request bytes : ℕ) → Apart empty (place numa socket request bytes) bytes
unfolding place
place-Apart laws none request bytes = laws.interleaved request bytes
place-Apart laws (some socket) request bytes = laws.onnode request bytes socket

read_none : (mem : ℕ → ℕ) (a n : ℕ) → n ≡ 0 → read_bytes mem a n ≡ []
unfolding read_bytes
read_none mem a n e = rw e refl

module _ (numa : Numa) (p : Params) (empty pr pl : ℕ) (whole : Whole p pr pl)
    (laws : NumaLaws numa empty) where
  alloc-grow :
      (s : State) (b : ℕ)
      → pr + pl ≤ b
      → IsValid p
          (null numa p empty)
          (alloc numa p empty s (b * p.element_size)).pod
          0
          (b - pr - pl)
  unfolding alloc
  alloc-grow s b room =
      let e : 0 * p.element_size ≡ 0 = omega arith in
      rw e at (
        frame-IsValid numa p empty pr pl whole s.pod
          (place numa s.pod.socket_id s.requests (b * p.element_size)) b 0
          (place-Apart laws s.pod.socket_id s.requests (b * p.element_size)) (omega arith))

  -- `numa_realloc` keeps what the block holds up to the end of the elements.
  moved-contents :
      (mem : ℕ → ℕ) (c_start x n m : ℕ)
      → pad_left p ≤ c_start
      → pad_left p + n ≤ m
      → read_bytes (moved mem (c_start - pad_left p) x m) (x + pad_left p) n
        ≡ read_bytes mem c_start n
  moved-contents mem c_start x n m le room =
      read_bytes_ext (moved mem (c_start - pad_left p) x m) mem (x + pad_left p) c_start n λ i lt.
        let inside : (leb x (x + pad_left p + i) && ltb (x + pad_left p + i) (x + m)) ≡ true =
          ground arith in
        let from : c_start - pad_left p + (x + pad_left p + i - x) ≡ c_start + i = omega arith in
        rw inside (ap mem from)

  realloc_new :
      (s : State) (bytes : ℕ)
      → s.pod.c_start ≡ null numa p empty
      → realloc numa p empty s bytes ≡ alloc numa p empty s bytes
  unfolding realloc
  realloc_new s bytes e =
      let test : (s.pod.c_start == null numa p empty) ≡ true = ground arith in rw test refl

  realloc_again :
      (s : State) (bytes : ℕ)
      → s.pod.c_start ≢ null numa p empty
      → realloc numa p empty s bytes ≡ grown numa p empty s bytes
  unfolding realloc
  realloc_again s bytes ne =
      let test : (s.pod.c_start == null numa p empty) ≡ false = ground arith in rw test refl

  alloc_end :
      (s : State) (bytes : ℕ)
      → (alloc numa p empty s bytes).pod.c_end - (alloc numa p empty s bytes).pod.c_start ≡ 0
  unfolding alloc
  alloc_end s bytes = omega arith

  -- A block for at least the elements that the array holds, with these elements in it.
  pub realloc-grow :
      (s : State) (count cap b : ℕ)
      → IsValid p (null numa p empty) s.pod count cap
      → count + pr + pl ≤ b
      → cap * p.element_size + pad_right p + pad_left p < 2 ^ 64
      → IsValid p
          (null numa p empty)
          (realloc numa p empty s (b * p.element_size)).pod
          count
          (b - pr - pl)
        × (contents (realloc numa p empty s (b * p.element_size)) ≡ contents s)
  realloc-grow s count cap b valid room small =
      let diff : s.pod.c_end - s.pod.c_start ≡ count * p.element_size = omega (arith, valid.ends) in
      elim valid.block [
        | inl (at_null, no_cap) ↦
            let zero_count : count ≡ 0 = omega (arith, valid.fits) in
            let nothing : count * p.element_size ≡ 0 = rw zero_count (omega arith) in
            rw (realloc_new s (b * p.element_size) at_null, zero_count)
              (
                alloc-grow s b (omega arith),
                read_none _ _ _ (alloc_end s (b * p.element_size))
                    ∙ sym (read_none s.mem s.pod.c_start _ (omega (arith, diff, nothing))),
              )
        | inr (not_null, above) ↦
            let x : ℕ =
              numa.realloc_at s.requests (s.pod.c_start - pad_left p)
                (allocated_bytes numa p empty s.pod) (b * p.element_size) in
            let size : allocated_bytes numa p empty s.pod
                ≡ cap * p.element_size + pad_right p + pad_left p =
              omega (arith, valid.storage) in
            let kept = mul_mono p.element_size valid.fits in
            let all = mul_mono p.element_size room in
            let parts : (count + pr + pl) * p.element_size
                ≡ count * p.element_size + pad_right p + pad_left p =
              grind (arith, whole.right, whole.left) in
            let index : x + pad_left p + count * p.element_size - (x + pad_left p)
                ≡ count * p.element_size =
              omega arith in
            rw (realloc_again s (b * p.element_size) not_null, diff, index)
              (
                frame-IsValid numa p empty pr pl whole s.pod x b count (laws.again _ _ _ _) room,
                moved-contents s.mem s.pod.c_start x (count * p.element_size) _ above
                    (ground (arith, size, kept, all, parts)),
              )
      ]
