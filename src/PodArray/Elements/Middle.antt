-- ===== src/PodArray/Elements/Middle.antt =====
-- `insert` at a position of utils/PODArray.h, where there is room and the blocks do not overlap.
use native.Mathlib.Nat.{div-eq_of_eq-mul_left, mul-le-mul_left}
use network_demo.Base.{
  ℕ, ◌+◌, ◌-◌, ◌*◌, ◌/◌, ◌^◌, ◌≤◌, ◌<◌, ◌≡◌, refl, ap, ap₂, ◌∙◌, sym, true, false, ◌==◌, ltb,
  if◌then◌else◌, List, ◌++◌, length, some, Bool-cases, inl, inr, arith,
}
use network_demo.Base.Order.{mul_mono}
use network_demo.Base.Words.{add_size}
use network_demo.Base.Bytes.{
  read_bytes, write_bytes, read_bytes-append, read_bytes-write_bytes, read_bytes_ext,
  length-read_bytes, write_bytes_outside,
}
use network_demo.PodArray.Sizes.{Params, byte_size}
use network_demo.PodArray.Storage.{Numa, State, null, capacity, insert_prepare}
use network_demo.PodArray.Storage.Valid.{Whole, IsValid, contents}
use network_demo.PodArray.Storage.Push.{size-count}
use network_demo.PodArray.Elements.{insert_at}

-- A block of `x + y` bytes at `a` is opened at `x` for the bytes that are put in.
opened_block :
    (mem : ℕ → ℕ) (a x y : ℕ) (bytes : List ℕ)
    → read_bytes
        (write_bytes
          (write_bytes mem (a + x + length bytes) (read_bytes mem (a + x) y))
          (a + x)
          bytes)
        a
        (x + (length bytes + y))
      ≡ read_bytes mem a x ++ (bytes ++ read_bytes mem (a + x) y)
opened_block mem a x y bytes =
    let n = length bytes in
    let tail = read_bytes mem (a + x) y in
    let mem1 = write_bytes mem (a + x + n) tail in
    let mem2 = write_bytes mem1 (a + x) bytes in
    let first : read_bytes mem2 a x ≡ read_bytes mem a x = read_bytes_ext mem2 mem a a x (λ i lt.
      write_bytes_outside mem1 (a + x) bytes (a + i) (inl (omega arith))
      ∙ write_bytes_outside mem (a + x + n) tail (a + i) (inl (omega arith))) in
    let last : read_bytes mem2 (a + x + n) y ≡ tail =
      read_bytes_ext mem2 mem1 (a + x + n) (a + x + n) y
        (λ i lt. write_bytes_outside mem1 (a + x) bytes (a + x + n + i) (inr (omega arith)))
      ∙ ap (read_bytes mem1 (a + x + n)) (sym (length-read_bytes mem (a + x) y))
      ∙ read_bytes-write_bytes mem (a + x + n) tail in
    read_bytes-append mem2 a x (n + y)
    ∙ ap₂ ◌++◌ first (
        read_bytes-append mem2 (a + x) n y
        ∙ ap₂ ◌++◌ (read_bytes-write_bytes mem1 (a + x) bytes) last)

not_above : (a b : ℕ) → b ≤ a → ltb a b ≡ false
not_above a b le = ground (arith, le)

module _ (numa : Numa) (p : Params) (empty pr pl : ℕ) (whole : Whole p pr pl) where
  -- Where there is room, nothing is moved to another block.
  prepared_in_place :
      (s : State) (count cap n : ℕ)
      → IsValid p (null numa p empty) s.pod count cap
      → count + n ≤ cap
      → cap < 2 ^ 64
      → insert_prepare numa p empty s n ≡ s
  unfolding insert_prepare
  prepared_in_place s count cap n valid room small =
      let number = size-count numa p empty pr pl whole s.pod count cap valid in
      let total : capacity numa p empty s.pod ≡ cap =
        div-eq_of_eq-mul_left whole.some_size (omega (arith, valid.storage)) in
      let enough : ltb cap (add_size count n) ≡ false = ground (arith, room, small) in
      rw (insert_prepare, number, total, enough) refl

  -- No bytes to move are the same as a move of none.
  no_move :
      (mem : ℕ → ℕ) (from to m : ℕ)
      → (if m == 0 then mem else write_bytes mem to (read_bytes mem from m))
        ≡ write_bytes mem to (read_bytes mem from m)
  unfolding write_bytes read_bytes
  no_move mem from to m = elim (Bool-cases (m == 0)) [
    | inl nil ↦ let zero_m : m ≡ 0 = ground arith in rw (nil, zero_m) refl
    | inr positive ↦ rw positive refl
  ]

  size_of : (n : ℕ) → n * p.element_size < 2 ^ 64 → byte_size p n ≡ n * p.element_size
  unfolding byte_size
  size_of n small = omega (arith, small)

  -- `insert` of `n` elements at position `i` keeps a well-formed array so, and puts their bytes between
  -- those in front of the position and the others, where there is room for them, no more elements
  -- stand behind the position than are put in, and the sizes do not wrap.
  pub insert_at-contents :
      (s : State) (count cap n i : ℕ) (bytes : List ℕ)
      → IsValid p (null numa p empty) s.pod count cap
      → count + n ≤ cap
      → cap * p.element_size < 2 ^ 64
      → i ≤ count
      → count - i ≤ n
      → length bytes ≡ n * p.element_size
      → (s' : State) × (insert_at numa p empty s (s.pod.c_start + i * p.element_size) n bytes
          ≡ some s')
        × IsValid p (null numa p empty) s'.pod (count + n) cap
        × (contents s'
            ≡ read_bytes s.mem s.pod.c_start (i * p.element_size)
              ++ (bytes
                  ++ read_bytes s.mem
                      (s.pod.c_start + i * p.element_size)
                      ((count - i) * p.element_size)))
  unfolding insert_at
  insert_at-contents s count cap n i bytes valid room small le few len =
      let es = p.element_size in
      let x = i * es in
      let y = (count - i) * es in
      let it = s.pod.c_start + x in
      let one : cap * 1 ≤ cap * es = mul-le-mul_left cap (omega (arith, whole.some_size)) in
      let whole_size : byte_size p n ≡ length bytes =
        size_of n (omega (arith, small, mul_mono es {x = n} {y = cap} (omega arith))) ∙ sym len in
      let split : i + (count - i) ≡ count = omega arith in
      let parts : (i + (count - i)) * es ≡ x + y = grind arith in
      let all = rw split at parts in
      let ends : s.pod.c_end ≡ it + y = omega (arith, valid.ends, all) in
      let distance : s.pod.c_end - it ≡ y = omega (arith, ends) in
      let quotient : (s.pod.c_end - it) / es ≡ count - i =
        div-eq_of_eq-mul_left whole.some_size distance in
      let above : ltb (length bytes) y ≡ false =
        not_above (length bytes) y (omega (arith, len, mul_mono es few)) in
      let here : (s.pod.c_start == s.pod.c_start) ≡ true = ground arith in
      let target : s.pod.c_end + length bytes - y ≡ it + length bytes = omega (arith, ends) in
      let source : s.pod.c_end - y ≡ it = omega (arith, ends) in
      let s' : State = record s {
        mem = write_bytes (write_bytes s.mem (it + length bytes) (read_bytes s.mem it y)) it bytes;
        pod = record s.pod { c_end = s.pod.c_end + length bytes };
      } in
      let prepared = prepared_in_place s count cap n valid room (omega (arith, one, small)) in
      let found : insert_at numa p empty s it n bytes ≡ some s' =
        rw
          (
            insert_at,
            prepared,
            whole_size,
            quotient,
            no_move s.mem (s.pod.c_end - y) (s.pod.c_end + length bytes - y) y,
            source,
            target,
            above,
            here,
          )
          refl in
      let more : (count + n) * es ≡ count * es + n * es = grind arith in
      let held : s.pod.c_end + length bytes - s.pod.c_start ≡ x + (length bytes + y) =
        omega (arith, ends) in
      let valid' : IsValid p (null numa p empty) s'.pod (count + n) cap = record {
        ends = omega (arith, valid.ends, len, more);
        storage = valid.storage;
        fits = room;
        block = valid.block;
      } in
      (s', found, valid', rw held (opened_block s.mem s.pod.c_start x y bytes))
