-- ===== src/PodArray/Elements.antt =====
-- The operations of `PODArray` (utils/PODArray.h) on its elements: construction, filling, assignment,
-- access and comparison. The bytes of an element are those of its object representation.
pub mod Fill
pub mod Assign
pub mod Equal
pub mod Middle
use network_demo.Base.{
  ℕ, zero, suc, ◌+◌, ◌-◌, ◌*◌, ◌/◌, Bool, true, false, Option, none, some, List, [], ◌∷◌, ◌++◌, ltb,
  ◌==◌, not, if◌then◌else◌, replicate,
}
use network_demo.Base.Bytes.{read_bytes, write_bytes}
use network_demo.PodArray.Sizes.{
  Params, byte_size, minimum_memory_for_elements, round_up_to_power_of_two_or_zero,
}
use network_demo.PodArray.Storage.{
  Numa, Pod, State, null, size, capacity, alloc, insert_prepare, reserve, resize, insert, put,
  reserve_for_next_size,
}

-- `n` copies of an element.
unfoldable pub copies : ℕ → List ℕ → List ℕ
copies zero x = []
copies (suc n) x = x ++ copies n x

module _ (numa : Numa) (p : Params) (empty_pod_array : ℕ) where
  unfoldable pub is_empty : Pod → Bool
  is_empty a = a.c_end == a.c_start

  -- A new array on a socket.
  unfoldable pub construct : State → Option ℕ → State
  construct s socket = record s {
    pod = record {
      c_start = null numa p empty_pod_array;
      c_end = null numa p empty_pod_array;
      c_end_of_storage = null numa p empty_pod_array;
      socket_id = socket;
    };
  }

  unfoldable pub alloc_for_num_elements : State → ℕ → State
  alloc_for_num_elements s n =
      alloc numa p empty_pod_array s
        (round_up_to_power_of_two_or_zero (minimum_memory_for_elements p n))

  -- `PODArray(n, socket_id)`: the elements are what the block holds.
  unfoldable pub construct_sized : State → ℕ → Option ℕ → State
  unfolding construct alloc_for_num_elements
  construct_sized s n socket =
      let s1 = alloc_for_num_elements (construct s socket) n in
      record s1 { pod = record s1.pod { c_end = s1.pod.c_end + byte_size p n } }

  -- `PODArray(from_begin, from_end)` for `n` elements.
  unfoldable pub construct_range : State → ℕ → List ℕ → State
  unfolding construct alloc_for_num_elements
  construct_range s n bytes =
      insert numa p empty_pod_array (alloc_for_num_elements (construct s none) n) n bytes

  -- `front`, `operator[]` and `back`
  unfoldable pub at_index : State → ℕ → List ℕ
  at_index s n = read_bytes s.mem (s.pod.c_start + n * p.element_size) p.element_size

  unfoldable pub front_element : State → List ℕ
  unfolding at_index
  front_element s = at_index s 0

  unfoldable pub back_element : State → List ℕ
  back_element s = read_bytes s.mem (s.pod.c_end - p.element_size) p.element_size

  -- The elements behind the old ones are written, and the end is set.
  unfoldable pub filled : State → ℕ → List ℕ → State
  filled s n bytes = record s {
    mem = write_bytes s.mem s.pod.c_end bytes;
    pod = record s.pod { c_end = s.pod.c_start + byte_size p n };
  }

  -- `resize_fill(n)` and `resize_fill(n, value)`
  unfoldable pub resize_fill : State → ℕ → State
  unfolding filled
  resize_fill s n =
      let old_size = size numa p empty_pod_array s.pod in
      if ltb old_size n
      then filled (reserve numa p empty_pod_array s n) n (replicate (byte_size p (n - old_size)) 0)
      else filled s n []

  unfoldable pub resize_fill_value : State → ℕ → List ℕ → State
  unfolding filled copies
  resize_fill_value s n value =
      let old_size = size numa p empty_pod_array s.pod in
      if ltb old_size n
      then filled (reserve numa p empty_pod_array s n) n (copies (n - old_size) value)
      else filled s n []

  -- `push_back` and `emplace_back` of an element that is made in its place.
  unfoldable pub emplace_back : State → List ℕ → State
  emplace_back s bytes =
      put numa p empty_pod_array
        (if s.pod.c_end == s.pod.c_end_of_storage
          then reserve_for_next_size numa p empty_pod_array s
          else s)
        bytes (byte_size p 1)

  -- The bytes are written over the elements from the first on, and the end is set.
  unfoldable pub overwritten : State → ℕ → List ℕ → State
  overwritten s n bytes = record s {
    mem = write_bytes s.mem s.pod.c_start bytes;
    pod = record s.pod { c_end = s.pod.c_start + byte_size p n };
  }

  -- `assign(n, x)`
  unfoldable pub assign_value : State → ℕ → List ℕ → State
  unfolding copies
  assign_value s n x =
      let s1 = resize numa p empty_pod_array s n in
      record s1 {
        mem = write_bytes s1.mem s1.pod.c_start (copies (size numa p empty_pod_array s1.pod) x);
      }

  -- `assign(from_begin, from_end)` of `n` elements that are not of this array, whose bytes are `bytes`.
  unfoldable pub assign : State → ℕ → List ℕ → State
  unfolding overwritten
  assign s n bytes =
      if ltb (capacity numa p empty_pod_array s.pod) n
      then overwritten (reserve numa p empty_pod_array s (round_up_to_power_of_two_or_zero n)) n
          bytes
      else overwritten s n bytes

  -- `operator==`, with `!=` of the elements: the loop over both arrays with a bound on its rounds.
  unfoldable pub equal_loop :
      (differ : List ℕ → List ℕ → Bool) → State → State → ℕ → ℕ → ℕ → Option Bool
  equal_loop differ s t zero this_it that_it = none
  equal_loop differ s t (suc fuel) this_it that_it =
      let rest = equal_loop differ s t fuel (this_it + p.element_size) (that_it + p.element_size) in
      if this_it == s.pod.c_end
      then some true
      else if differ (read_bytes s.mem this_it p.element_size)
          (read_bytes t.mem that_it p.element_size)
      then some false
      else rest

  unfoldable pub equal : (differ : List ℕ → List ℕ → Bool) → State → State → Option Bool
  unfolding equal_loop
  equal differ s t =
      let count = size numa p empty_pod_array s.pod in
      if count == size numa p empty_pod_array t.pod
      then equal_loop differ s t (suc count) s.pod.c_start t.pod.c_start
      else some false

  unfoldable pub not_equal : (differ : List ℕ → List ℕ → Bool) → State → State → Option Bool
  unfolding equal
  not_equal differ s t = elim (equal differ s t) [ none ↦ none | some b ↦ some (not b) ]

  -- `insert(it, from_begin, from_end)` of `n` elements; `none` if the iterator points into a block that
  -- has been given back, or if the first `memcpy` has two blocks that overlap.
  unfoldable pub insert_at : State → (it : ℕ) → ℕ → List ℕ → Option State
  insert_at s it n bytes =
      let s1 = insert_prepare numa p empty_pod_array s n in
      let bytes_to_copy = byte_size p n in
      let bytes_to_move = (s1.pod.c_end - it) / p.element_size * p.element_size in
      let moved_up =
        if bytes_to_move == 0
        then s1.mem
        else write_bytes s1.mem (s1.pod.c_end + bytes_to_copy - bytes_to_move)
            (read_bytes s1.mem (s1.pod.c_end - bytes_to_move) bytes_to_move) in
      if s1.pod.c_start == s.pod.c_start
      then (if ltb bytes_to_copy bytes_to_move
          then none
          else some (record s1 {
            mem = write_bytes moved_up (s1.pod.c_end - bytes_to_move) bytes;
            pod = record s1.pod { c_end = s1.pod.c_end + bytes_to_copy };
          }))
      else none
