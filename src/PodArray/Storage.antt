-- ===== src/PodArray/Storage.antt =====
-- `PODArrayBase` and the operations of `PODArray` that move its three pointers. Pointers are
-- addresses in a byte memory. libnuma is a parameter: where it places the blocks that it is asked
-- for. What a block holds before it is written is what the memory held there.
pub mod Valid
pub mod Grow
pub mod Push
pub mod Reserve
pub mod Swap
mod Tests
use network_demo.Base.{
  ℕ, suc, ◌+◌, ◌-◌, ◌/◌, Bool, true, false, Option, none, some, List, ◌∷◌, ltb, leb, ◌==◌, ◌&&◌,
  if◌then◌else◌, replicate, min,
}
use network_demo.Base.Words.{add_size, sub_size, mul_size}
use network_demo.Base.Bytes.{write_bytes}
use network_demo.PodArray.Sizes.{
  Params, pad_right, pad_left, byte_size, minimum_memory_for_elements,
  round_up_to_power_of_two_or_zero,
}

-- The address that libnuma returns for a request: its number, the old block, the sizes.
pub record Numa : Type 0 where
  pub alloc_interleaved : ℕ → ℕ → ℕ
  pub alloc_onnode : ℕ → ℕ → ℕ → ℕ
  pub realloc_at : ℕ → ℕ → ℕ → ℕ → ℕ

-- The fields of `PODArrayBase`; `none` is the socket -1.
pub record Pod : Type 0 where
  pub c_start : ℕ
  pub c_end : ℕ
  pub c_end_of_storage : ℕ
  pub socket_id : Option ℕ

-- An array in its memory, with the number of requests made of libnuma and the blocks given back.
pub record State : Type 0 where
  pub mem : ℕ → ℕ
  pub requests : ℕ
  pub freed : List (ℕ × ℕ)
  pub pod : Pod

-- `numa_realloc` keeps the first `n` bytes of the block that it moves.
abbrev pub moved : (ℕ → ℕ) → ℕ → ℕ → ℕ → ℕ → ℕ
moved mem from to n a = if leb to a && ltb a (to + n) then mem (from + (a - to)) else mem a

-- What `alloc` calls for a socket.
pub place : Numa → Option ℕ → ℕ → ℕ → ℕ
place numa none request bytes = numa.alloc_interleaved request bytes
place numa (some socket) request bytes = numa.alloc_onnode request bytes socket

module _ (numa : Numa) (p : Params) (empty_pod_array : ℕ) where
  -- `null`: the end of the static `EmptyPODArray`, or the null pointer if there is no left pad.
  abbrev pub null : ℕ
  null = if pad_left p == 0 then 0 else empty_pod_array + 1024

  abbrev pub size : Pod → ℕ
  size a = (a.c_end - a.c_start) / p.element_size

  abbrev pub capacity : Pod → ℕ
  capacity a = (a.c_end_of_storage - a.c_start) / p.element_size

  abbrev pub allocated_bytes : Pod → ℕ
  allocated_bytes a =
      add_size (add_size (a.c_end_of_storage - a.c_start) (pad_right p)) (pad_left p)

  -- The three pointers into a block of `bytes` bytes at `x`, with the end at distance `end_diff`.
  abbrev pub frame : Pod → ℕ → ℕ → ℕ → Pod
  frame a x bytes end_diff = record a {
    c_start = x + pad_left p;
    c_end = x + pad_left p + end_diff;
    c_end_of_storage = x + pad_left p + bytes - pad_right p - pad_left p;
  }

  pub alloc : State → ℕ → State
  unfolding place
  alloc s bytes =
      let x = place numa s.pod.socket_id s.requests bytes in
      let zeros = replicate p.element_size 0 in
      record s {
        mem =
            if pad_left p == 0
            then s.mem
            else write_bytes s.mem (x + pad_left p - p.element_size) zeros;
        requests = suc s.requests;
        pod = frame s.pod x bytes 0;
      }

  pub dealloc : State → State
  dealloc s =
      if s.pod.c_start == null
      then s
      else record s { freed = (s.pod.c_start - pad_left p, allocated_bytes s.pod) ∷ s.freed }

  -- `realloc` of an array that has a block.
  abbrev pub grown : State → ℕ → State
  grown s bytes =
      let old = s.pod.c_start - pad_left p in
      let old_bytes = allocated_bytes s.pod in
      let x = numa.realloc_at s.requests old old_bytes bytes in
      record s {
        mem = moved s.mem old x (min old_bytes bytes);
        requests = suc s.requests;
        pod = frame s.pod x bytes (s.pod.c_end - s.pod.c_start);
      }

  pub realloc : State → ℕ → State
  unfolding alloc
  realloc s bytes = if s.pod.c_start == null then alloc s bytes else grown s bytes

  -- `std::max`
  abbrev max_size : ℕ → ℕ → ℕ
  max_size a b = if ltb a b then b else a

  pub reserve_for_next_size : State → State
  unfolding realloc
  reserve_for_next_size s =
      if size s.pod == 0
      then realloc s (
          max_size
            (mul_size (add_size (sub_size p.initial_size 1 / p.element_size) 1) p.element_size)
            (minimum_memory_for_elements p 1))
      else realloc s (mul_size (allocated_bytes s.pod) 2)

  pub clear : State → State
  clear s = record s { pod = record s.pod { c_end = s.pod.c_start } }

  pub reserve : State → ℕ → State
  unfolding realloc
  reserve s n =
      if ltb (capacity s.pod) n
      then realloc s (round_up_to_power_of_two_or_zero (minimum_memory_for_elements p n))
      else s

  unfoldable pub resize_assume_reserved : State → ℕ → State
  resize_assume_reserved s n = record s {
    pod = record s.pod { c_end = s.pod.c_start + byte_size p n };
  }

  unfoldable pub resize : State → ℕ → State
  unfolding reserve resize_assume_reserved
  resize s n = resize_assume_reserved (reserve s n) n

  -- `memcpy(c_end, ...)` and `c_end += bytes_to_copy`
  abbrev pub put : State → List ℕ → ℕ → State
  put s bytes bytes_to_copy = record s {
    mem = write_bytes s.mem s.pod.c_end bytes;
    pod = record s.pod { c_end = s.pod.c_end + bytes_to_copy };
  }

  -- `push_back_raw`, and `push_back` of an element whose object representation is `bytes`.
  pub push_back_raw : State → List ℕ → State
  unfolding reserve_for_next_size
  push_back_raw s bytes =
      put (if s.pod.c_end == s.pod.c_end_of_storage then reserve_for_next_size s else s) bytes
        (byte_size p 1)

  pub pop_back : State → State
  pop_back s = record s { pod = record s.pod { c_end = s.pod.c_end - byte_size p 1 } }

  -- `insertPrepare` for `n` elements.
  unfoldable pub insert_prepare : State → ℕ → State
  unfolding reserve
  insert_prepare s n =
      let required_capacity = add_size (size s.pod) n in
      if ltb (capacity s.pod) required_capacity
      then reserve s (round_up_to_power_of_two_or_zero required_capacity)
      else s

  -- `insert(from_begin, from_end)`: `n` elements whose bytes are `bytes`, not of this array.
  pub insert : State → ℕ → List ℕ → State
  unfolding insert_prepare
  insert s n bytes = put (insert_prepare s n) bytes (byte_size p n)

-- `isInitialized`, for the value of `null`.
pub is_initialized : ℕ → Pod → Bool
is_initialized null a =
    if a.c_start == null
    then false
    else if a.c_end == null
    then false
    else if a.c_end_of_storage == null
    then false
    else true

-- `swap` of two arrays.
pub swap : ℕ → Pod → Pod → Pod × Pod
unfolding is_initialized
swap null a b =
    let a' = record a { socket_id = b.socket_id } in
    let b' = record b { socket_id = a.socket_id } in
    if is_initialized null a then (b, a) else if is_initialized null b then (b, a) else (a', b')
