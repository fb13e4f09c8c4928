-- ===== src/PodArray/Storage/Tests.antt =====
-- An array of 8-byte elements without pads, as `PODArray<uint64_t>` is.
use network_demo.Base.{
  ℕ, ◌+◌, ◌*◌, ◌^◌, ◌≤◌, ◌<◌, ◌≡◌, refl, List, [], ◌∷◌, ◌++◌, inl, inr, none, some, ◌-◌, arith,
}
use network_demo.PodArray.Sizes.{Params, pad_right, pad_left, integer_round_up}
use network_demo.PodArray.Storage.{Numa, State, null, push_back_raw, reserve}
use network_demo.PodArray.Storage.Valid.{NumaLaws, Whole, IsValid, contents}
use network_demo.PodArray.Storage.Push.{Starts, push_back_raw-append}
use network_demo.Base.Text.{same_text}
use network_demo.Base.Bytes as Bytes
use network_demo.Base.Bytes.{read_bytes}
use network_demo.PodArray.Elements.{resize_fill, equal, insert_at}
use network_demo.PodArray.Elements.Fill.{resize_fill-resize}
use network_demo.PodArray.Elements.Equal.{bytes_differ, equal_lem}
use network_demo.PodArray.Elements.Middle.{insert_at-contents}
use network_demo.PodArray.Storage.Reserve.{reserve-capacity}

abbrev params : Params
params = record { element_size = 8; initial_size = 4096; pad_right_ = 0; pad_left_ = 0 }

-- Every request gets a block of its own.
abbrev numa : Numa
numa = record {
  alloc_interleaved = λ request bytes. 4096 + request * 2 ^ 40;
  alloc_onnode = λ request bytes node. 4096 + request * 2 ^ 40;
  realloc_at = λ request old old_bytes bytes. 4096 + request * 2 ^ 40;
}

abbrev empty : ℕ
empty = 16

numa-NumaLaws : NumaLaws numa empty
numa-NumaLaws = record {
  interleaved = λ request bytes. (omega arith, inr (omega arith));
  onnode = λ request bytes node. (omega arith, inr (omega arith));
  again = λ request old old_bytes bytes. (omega arith, inr (omega arith));
}

params-Whole : Whole params 0 0
unfolding pad_right pad_left integer_round_up
params-Whole = record { some_size = omega arith; right = refl; left = refl; small = omega arith }

params-Starts : Starts params
unfolding pad_right pad_left integer_round_up
params-Starts = record { some_initial = omega arith; initial = omega arith; one = omega arith }

abbrev fresh : State
fresh = record {
  mem = λ a. 0;
  requests = 0;
  freed = [];
  pod = record { c_start = 0; c_end = 0; c_end_of_storage = 0; socket_id = none };
}

fresh-IsValid : IsValid params (null numa params empty) fresh.pod 0 0
unfolding pad_left integer_round_up
fresh-IsValid = record { ends = refl; storage = refl; fits = omega arith; block = inl (refl, refl) }

-- Two elements in a storage for 512.
abbrev two : State
two = record {
  mem = λ a. 7;
  requests = 1;
  freed = [];
  pod = record { c_start = 4096; c_end = 4112; c_end_of_storage = 8192; socket_id = none };
}

two-IsValid : IsValid params (null numa params empty) two.pod 2 512
unfolding pad_left integer_round_up
two-IsValid = record {
  ends = refl;
  storage = refl;
  fits = omega arith;
  block = inr (omega arith, omega arith);
}

abbrev bytes : List ℕ
bytes = 1 ∷ 2 ∷ 3 ∷ 4 ∷ 5 ∷ 6 ∷ 7 ∷ 8 ∷ []

small : 2 * (0 * 8 + pad_right params + pad_left params) < 2 ^ 64
unfolding pad_right pad_left integer_round_up
small = omega arith

push_back_raw-append_example :
    (cap' : ℕ) × IsValid params
      (null numa params empty)
      (push_back_raw numa params empty fresh bytes).pod
      1
      cap'
    × (contents (push_back_raw numa params empty fresh bytes) ≡ contents fresh ++ bytes)
push_back_raw-append_example =
    push_back_raw-append numa params empty 0 0 params-Whole numa-NumaLaws params-Starts fresh 0 0
      bytes fresh-IsValid refl small

thousand_small :
    (1000 * 8 + pad_right params + pad_left params ≤ 2 ^ 63)
    × (512 * 8 + pad_right params + pad_left params < 2 ^ 64)
unfolding pad_right pad_left integer_round_up
thousand_small = (omega arith, omega arith)

reserve-capacity_example :
    (cap' : ℕ) × (1000 ≤ cap')
    × (512 ≤ cap')
    × IsValid params (null numa params empty) (reserve numa params empty two 1000).pod 2 cap'
    × (contents (reserve numa params empty two 1000) ≡ contents two)
reserve-capacity_example =
    reserve-capacity numa params empty 0 0 params-Whole numa-NumaLaws 3 refl two 2 512 1000
      two-IsValid thousand_small.0 thousand_small.1

resize_fill-resize_example :
    (cap' : ℕ) × IsValid params
      (null numa params empty)
      (resize_fill numa params empty two 1000).pod
      1000
      cap'
    × (contents (resize_fill numa params empty two 1000) ≡ Bytes.resize (1000 * 8) 0 (contents two))
resize_fill-resize_example =
    resize_fill-resize numa params empty 0 0 params-Whole numa-NumaLaws 3 refl two 2 512 1000
      two-IsValid thousand_small.0 thousand_small.1

equal_lem_example :
    equal numa params empty bytes_differ two two ≡ some (same_text (contents two) (contents two))
equal_lem_example =
    equal_lem numa params empty 0 0 two two 2 512 2 512 params-Whole two-IsValid two-IsValid

-- An element is put in front of the second one.
insert_at-contents_example :
    (s' : State) × (insert_at numa params empty two (two.pod.c_start + 1 * 8) 1 bytes ≡ some s')
    × IsValid params (null numa params empty) s'.pod (2 + 1) 512
    × (contents s'
        ≡ read_bytes two.mem two.pod.c_start (1 * 8)
          ++ (bytes ++ read_bytes two.mem (two.pod.c_start + 1 * 8) ((2 - 1) * 8)))
insert_at-contents_example =
    insert_at-contents numa params empty 0 0 params-Whole two 2 512 1 1 bytes two-IsValid
      (omega arith) (omega arith) (omega arith) (omega arith) refl
