-- ===== src/Gang/Count/Laws.antt =====
-- The counts are right: that of `bool`s always, that of other types as far as the type reaches.
use network_demo.Base.{
  ℕ, zero, suc, ◌+◌, ◌-◌, ◌/◌, ◌%◌, ◌^◌, ◌≤◌, ◌<◌, ◌≡◌, List, [], ◌∷◌, ◌++◌, length, take, arith,
  ◌∙◌, ap, sym, ◌==◌, if◌then◌else◌, leb, replicate, length-replicate, drop, Bool-cases, inl, inr,
}
use native.Mathlib.Nat.{mod-eq_of_lt, mod-lt, mod-add-mod, one-le-pow, zero-add}
use network_demo.Gang.Blocks.{block_size, num_blocks, block_begin, block_len, block, fill}
use network_demo.Gang.Blocks.Laws.{
  tabulate, Visits, fill-tabulate, tabulate_ext, drop_all, FitsBlocks, block-append-drop,
}
use network_demo.Gang.Reduce.{reduce_serial}
use network_demo.Gang.Reduce.Laws.{FitsBlocks-num_blocks}
use network_demo.Gang.Count.{count_serial, count_bools, count_blocks}
use network_demo.Gang.Count.Lanes.{AreBools, AreBools-drop, ones, sum_groups-ones, sum_bytes-ones}

-- Whatever the length of the array and its address, the word-wise count of `bool`s is the number
-- of those that are set.
count_bools-ones :
    (addr : ℕ) (bytes : List ℕ)
    → AreBools bytes
    → count_bools addr bytes ≡ ones (length bytes) bytes
unfolding count_bools
count_bools-ones addr bytes h =
    let n : ℕ = length bytes in
    ground (
      arith,
      sum_groups-ones 8 (n / 1024) bytes 0 h,
      sum_groups-ones 4 (n / 512) bytes 0 h,
      sum_groups-ones 2 (n / 256) bytes 0 h,
      sum_bytes-ones bytes 0,
    )

-- How many elements differ from the sentinel, the greatest value of the type.
pub marked : ℕ → List ℕ → ℕ
marked w [] = 0
marked w (x ∷ xs) = (if x == 2 ^ w - 1 then 0 else 1) + marked w xs

count_serial_from :
    (w r : ℕ) (xs : List ℕ)
    → r < 2 ^ w
    → reduce_serial (λ a b. (a + (if b == 2 ^ w - 1 then 0 else 1)) % 2 ^ w) r xs
      ≡ (r + marked w xs) % 2 ^ w
unfolding reduce_serial marked
count_serial_from w r [] small =
    let same : r + 0 ≡ r = omega arith in rw same (sym (mod-eq_of_lt small))
count_serial_from w r (x ∷ xs) small =
    let d : ℕ = if x == 2 ^ w - 1 then 0 else 1 in
    let pos : 0 < 2 ^ w = one-le-pow w 2 (omega arith) in
    let regroup : r + d + marked w xs ≡ r + (d + marked w xs) = omega arith in
    count_serial_from w ((r + d) % 2 ^ w) xs (mod-lt (r + d) pos)
    ∙ mod-add-mod (r + d) (2 ^ w) (marked w xs)
    ∙ ap (λ m. m % 2 ^ w) regroup

-- `countSerial` of an array of an unsigned `T` of `w` bits is the number of the elements that are not
-- `(T)-1`, modulo `2 ^ w`: it is right if that number fits `T`.
pub count_serial-marked : (w : ℕ) (xs : List ℕ) → count_serial w xs ≡ marked w xs % 2 ^ w
unfolding count_serial
count_serial-marked w xs =
    count_serial_from w 0 xs (one-le-pow w 2 (omega arith))
    ∙ ap (λ m. m % 2 ^ w) (zero-add (marked w xs))

-- The set bytes of a whole list.
abbrev all_ones : List ℕ → ℕ
all_ones xs = ones (length xs) xs

all_ones-append : (xs ys : List ℕ) → all_ones (xs ++ ys) ≡ all_ones xs + all_ones ys
unfolding ones
all_ones-append [] ys = omega arith
all_ones-append (x ∷ xs) ys = omega (arith, all_ones-append xs ys)

all_ones-le : (xs : List ℕ) → AreBools xs → all_ones xs ≤ length xs
unfolding ones
all_ones-le [] h = omega arith
all_ones-le (x ∷ xs) h = omega (arith, h.0, all_ones-le xs h.1)

all_ones-drop-le : (n : ℕ) (xs : List ℕ) → all_ones (drop n xs) ≤ all_ones xs
unfolding ones
all_ones-drop-le zero xs = omega arith
all_ones-drop-le (suc n) [] = omega arith
all_ones-drop-le (suc n) (x ∷ xs) = omega (arith, all_ones-drop-le n xs)

AreBools-take : (n : ℕ) (xs : List ℕ) → AreBools xs → AreBools (take n xs)
AreBools-take zero xs h = tt
AreBools-take (suc n) [] h = tt
AreBools-take (suc n) (x ∷ xs) h = (h.0, AreBools-take n xs h.1)

AreBools-block : (xs : List ℕ) (nb j : ℕ) → AreBools xs → AreBools (block xs nb j)
unfolding block
AreBools-block xs nb j h =
    AreBools-take (block_len (length xs) nb j) (drop (block_begin j) xs)
      (AreBools-drop (block_begin j) xs h)

-- Adding up the counts of the blocks does not wrap.
sum_blocks :
    (xs : List ℕ) (nb k j r : ℕ)
    → FitsBlocks (length xs) nb
    → j + k ≡ nb
    → r + all_ones (drop (block_begin j) xs) < 2 ^ 64
    → reduce_serial (λ a b. (a + b) % 2 ^ 64) r (tabulate k j (λ i. all_ones (block xs nb i)))
      ≡ r + all_ones (drop (block_begin j) xs)
unfolding reduce_serial
sum_blocks xs nb zero j r fits e small =
    let none_left : drop (block_begin j) xs ≡ [] = drop_all (block_begin j) xs (omega arith) in
    rw none_left (unfold ones in omega arith)
sum_blocks xs nb (suc k) j r fits e small =
    let b : List ℕ = block xs nb j in
    let rest : List ℕ = drop (block_begin (suc j)) xs in
    let both : all_ones (drop (block_begin j) xs) ≡ all_ones b + all_ones rest =
      ap all_ones (sym (block-append-drop xs nb j fits (omega arith))) ∙ all_ones-append b rest in
    let add : (r + all_ones b) % 2 ^ 64 ≡ r + all_ones b = omega arith in
    let onward = sum_blocks xs nb k (suc j) (r + all_ones b) fits (omega arith) (omega arith) in
    let regroup : r + all_ones b + all_ones rest ≡ r + all_ones (drop (block_begin j) xs) =
      omega (arith, both) in
    ap
      (λ s.
        reduce_serial (λ a b. (a + b) % 2 ^ 64) s
          (tabulate k (suc j) (λ i. all_ones (block xs nb i))))
      add
    ∙ onward
    ∙ regroup

-- The parallel count of `bool`s is the number of those that are set, whatever the order of the
-- calls of the gang and the address of the array.
pub count_blocks-ones :
    (schedule : ℕ → List ℕ) (addr : ℕ) (xs : List ℕ)
    → ((nb : ℕ) → Visits nb (schedule nb))
    → AreBools xs
    → length xs + block_size < 2 ^ 64
    → count_blocks schedule (λ i b. count_bools (addr + i) b) xs ≡ ones (length xs) xs
unfolding count_blocks
count_blocks-ones schedule addr xs visits bools small =
    let nb : ℕ = num_blocks (length xs) in
    let body : ℕ → ℕ = λ j. count_bools (addr + block_begin j) (block xs nb j) in
    let sums : fill (schedule nb) body (replicate nb 0) ≡ tabulate nb 0 body =
      fill-tabulate nb (schedule nb) body (replicate nb 0) (length-replicate nb 0) (visits nb) in
    let counts : tabulate nb 0 body ≡ tabulate nb 0 (λ j. all_ones (block xs nb j)) =
      tabulate_ext nb 0 body (λ j. all_ones (block xs nb j))
        (λ j lo hi.
          count_bools-ones (addr + block_begin j) (block xs nb j) (AreBools-block xs nb j bools)) in
    elim (Bool-cases (leb nb 1)) [
      | inl one ↦ rw one (count_bools-ones (addr + 0) xs bools)
      | inr many ↦
          rw (many, sums, counts)
            (sum_blocks xs nb nb 0 0 (FitsBlocks-num_blocks (length xs) small) (omega arith)
                (omega (arith, all_ones-le xs bools))
              ∙ zero-add (all_ones xs))
    ]
