-- ===== src/Gang/Tests.antt =====
-- Calls of the gang on small arrays. The parallel loop calls its indices from the last to the first.
use network_demo.Base.{
  ℕ, zero, suc, ◌+◌, ◌%◌, ◌^◌, ◌<◌, ◌≡◌, refl, List, [], ◌∷◌, arith, true, some, length, replicate,
  length-replicate, dec_lt,
}
use network_demo.Gang.Partition.{
  Range, crew, submit, dispatch, share_count, cut, lay_out, bump_first,
}
use network_demo.Gang.Partition.Laws.{Covers, submit-Covers}
use network_demo.Gang.Steal.{step, start, turn, run}
use network_demo.Gang.Steal.Claims.{count}
use network_demo.Gang.Steal.Exact.{AllFinished}
use network_demo.Gang.Steal.Finish.{countdown}
use network_demo.Gang.Submit.{begin_of, end_of, tasks}
use network_demo.Gang.Submit.Total.{submit_calls_once}
use network_demo.Gang.Blocks.{block_size}
use network_demo.Gang.Blocks.Laws.{Visits}
use network_demo.Gang.Reduce.{reduce, reduce_serial}
use network_demo.Gang.Reduce.Laws.{IsMonoid, reduce-eq-serial}
use network_demo.Gang.Scan.{Operation, scan, scan_serial}
use network_demo.Gang.Scan.Laws.{Agrees, scan-eq-serial}
use network_demo.Gang.Count.{count_serial, count_bools, count_blocks}
use network_demo.Gang.Count.Lanes.{AreBools, ones}
use network_demo.Gang.Count.Laws.{marked, count_serial-marked, count_blocks-ones}

-- `submit(3, 7, f, 2)` in a gang of two threads.
abbrev halves : List Range
halves = record { b = 3; e = 5 } ∷ record { b = 5; e = 7 } ∷ []

submit-halves : submit 2 3 7 2 ≡ crew 2 halves
unfolding submit dispatch share_count cut lay_out bump_first
submit-halves = refl

submit-Covers_example : Covers 3 7 2 (submit 2 3 7 2)
submit-Covers_example =
    submit-Covers 2 3 7 2 (omega arith) (omega arith) (omega arith) (omega arith)

abbrev schedule : List ℕ
schedule = 1 ∷ 1 ∷ 1 ∷ 1 ∷ 1 ∷ 0 ∷ 0 ∷ 0 ∷ 0 ∷ 0 ∷ 1 ∷ 1 ∷ 0 ∷ 0 ∷ 1 ∷ 1 ∷ 0 ∷ 1 ∷ 0 ∷ 0 ∷ []

halves-AllFinished : AllFinished 2 (run (tasks halves 2) 2 (start (begin_of halves)) schedule)
unfolding run turn step start begin_of end_of
halves-AllFinished zero lt = refl
halves-AllFinished (suc zero) lt = refl
halves-AllFinished (suc (suc id)) lt = absurd (omega arith)

submit_calls_once_example :
    count 6 (run (tasks halves 2) 2 (start (begin_of halves)) schedule).mem.calls ≡ 1
submit_calls_once_example =
    submit_calls_once 2 3 7 2 2 halves (omega arith) (omega arith) (omega arith) (omega arith)
      submit-halves schedule halves-AllFinished 6 (omega arith) (omega arith)

countdown-Visits : (nb : ℕ) → Visits nb (countdown nb)
unfolding count
countdown-Visits zero i lt = absurd (omega arith)
countdown-Visits (suc nb) i lt = elim (dec_lt i nb) [
  | yes below ↦ omega (arith, countdown-Visits nb i below)
  | no top ↦ let e : nb ≡ i = omega arith in ground arith
]

add-IsMonoid : IsMonoid (λ a b. a + b) 0
add-IsMonoid = record {
  assoc = λ x y z. omega arith;
  left = λ x. omega arith;
  right = λ x. omega arith;
}

-- Three blocks.
abbrev many : List ℕ
many = replicate 5000 1

many_small : (length many < 5001) × (length many + block_size < 2 ^ 64)
many_small = omega (arith, length-replicate {A = ℕ} 5000 1)

reduce-eq-serial_example :
    reduce countdown 5001 (λ a b. a + b) 0 many ≡ some (reduce_serial (λ a b. a + b) 0 many)
reduce-eq-serial_example =
    reduce-eq-serial countdown (λ a b. a + b) 0 countdown-Visits add-IsMonoid 5001 many many_small.0
      many_small.1

-- Sums of numbers.
abbrev plus : Operation ℕ ℕ ℕ
plus = record {
  at_first = λ a b. a + b;
  at_out = λ a b. a + b;
  at_in = λ a b. a + b;
  null = 0;
  from_first = λ z. z;
  from_in = λ u. u;
}

plus-Agrees : Agrees plus (λ a b. a + b) 0
plus-Agrees = record {
  first_agrees = λ z u. refl;
  out_agrees = λ t u. refl;
  in_agrees = λ a b. refl;
  null_agrees = refl;
}

scan-eq-serial_example :
    scan countdown 5001 plus plus true true 7 many
    ≡ some (scan_serial (λ a b. a + b) (λ z. z) true true 7 many)
scan-eq-serial_example =
    scan-eq-serial countdown (λ a b. a + b) 0 plus plus-Agrees (λ t. refl) 5001 plus true true 7
      many countdown-Visits add-IsMonoid plus-Agrees (λ z. refl) (λ x y. omega arith) many_small.0
      many_small.1

many-AreBools : (n : ℕ) → AreBools (replicate n 1)
many-AreBools zero = tt
many-AreBools (suc n) = (omega arith, many-AreBools n)

count_blocks-ones_example :
    count_blocks countdown (λ i b. count_bools (3 + i) b) many ≡ ones (length many) many
count_blocks-ones_example =
    count_blocks-ones countdown 3 many countdown-Visits (many-AreBools 5000) many_small.1

-- In bytes, 300 marked elements count as 44.
count_serial-marked_example : count_serial 8 (replicate 300 1) ≡ marked 8 (replicate 300 1) % 2 ^ 8
count_serial-marked_example = count_serial-marked 8 (replicate 300 1)
