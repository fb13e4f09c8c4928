-- ===== src/Gang/PerCpu/Laws.antt =====
-- What `submitPerCpu` hands to the workers.
use mathlib.Core.List.{append_assoc, append-nil}
use native.Mathlib.Nat.{div-eq_of_lt, le-div_iff_mul-le, mod-eq_of_lt}
use network_demo.Base.{
  ℕ, zero, suc, ◌+◌, ◌-◌, ◌/◌, ◌%◌, ◌^◌, ◌<◌, ◌≤◌, ◌≡◌, ◌≢◌, List, [], ◌++◌, refl, arith, length,
  ◌∙◌, ap, sym, true, false, ◌==◌,
}
use network_demo.Base.Words.{add_size, sub_size}
use network_demo.Gang.Partition.{Range, nothing, min_size, cut, dispatch}
use network_demo.Gang.Partition.Laws.{cut-Tiles, Tiles, Balanced}
use network_demo.Gang.PerCpu.{append_copies, submitted, aborts, submit_per_cpu}

-- A list `times` times in a row.
abbrev pub copies : ℕ → List Range → List Range
copies zero base = []
copies (suc times) base = base ++ copies times base

append_copies-copies :
    (times : ℕ) (base ranges : List Range)
    → append_copies times base ranges ≡ ranges ++ copies times base
unfolding append_copies
append_copies-copies zero base ranges = sym (append-nil ranges)
append_copies-copies (suc times) base ranges =
    append_copies-copies times base (ranges ++ base) ∙ append_assoc ranges base (copies times base)

all_copies :
    (cpu_num : ℕ) (base : List Range)
    → 0 < cpu_num
    → append_copies (cpu_num - 1) base base ≡ copies cpu_num base
all_copies zero base pos = absurd (omega arith)
all_copies (suc k) base pos =
    let e : suc k - 1 ≡ k = omega arith in rw e (append_copies-copies k base base)

-- How many workers share the range of a processor.
abbrev pub workers : (num cpu_num end granular : ℕ) → ℕ
workers num cpu_num end granular =
    min_size (sub_size (add_size end granular) 1 / granular) (num / cpu_num)

-- What is divided by the granularity, if nothing wraps.
rounded_up :
    (end granular : ℕ)
    → 0 < granular
    → end + granular ≤ 2 ^ 64
    → sub_size (add_size end granular) 1 ≡ end + granular - 1
rounded_up end granular chunk small = omega arith

no_chunks :
    (num cpu_num end granular : ℕ)
    → 0 < granular
    → end + granular ≤ 2 ^ 64
    → end ≡ 0
    → workers num cpu_num end granular ≡ 0
no_chunks num cpu_num end granular chunk small empty =
    let q : (end + granular - 1) / granular ≡ 0 = div-eq_of_lt (omega arith) in
    rw (rounded_up end granular chunk small, q) (ground arith)

no_share : (num cpu_num end granular : ℕ) → num < cpu_num → workers num cpu_num end granular ≡ 0
no_share num cpu_num end granular few =
    let q : num / cpu_num ≡ 0 = div-eq_of_lt few in rw q (ground arith)

some_workers :
    (num cpu_num end granular : ℕ)
    → 0 < granular
    → 0 < cpu_num
    → end + granular ≤ 2 ^ 64
    → 0 < end
    → cpu_num ≤ num
    → 0 < workers num cpu_num end granular
some_workers num cpu_num end granular chunk pos small some_end many =
    let a : 1 ≤ (end + granular - 1) / granular = (le-div_iff_mul-le chunk).1 (omega arith) in
    let b : 1 ≤ num / cpu_num = (le-div_iff_mul-le pos).1 (omega arith) in
    rw (rounded_up end granular chunk small) (ground (arith, a, b))

nonzero : (n cpu_num : ℕ) → 0 < cpu_num → n % cpu_num ≢ 0 → (n == 0) ≡ false
nonzero zero cpu_num pos uneven = absurd (uneven (mod-eq_of_lt pos))
nonzero (suc n) cpu_num pos uneven = ground arith

-- With a granularity and a number of processors that are not 0, and an interval and a granularity
-- that fit a word together: nothing is done if the interval is empty or there are fewer threads than
-- processors; the program aborts if the number of workers, that of the chunks but at most a
-- processor's share of the threads, is no multiple of the number of processors; and otherwise every
-- processor gets the same balanced tiling of the interval, one copy after the other, for at least
-- one worker.
pub submit_per_cpu_lem :
    (num cpu_num end granular : ℕ)
    → 0 < granular
    → 0 < cpu_num
    → end + granular ≤ 2 ^ 64
    → let n = workers num cpu_num end granular in
      (end ≡ 0 → submit_per_cpu num cpu_num end granular ≡ submitted nothing)
      × (num < cpu_num → submit_per_cpu num cpu_num end granular ≡ submitted nothing)
      × (n % cpu_num ≢ 0 → submit_per_cpu num cpu_num end granular ≡ aborts)
      × (0 < end
          → cpu_num ≤ num
          → n % cpu_num ≡ 0
          → (submit_per_cpu num cpu_num end granular
              ≡ submitted (dispatch n (copies cpu_num (cut 0 end n))))
            × (0 < n)
            × (length (cut 0 end n) ≡ n)
            × Tiles 0 (cut 0 end n) (0 + end)
            × Balanced (end / n) (cut 0 end n))
unfolding submit_per_cpu
submit_per_cpu_lem num cpu_num end granular chunk pos small =
    let n = workers num cpu_num end granular in
    let g : (granular == 0) ≡ false = ground arith in
    let c : (cpu_num == 0) ≡ false = ground arith in
    (
      λ empty.
          let none_there : n ≡ 0 = no_chunks num cpu_num end granular chunk small empty in
          let e : (n == 0) ≡ true = ground arith in rw (submit_per_cpu, g, c, e) refl,
      λ few.
          let none_there : n ≡ 0 = no_share num cpu_num end granular few in
          let e : (n == 0) ≡ true = ground arith in rw (submit_per_cpu, g, c, e) refl,
      λ uneven.
          let e : (n == 0) ≡ false = nonzero n cpu_num pos uneven in
          let u : (n % cpu_num == 0) ≡ false = ground arith in rw (submit_per_cpu, g, c, e, u) refl,
      λ some_end many even.
          let some_there : 0 < n =
            some_workers num cpu_num end granular chunk pos small some_end many in
          let e : (n == 0) ≡ false = ground arith in
          let u : (n % cpu_num == 0) ≡ true = ground arith in
          let (len, tiles, balanced) = cut-Tiles 0 end n (omega arith) (omega arith) in
          (
            rw (submit_per_cpu, g, c, e, u)
                (ap (λ rs. submitted (dispatch n rs)) (all_copies cpu_num (cut 0 end n) pos)),
            some_there,
            len,
            tiles,
            balanced,
          ),
    )
