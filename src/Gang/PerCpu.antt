-- ===== src/Gang/PerCpu.antt =====
-- utils/Gang.h: `Gang::submitPerCpu`, which gives every processor a copy of the ranges.
pub mod Laws
mod Tests
use network_demo.Base.{ℕ, zero, suc, ◌-◌, ◌/◌, ◌%◌, List, ◌++◌, ◌==◌, ◌||◌, if◌then◌else◌}
use network_demo.Base.Words.{add_size, sub_size}
use network_demo.Gang.Partition.{Range, Plan, nothing, min_size, cut, dispatch}

-- `for (auto i = 0u; i < n; ++i) ranges.emplace_back(ranges[i])`, `times` times over; the first `n`
-- ranges are `base`.
pub append_copies : (times : ℕ) → (base ranges : List Range) → List Range
append_copies zero base ranges = ranges
append_copies (suc times) base ranges = append_copies times base (ranges ++ base)

-- How `submitPerCpu` ends: a division by 0, `abort()`, or what is handed to the workers.
pub data PerCpuEnd : Type 0 where
  divides_by_zero aborts : PerCpuEnd
  submitted : Plan → PerCpuEnd

pub submit_per_cpu : (num cpu_num end granular : ℕ) → PerCpuEnd
unfolding append_copies
submit_per_cpu num cpu_num end granular =
    let n = min_size (sub_size (add_size end granular) 1 / granular) (num / cpu_num) in
    let ranges = cut 0 end n in
    if granular == 0 || cpu_num == 0
    then divides_by_zero
    else if n == 0
    then submitted nothing
    else if n % cpu_num == 0
    then submitted (dispatch n (append_copies (cpu_num - 1) ranges ranges))
    else aborts
