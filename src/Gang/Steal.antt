-- ===== src/Gang/Steal.antt =====
-- `TasksImpl::run`: workers that take chunks of the ranges by an atomic fetch-and-add, each from
-- its own range first and then from the others. One step is one shared access or one call of `f`.
pub mod Claims
pub mod Invariant
pub mod Exact
pub mod Finish
pub mod Fair
mod Tests
use network_demo.Base.{
  ℕ, zero, suc, ◌+◌, ◌%◌, Bool, true, false, List, [], ◌∷◌, ltb, leb, ◌==◌, if◌then◌else◌,
}
use network_demo.Base.Words.{add_size}
use network_demo.Base.Family.{update}

-- The fields of `TasksImpl` that do not change while it runs: the number of ranges, their ends
-- and the chunk size.
pub record Job : Type 0 where
  pub size : ℕ
  pub e : ℕ → ℕ
  pub chunk_size : ℕ

-- What the workers share: the counter `ranges[t].b` of each range, and the calls of `f` so far.
pub record Shared : Type 0 where
  pub b : ℕ → ℕ
  pub calls : List ℕ

-- Where a worker stands in `run` under work stealing, with its locals.
pub data Pc : Type 0 where
  -- the head of `while (true)` in `work`, for the target at offset `t_offset`
  grab : (t_offset : ℕ) → Pc
  -- the `for` loop at `b_i`, to `end_b_i`
  chunk : (t_offset b_i end_b_i : ℕ) → Pc
  finished : Pc

-- `work(id)`, then `work((id + t_offset) % ranges.size())`
abbrev pub target : Job → ℕ → ℕ → ℕ
target job id zero = id
target job id (suc t_offset) = (id + suc t_offset) % job.size

-- `if (end_b_i > ranges[t_i].e) end_b_i = ranges[t_i].e`
abbrev pub clip : ℕ → ℕ → ℕ
clip end_b_i e = if ltb e end_b_i then e else end_b_i

-- `t_offset++` and the test of the `for`
abbrev pub next_target : Job → ℕ → Pc
next_target job t_offset = if ltb (suc t_offset) job.size then grab (suc t_offset) else finished

-- One step of worker `id`.
unfoldable pub step : Job → ℕ → Shared → Pc → Shared × Pc
step job id m (grab t_offset) =
    let t_i = target job id t_offset in
    let b_i = m.b t_i in
    let m' = record m { b = update m.b t_i (add_size b_i job.chunk_size) } in
    if leb (job.e t_i) b_i
    then (m', next_target job t_offset)
    else (m', chunk t_offset b_i (clip (add_size b_i job.chunk_size) (job.e t_i)))
step job id m (chunk t_offset b_i end_b_i) =
    if ltb b_i end_b_i
    then (record m { calls = b_i ∷ m.calls }, chunk t_offset (add_size b_i 1) end_b_i)
    else (m, grab t_offset)
step job id m finished = (m, finished)

-- The workers of a gang, which step in any order.
pub record System : Type 0 where
  pub mem : Shared
  pub pc : ℕ → Pc

unfoldable pub start : (ℕ → ℕ) → System
start b = record { mem = record { b = b; calls = [] }; pc = λ _. grab 0 }

unfoldable pub turn : Job → System → ℕ → System
unfolding step
turn job s id =
    let (m, p) = step job id s.mem (s.pc id) in record { mem = m; pc = update s.pc id p }

-- A schedule names the worker of each step; a number that is no worker's is passed over.
unfoldable pub run : Job → ℕ → System → List ℕ → System
unfolding turn
run job workers s [] = s
run job workers s (id ∷ ids) = run job workers (if ltb id workers then turn job s id else s) ids

-- `run` without work stealing: the calls of worker `id`, with `e - b` rounds.
pub run_own : ℕ → ℕ → List ℕ
run_own zero i = []
run_own (suc left) i = i ∷ run_own left (add_size i 1)
