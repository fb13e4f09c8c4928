-- ===== src/Gang/Submit.antt =====
-- `Gang::submit` and `TasksImpl::run` together: the ranges of a plan as the shared counters.
pub mod Total
use network_demo.Base.{ℕ, zero, suc, List, [], ◌∷◌, length}
use network_demo.Gang.Partition.{Range}
use network_demo.Gang.Steal.{Job}

-- `ranges[u].b` and `ranges[u].e`; past the vector, where nothing looks, they are 0.
unfoldable pub begin_of : List Range → ℕ → ℕ
begin_of [] u = 0
begin_of (r ∷ rs) zero = r.b
begin_of (r ∷ rs) (suc u) = begin_of rs u

unfoldable pub end_of : List Range → ℕ → ℕ
end_of [] u = 0
end_of (r ∷ rs) zero = r.e
end_of (r ∷ rs) (suc u) = end_of rs u

-- The `TasksImpl` that `submit` makes.
abbrev pub tasks : List Range → ℕ → Job
tasks rs granular = record { size = length rs; e = end_of rs; chunk_size = granular }
