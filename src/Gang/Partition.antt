-- ===== src/Gang/Partition.antt =====
-- How `Gang::submit` cuts `[start, end)` into one range per worker.
pub mod Laws
use network_demo.Base.{
  ℕ, zero, suc, ◌/◌, ◌%◌, Bool, List, [], ◌∷◌, ltb, ◌==◌, if◌then◌else◌, replicate,
}
use network_demo.Base.Words.{add_size, sub_size}

-- `Range`, without its padding.
pub record Range : Type 0 where
  pub b : ℕ
  pub e : ℕ

-- `std::min` on `size_t`.
abbrev pub min_size : ℕ → ℕ → ℕ
min_size a b = if ltb b a then b else a

-- `for (auto i = 0u; i < m; ++i) sz[i]++`
unfoldable pub bump_first : ℕ → List ℕ → List ℕ
bump_first zero sz = sz
bump_first (suc m) [] = []
bump_first (suc m) (s ∷ sz) = add_size s 1 ∷ bump_first m sz

-- The loop that turns the sizes into consecutive ranges.
unfoldable pub lay_out : ℕ → List ℕ → List Range
lay_out b [] = []
lay_out b (s ∷ sz) = record { b = b; e = add_size b s } ∷ lay_out (add_size b s) sz

-- The number of workers that share `count` indices.
unfoldable pub share_count : ℕ → ℕ → ℕ → ℕ
share_count count granular num = min_size (sub_size (add_size count granular) 1 / granular) num

-- The ranges of `n` workers over `count` indices from `start` on.
unfoldable pub cut : ℕ → ℕ → ℕ → List Range
cut start count n = lay_out start (bump_first (count % n) (replicate n (count / n)))

-- What a `submit` does once the ranges are known.
pub data Plan : Type 0 where
  nothing : Plan
  -- `tasks->run(0)` in the calling thread
  alone : List Range → Plan
  -- `reinit(n)` and `run_main()`
  crew : ℕ → List Range → Plan

unfoldable pub dispatch : ℕ → List Range → Plan
dispatch n ranges = if n == 0 then nothing else if n == 1 then alone ranges else crew n ranges

-- `submit(end, f, granular, worksteal)` in a gang of `num` threads.
pub submit_to : ℕ → ℕ → ℕ → Plan
unfolding dispatch share_count
submit_to num end granular = let n = share_count end granular num in dispatch n (cut 0 end n)

-- `submit(start, end, f, granular, worksteal)`
unfoldable pub submit : ℕ → ℕ → ℕ → ℕ → Plan
unfolding dispatch share_count
submit num start end granular =
    let count = sub_size end start in
    let n = share_count count granular num in dispatch n (cut start count n)
