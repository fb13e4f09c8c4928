-- ===== src/Gang/Reduce.antt =====
-- `GangUtil::reduceSerial` and `GangUtil::reduce`.
pub mod Laws
use network_demo.Base.{
  ℕ, zero, suc, ◌+◌, List, [], ◌∷◌, Option, none, some, leb, if◌then◌else◌, length, replicate,
}
use network_demo.Gang.Blocks.{num_blocks, block, fill}

module _ {ℓ} {A : Type ℓ} where
  -- `r = zero; for (...) r = f(r, arr[i])`
  unfoldable pub reduce_serial : (A → A → A) → A → List A → A
  reduce_serial f r [] = r
  reduce_serial f r (x ∷ arr) = reduce_serial f (f r x) arr

  -- `reduce`, with a bound on the depth of its recursion; `none` says that it is used up. The
  -- schedule gives, for each number of blocks, the order in which the gang makes the calls.
  pub reduce : (ℕ → List ℕ) → ℕ → (A → A → A) → A → List A → Option A
  reduce schedule zero f zero_value arr = none
  reduce schedule (suc fuel) f zero_value arr =
      let nb = num_blocks (length arr) in
      let sums =
        fill (schedule nb) (λ j. reduce_serial f zero_value (block arr nb j))
          (replicate nb zero_value) in
      let rest = reduce schedule fuel f zero_value sums in
      if leb nb 1 then some (reduce_serial f zero_value arr) else rest
