-- ===== src/Gang/Steal/Claims.antt =====
-- Every index of the ranges is claimed by one worker, whatever the order of their steps.
use network_demo.Base.{
  ℕ, ◌+◌, ◌^◌, ◌≤◌, ◌<◌, ◌≡◌, ◌≢◌, List, [], ◌∷◌, ltb, leb, ◌==◌, if◌then◌else◌, arith, ◌⊎◌, inl,
  inr,
}
use network_demo.Base.Words.{add_size}
use network_demo.Base.Family.{total}
use network_demo.Gang.Steal.{Job, Shared, Pc, grab, chunk, finished, target, step, System}

-- How often `f` was called at `i`.
unfoldable pub count : ℕ → List ℕ → ℕ
count i [] = 0
count i (j ∷ js) = (if j == i then 1 else 0) + count i js

-- The calls at `i` that a worker has taken on and not made.
abbrev pub pending : ℕ → Pc → ℕ
pending i (chunk t_offset b_i end_b_i) = if leb b_i i then if ltb i end_b_i then 1 else 0 else 0
pending i _ = 0

-- The targets that a worker has left behind.
abbrev pub passed : Job → Pc → ℕ
passed job (grab t_offset) = t_offset
passed job (chunk t_offset b_i end_b_i) = t_offset
passed job finished = job.size

-- The claims at `i`: calls made, and calls taken on.
abbrev pub claims : ℕ → ℕ → System → ℕ
claims workers i s = count i s.mem.calls + total workers (λ id. pending i (s.pc id))

abbrev pub left_behind : Job → ℕ → System → ℕ
left_behind job workers s = total workers (λ id. passed job (s.pc id))

-- Whether the counter of range `t` has gone past `i`.
abbrev pub seen : ℕ → ℕ → Shared → ℕ
seen t i m = if ltb i (m.b t) then 1 else 0

module _ (job : Job) (id : ℕ) (m : Shared) (t i : ℕ) where
  -- A grab claims `i` exactly if it takes the counter of the range of `i` past it.
  pub grab_claims :
      (o low : ℕ)
      → add_size (m.b (target job id o)) job.chunk_size ≡ m.b (target job id o) + job.chunk_size
      → low ≤ m.b (target job id o)
      → (target job id o ≡ t)
        ⊎ ((target job id o ≢ t) × ((i < low) ⊎ (job.e (target job id o) ≤ i)))
      → i < job.e t
      → count i (step job id m (grab o)).0.calls + pending i (step job id m (grab o)).1 + seen t i m
        ≡ count i m.calls + seen t i (step job id m (grab o)).0
  unfolding step
  grab_claims o low no_wrap above (inl same) inside = ground arith
  grab_claims o low no_wrap above (inr (ne, apart)) inside = ground arith

  pub chunk_claims :
      (o b_i end_b_i : ℕ)
      → end_b_i < 2 ^ 64
      → count i (step job id m (chunk o b_i end_b_i)).0.calls
          + pending i (step job id m (chunk o b_i end_b_i)).1
          + seen t i m
        ≡ count i m.calls
          + pending i (chunk o b_i end_b_i)
          + seen t i (step job id m (chunk o b_i end_b_i)).0
  unfolding step count
  chunk_claims o b_i end_b_i small = ground arith

module _ (job : Job) (id : ℕ) (m : Shared) (i : ℕ) where
  -- A grab claims nothing outside the range that it takes from.
  pub grab_outside :
      (o low : ℕ)
      → low ≤ m.b (target job id o)
      → (i < low) ⊎ (job.e (target job id o) ≤ i)
      → count i (step job id m (grab o)).0.calls + pending i (step job id m (grab o)).1
        ≡ count i m.calls
  unfolding step
  grab_outside o low above (inl before) = ground arith
  grab_outside o low above (inr after) = ground arith

  pub chunk_outside :
      (o b_i end_b_i : ℕ)
      → end_b_i < 2 ^ 64
      → count i (step job id m (chunk o b_i end_b_i)).0.calls
          + pending i (step job id m (chunk o b_i end_b_i)).1
        ≡ count i m.calls + pending i (chunk o b_i end_b_i)
  unfolding step count
  chunk_outside o b_i end_b_i small = ground arith
