-- ===== src/Gang/Blocks.antt =====
-- How `GangUtil` cuts an array into blocks of `BLOCK_SIZE`, and how the calls of a parallel loop
-- fill an array: one write for each call, in the order in which the gang made the calls.
pub mod Laws
use network_demo.Base.{
  ℕ, zero, suc, ◌+◌, ◌-◌, ◌*◌, ◌/◌, Bool, List, [], ◌∷◌, ◌==◌, if◌then◌else◌, length, take, drop,
  set,
}
use network_demo.Base.Words.{add_size, sub_size}

abbrev pub block_size : ℕ
block_size = 2048

-- `(n + BLOCK_SIZE - 1) / BLOCK_SIZE`
abbrev pub num_blocks : ℕ → ℕ
num_blocks n = sub_size (add_size n block_size) 1 / block_size

-- Where block `j` begins, and its length: the last block has what is left.
abbrev pub block_begin : ℕ → ℕ
block_begin j = j * block_size

abbrev pub block_len : ℕ → ℕ → ℕ → ℕ
block_len n nb j = if j == nb - 1 then n - block_begin j else block_size

-- Block `j` of an array that is cut into `nb` blocks.
unfoldable pub block {ℓ} : {A : Type ℓ} → List A → ℕ → ℕ → List A
block arr nb j = take (block_len (length arr) nb j) (drop (block_begin j) arr)

-- `groupSubmit(nb, [&](size_t j) { sums[j] = body(j); })`, the calls made in the order given.
pub fill {ℓ} : {A : Type ℓ} → List ℕ → (ℕ → A) → List A → List A
fill [] body sums = sums
fill (j ∷ js) body sums = fill js body (set sums j (body j))
