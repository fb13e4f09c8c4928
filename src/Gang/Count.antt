-- ===== src/Gang/Count.antt =====
-- `GangUtil::countSerial` and `GangUtil::count`. A `bool` in memory is the byte 0 or 1.
pub mod Lanes
pub mod Laws
use network_demo.Base.{
  ℕ, zero, suc, ◌+◌, ◌-◌, ◌*◌, ◌/◌, ◌%◌, ◌^◌, List, [], ◌∷◌, Bool, ◌&&◌, ◌==◌, leb, if◌then◌else◌,
  length, take, drop, replicate,
}
use network_demo.Gang.Blocks.{num_blocks, block_begin, block, fill}
use network_demo.Gang.Reduce.{reduce_serial}

-- `countSerial(T* in, n)` at an unsigned `T` of `w` bits: the mark `(T)-1` is `2 ^ w - 1`, and the sum
-- is of type `T`, and wraps at `2 ^ w`. A signed `T` is not modelled.
pub count_serial : ℕ → List ℕ → ℕ
count_serial w xs = reduce_serial (λ a b. (a + (if b == 2 ^ w - 1 then 0 else 1)) % 2 ^ w) 0 xs

-- The word that `k` bytes make up, the first byte lowest.
pub little_endian : ℕ → List ℕ → ℕ
little_endian zero bytes = 0
little_endian (suc k) [] = 0
little_endian (suc k) (x ∷ bytes) = x + 256 * little_endian k bytes

-- `for (j = 0; j < left; j++) rr += pi[j]` over words of `k` bytes, which wraps at `256 ^ k`.
pub sum_words : ℕ → ℕ → List ℕ → ℕ → ℕ
sum_words k zero bytes rr = rr
sum_words k (suc left) bytes rr =
    sum_words k left (drop k bytes) ((rr + little_endian k bytes) % 256 ^ k)

-- `(rr & 255) + ((rr >> 8) & 255) + ...`, over `k` bytes of `rr`.
pub lane_sum : ℕ → ℕ → ℕ
lane_sum zero rr = 0
lane_sum (suc k) rr = rr % 256 + lane_sum k (rr / 256)

-- The loop over groups of 128 words.
pub sum_groups : ℕ → ℕ → List ℕ → ℕ → ℕ
sum_groups k zero bytes r = r
sum_groups k (suc left) bytes r =
    sum_groups k left (drop (128 * k) bytes) (r + lane_sum k (sum_words k 128 bytes 0))

pub sum_bytes : List ℕ → ℕ → ℕ
sum_bytes [] r = r
sum_bytes (x ∷ bytes) r = sum_bytes bytes (r + x)

-- `countSerial(bool* in, n)`, for an array at the address `addr`.
pub count_bools : ℕ → List ℕ → ℕ
count_bools addr bytes =
    let n = length bytes in
    if n % 1024 == 0 && addr % 8 == 0
    then sum_groups 8 (n / 1024) bytes 0
    else if n % 512 == 0 && addr % 4 == 0
    then sum_groups 4 (n / 512) bytes 0
    else if n % 256 == 0 && addr % 2 == 0
    then sum_groups 2 (n / 256) bytes 0
    else sum_bytes bytes 0

-- `count`, over the `countSerial` of the element type for each block or the whole
-- array, which is given where the block begins.
pub count_blocks : (ℕ → List ℕ) → (ℕ → List ℕ → ℕ) → List ℕ → ℕ
count_blocks schedule serial xs =
    let nb = num_blocks (length xs) in
    let sums = fill (schedule nb) (λ j. serial (block_begin j) (block xs nb j)) (replicate nb 0) in
    if leb nb 1 then serial 0 xs else reduce_serial (λ a b. (a + b) % 2 ^ 64) 0 sums
