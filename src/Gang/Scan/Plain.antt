-- ===== src/Gang/Scan/Plain.antt =====
-- Scans whose input, output and first value are of one type, to which the scans of Gang.h are
-- reduced: serial ones, in both directions, and the one by blocks.
use network_demo.Base.{
  ℕ, zero, suc, List, [], ◌∷◌, Bool, false, Option, none, some, leb, if◌then◌else◌, length,
  replicate, get_or,
}
use network_demo.Gang.Blocks.{num_blocks, block, fill}
use network_demo.Gang.Reduce.{reduce_serial}
use network_demo.Gang.Scan.{join_blocks}

module _ {ℓ} {A : Type ℓ} where
  unfoldable pub plain_up : (A → A → A) → Bool → A → List A → List A × A
  plain_up f inclusive r [] = ([], r)
  plain_up f inclusive r (x ∷ xs) =
      let (out, last) = plain_up f inclusive (f r x) xs in
      ((if inclusive then f r x else r) ∷ out, last)

  unfoldable pub plain_down : (A → A → A) → Bool → A → List A → List A × A
  plain_down f inclusive r [] = ([], r)
  plain_down f inclusive r (x ∷ xs) =
      let (out, s) = plain_down f inclusive r xs in ((if inclusive then f s x else s) ∷ out, f s x)

  unfoldable pub plain_serial : (A → A → A) → Bool → Bool → A → List A → List A × A
  plain_serial f inclusive back zero_value xs =
      if back then plain_down f inclusive zero_value xs else plain_up f inclusive zero_value xs

  unfoldable pub plain_scan :
      (ℕ → List ℕ) → ℕ → (A → A → A) → A → Bool → Bool → A → List A → Option (List A × A)
  plain_scan schedule zero f null inclusive back zero_value xs = none
  plain_scan schedule (suc fuel) f null inclusive back zero_value xs =
      let nb = num_blocks (length xs) in
      let sums =
        fill (schedule nb) (λ j. reduce_serial f null (block xs nb j)) (replicate nb null) in
      let rest : Option (List A × A) =
        elim (plain_scan schedule fuel f null false back zero_value sums) [
          | none ↦ none
          | some (offsets, total) ↦ some (
            join_blocks (
                fill (schedule nb)
                  (λ j. (plain_serial f inclusive back (get_or offsets j null) (block xs nb j)).0)
                  (replicate nb [])),
            total,
          )
        ] in
      if leb nb 1 then some (plain_serial f inclusive back zero_value xs) else rest
