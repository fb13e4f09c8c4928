-- ===== src/Gang/Scan.antt =====
-- `GangUtil::scanSerial` and `GangUtil::scan`: prefix results of an array in either direction. Input,
-- output and first value have types of their own.
pub mod Plain
pub mod Forward
pub mod Backward
pub mod OneType
pub mod Laws
use network_demo.Base.{
  ℕ, zero, suc, ◌++◌, List, [], ◌∷◌, Bool, true, false, Option, none, some, leb, if◌then◌else◌,
  length, replicate, get_or,
}
use network_demo.Gang.Blocks.{num_blocks, block, fill}
use network_demo.Gang.Reduce.{reduce_serial}

module _ {ℓ} {T U Z : Type ℓ} where
  -- What `scanSerial` leaves in `out`, from the first element to the last, and `r` at the end: `f` is
  -- called at `r`, which has the type of the first value, and converted to that type; what is written
  -- is converted to the type of `out`.
  pub scan_up : (f : Z → U → Z) (convert : Z → T) → Bool → Z → List U → List T × Z
  scan_up f convert inclusive r [] = ([], r)
  scan_up f convert inclusive r (x ∷ xs) =
      let (out, last) = scan_up f convert inclusive (f r x) xs in
      (convert (if inclusive then f r x else r) ∷ out, last)

  -- The same from the last element to the first.
  pub scan_down : (f : Z → U → Z) (convert : Z → T) → Bool → Z → List U → List T × Z
  scan_down f convert inclusive r [] = ([], r)
  scan_down f convert inclusive r (x ∷ xs) =
      let (out, s) = scan_down f convert inclusive r xs in
      (convert (if inclusive then f s x else s) ∷ out, f s x)

  pub scan_serial : (Z → U → Z) → (Z → T) → Bool → Bool → Z → List U → List T × T
  unfolding scan_up scan_down
  scan_serial f convert inclusive back zero_value xs =
      let (out, r) =
        if back
        then scan_down f convert inclusive zero_value xs
        else scan_up f convert inclusive zero_value xs in
      (out, convert r)

unfoldable pub join_blocks {ℓ} : {A : Type ℓ} → List (List A) → List A
join_blocks [] = []
join_blocks (b ∷ bs) = b ++ join_blocks bs

-- The functor of a scan at the types that it is called with, what it gives converted to the type of
-- its first argument; `(U)0`; and the conversions to the type of `out`.
pub record Operation {ℓ} (T U Z : Type ℓ) : Type ℓ where
  pub at_first : Z → U → Z
  pub at_out : T → U → T
  pub at_in : U → U → U
  pub null : U
  pub from_first : Z → T
  pub from_in : U → T

-- `scan`, with a bound on the depth of its recursion. The sums of the blocks are taken in the type of
-- the input, from `(U)0`; the scan of the sums has the type of the output for its input, where the
-- functor is `again`. Every call of the last loop writes its own block of `out`.
pub scan {ℓ} :
    {T U Z : Type ℓ} (schedule : ℕ → List ℕ) (fuel : ℕ) (op : Operation T U Z)
    (again : Operation T T Z) (inclusive back : Bool)
    → Z
    → List U
    → Option (List T × T)
unfolding scan_serial
scan schedule zero op again inclusive back zero_value xs = none
scan {T = T} schedule (suc fuel) op again inclusive back zero_value xs =
    let nb = num_blocks (length xs) in
    let sums =
      fill (schedule nb) (λ j. op.from_in (reduce_serial op.at_in op.null (block xs nb j)))
        (replicate nb (op.from_in op.null)) in
    let rest : Option (List T × T) =
      elim (scan schedule fuel again again false back zero_value sums) [
        | none ↦ none
        | some (offsets, total) ↦ some (
          join_blocks (
              fill (schedule nb)
                (λ j.
                  (scan_serial op.at_out (λ t. t) inclusive back
                    (get_or offsets j (op.from_in op.null)) (block xs nb j)).0)
                (replicate nb [])),
          total,
        )
      ] in
    if leb nb 1
    then some (scan_serial op.at_first op.from_first inclusive back zero_value xs)
    else rest
