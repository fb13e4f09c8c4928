-- ===== src/Gang/Scan/OneType.antt =====
-- With one type, the scan by blocks is the serial one.
use network_demo.Base.{
  ℕ, zero, suc, ◌+◌, ◌-◌, ◌/◌, ◌^◌, ◌<◌, ◌≡◌, refl, List, [], Bool, true, false, Option, some, leb,
  length, replicate, length-replicate, get_or, arith, ap, ap₂, ◌∙◌, Bool-cases, inl, inr,
}
use network_demo.Gang.Blocks.{block_size, num_blocks, block, fill}
use network_demo.Gang.Blocks.Laws.{
  tabulate, length-tabulate, tabulate-zip_from, zip_from, Visits, fill-tabulate, num_blocks_eq,
  FitsBlocks, tabulate_ext,
}
use network_demo.Gang.Reduce.{reduce_serial}
use network_demo.Gang.Reduce.Laws.{IsMonoid, reduce_serial_from, FitsBlocks-num_blocks}
use network_demo.Gang.Scan.{join_blocks}
use network_demo.Gang.Scan.Plain.{plain_serial, plain_scan}
use network_demo.Gang.Scan.Forward.{length-plain_up, plain_up-blocks}
use network_demo.Gang.Scan.Backward.{length-plain_down, plain_down-reduce, plain_down-blocks}

-- From the back the order of the operands changes, so the operation has to commute.
abbrev pub CommutesIf {ℓ} : {A : Type ℓ} → Bool → (A → A → A) → Type ℓ
CommutesIf true f = (x y : _) → f x y ≡ f y x
CommutesIf false f = Unit

length-plain_serial {ℓ} :
    {A : Type ℓ} (f : A → A → A) (inclusive back : Bool) (r : A) (xs : List A)
    → length (plain_serial f inclusive back r xs).0 ≡ length xs
unfolding plain_serial
length-plain_serial f inclusive true r xs = length-plain_down f inclusive r xs
length-plain_serial f inclusive false r xs = length-plain_up f inclusive r xs

plain_serial-blocks {ℓ} :
    {A : Type ℓ} (f : A → A → A) (null : A) (inclusive back : Bool) (r : A) (xs : List A) (nb : ℕ)
    → IsMonoid f null
    → CommutesIf back f
    → FitsBlocks (length xs) nb
    → (join_blocks (
          zip_from
            (λ s i. (plain_serial f inclusive back s (block xs nb i)).0)
            (plain_serial f false back r
              (tabulate nb 0 (λ i. reduce_serial f null (block xs nb i)))).0
            0)
        ≡ (plain_serial f inclusive back r xs).0)
      × ((plain_serial f false back r (tabulate nb 0 (λ i. reduce_serial f null (block xs nb i)))).1
          ≡ (plain_serial f inclusive back r xs).1)
unfolding plain_serial
plain_serial-blocks f null inclusive true r xs nb laws comm fits =
    plain_down-blocks f inclusive (reduce_serial f null) xs nb
      (plain_down-reduce f inclusive null laws comm) fits nb 0 r (omega arith)
plain_serial-blocks f null inclusive false r xs nb laws comm fits =
    plain_up-blocks f inclusive (reduce_serial f null) xs nb
      (λ s ys.
        reduce_serial_from f laws.assoc s null ys ∙ ap (λ t. reduce_serial f t ys) (laws.right s))
      fits nb 0 r (omega arith)

module _ {ℓ} {A : Type ℓ} (schedule : ℕ → List ℕ) (f : A → A → A) (null : A)
    (visits : (nb : ℕ) → Visits nb (schedule nb)) (laws : IsMonoid f null) where
  -- A depth above the length suffices.
  pub plain_scan-plain_serial :
      (fuel : ℕ) (inclusive back : Bool) (r : A) (xs : List A)
      → CommutesIf back f
      → length xs < fuel
      → length xs + block_size < 2 ^ 64
      → plain_scan schedule fuel f null inclusive back r xs
        ≡ some (plain_serial f inclusive back r xs)
  unfolding plain_scan
  plain_scan-plain_serial zero inclusive back r xs comm deep small = absurd (omega arith)
  plain_scan-plain_serial (suc fuel) inclusive back r xs comm deep small =
      let nb : ℕ = num_blocks (length xs) in
      elim (Bool-cases (leb nb 1)) [
        | inl one ↦ rw one refl
        | inr many ↦
            let body : ℕ → A = λ j. reduce_serial f null (block xs nb j) in
            let sums : fill (schedule nb) body (replicate nb null) ≡ tabulate nb 0 body =
              fill-tabulate nb (schedule nb) body (replicate nb null) (length-replicate nb null)
                (visits nb) in
            let len : length (tabulate nb 0 body) ≡ nb = length-tabulate nb 0 body in
            let size : nb ≡ (length xs + 2047) / 2048 = num_blocks_eq (length xs) small in
            let above : 1 < nb = ground arith in
            let inner : plain_scan schedule fuel f null false back r (tabulate nb 0 body)
                ≡ some (plain_serial f false back r (tabulate nb 0 body)) =
              plain_scan-plain_serial fuel false back r (tabulate nb 0 body) comm (omega arith)
                (omega arith) in
            let offsets : List A = (plain_serial f false back r (tabulate nb 0 body)).0 in
            let write : ℕ → List A =
              λ j. (plain_serial f inclusive back (get_or offsets j null) (block xs nb j)).0 in
            let outs : fill (schedule nb) write (replicate nb []) ≡ tabulate nb 0 write =
              fill-tabulate nb (schedule nb) write (replicate nb []) (length-replicate nb [])
                (visits nb) in
            let zipped =
              tabulate-zip_from (λ s i. (plain_serial f inclusive back s (block xs nb i)).0) null
                offsets nb 0 (length-plain_serial f false back r (tabulate nb 0 body) ∙ len) in
            let (all, total) =
              plain_serial-blocks f null inclusive back r xs nb laws comm
                (FitsBlocks-num_blocks (length xs) small) in
            let out : join_blocks (tabulate nb 0 write) ≡ (plain_serial f inclusive back r xs).0 =
              ap join_blocks (
                tabulate_ext nb 0 write
                  (λ i.
                    (plain_serial f inclusive back (get_or offsets (i - 0) null) (block xs nb i)).0)
                  (λ i lo hi. let same : i - 0 ≡ i = omega arith in rw same refl)
                ∙ zipped)
              ∙ all in
            rw (many, sums, inner, outs)
              (ap₂ {C = Option (List A × A)} (λ a b. some (a, b)) out total)
      ]
