-- ===== src/Gang/Scan/Forward.antt =====
-- Scanning the blocks from the scan of their sums is scanning the array, from the front.
use network_demo.Base.{
  ℕ, zero, suc, ◌+◌, ◌≡◌, refl, List, [], ◌∷◌, ◌++◌, Bool, false, length, drop, arith, ap, ◌∙◌, sym,
}
use network_demo.Gang.Blocks.{block_begin, block}
use network_demo.Gang.Blocks.Laws.{tabulate, zip_from, drop_all, FitsBlocks, block-append-drop}
use network_demo.Gang.Reduce.{reduce_serial}
use network_demo.Gang.Scan.{join_blocks}
use network_demo.Gang.Scan.Plain.{plain_up}

module _ {ℓ} {A : Type ℓ} (f : A → A → A) (inclusive : Bool) where
  plain_up-append :
      (r : A) (xs ys : List A)
      → plain_up f inclusive r (xs ++ ys) ≡ (
        (plain_up f inclusive r xs).0 ++ (plain_up f inclusive (plain_up f inclusive r xs).1 ys).0,
        (plain_up f inclusive (plain_up f inclusive r xs).1 ys).1,
      )
  unfolding plain_up
  plain_up-append r [] ys = refl
  plain_up-append r (x ∷ xs) ys = rw (plain_up-append (f r x) xs ys) refl

  -- The value that is returned is the reduction.
  pub plain_up-reduce : (r : A) (xs : List A) → (plain_up f inclusive r xs).1 ≡ reduce_serial f r xs
  unfolding plain_up reduce_serial
  plain_up-reduce r [] = refl
  plain_up-reduce r (x ∷ xs) = plain_up-reduce (f r x) xs

  pub length-plain_up : (r : A) (xs : List A) → length (plain_up f inclusive r xs).0 ≡ length xs
  unfolding plain_up
  length-plain_up r [] = refl
  length-plain_up r (x ∷ xs) = ap suc (length-plain_up (f r x) xs)

module _ {ℓ} {A : Type ℓ} (f : A → A → A) (inclusive : Bool) (g : List A → A) (xs : List A) (nb : ℕ)
    (absorb : (r : A) (ys : List A) → f r (g ys) ≡ reduce_serial f r ys)
    (fits : FitsBlocks (length xs) nb) where
  pub plain_up-blocks :
      (k j : ℕ) (r : A)
      → j + k ≡ nb
      → (join_blocks (
            zip_from
              (λ s i. (plain_up f inclusive s (block xs nb i)).0)
              (plain_up f false r (tabulate k j (λ i. g (block xs nb i)))).0
              j)
          ≡ (plain_up f inclusive r (drop (block_begin j) xs)).0)
        × ((plain_up f false r (tabulate k j (λ i. g (block xs nb i)))).1
            ≡ (plain_up f inclusive r (drop (block_begin j) xs)).1)
  unfolding plain_up join_blocks
  plain_up-blocks zero j r e =
      let none_left : drop (block_begin j) xs ≡ [] = drop_all (block_begin j) xs (omega arith) in
      rw none_left (refl, refl)
  plain_up-blocks (suc k) j r e =
      let (outs, last) = plain_up-blocks k (suc j) (f r (g (block xs nb j))) (omega arith) in
      let here = plain_up-append f inclusive r (block xs nb j) (drop (block_begin (suc j)) xs) in
      let step : f r (g (block xs nb j)) ≡ (plain_up f inclusive r (block xs nb j)).1 =
        absorb r (block xs nb j) ∙ sym (plain_up-reduce f inclusive r (block xs nb j)) in
      rw (← block-append-drop xs nb j fits (omega arith), here, ← step, outs, last) (refl, refl)
