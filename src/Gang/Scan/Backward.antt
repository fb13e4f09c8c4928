-- ===== src/Gang/Scan/Backward.antt =====
-- The same from the back, for an operation that commutes.
use network_demo.Base.{
  ℕ, zero, suc, ◌+◌, ◌≡◌, refl, List, [], ◌∷◌, ◌++◌, Bool, false, length, drop, arith, ap, ◌∙◌, sym,
}
use network_demo.Gang.Blocks.{block_begin, block}
use network_demo.Gang.Blocks.Laws.{tabulate, zip_from, drop_all, FitsBlocks, block-append-drop}
use network_demo.Gang.Reduce.{reduce_serial}
use network_demo.Gang.Reduce.Laws.{IsMonoid, reduce_serial_from}
use network_demo.Gang.Scan.{join_blocks}
use network_demo.Gang.Scan.Plain.{plain_down}

module _ {ℓ} {A : Type ℓ} (f : A → A → A) (inclusive : Bool) where
  plain_down-append :
      (r : A) (xs ys : List A)
      → plain_down f inclusive r (xs ++ ys) ≡ (
        (plain_down f inclusive (plain_down f inclusive r ys).1 xs).0
            ++ (plain_down f inclusive r ys).0,
        (plain_down f inclusive (plain_down f inclusive r ys).1 xs).1,
      )
  unfolding plain_down
  plain_down-append r [] ys = refl
  plain_down-append r (x ∷ xs) ys = rw (plain_down-append r xs ys) refl

  pub length-plain_down : (r : A) (xs : List A) → length (plain_down f inclusive r xs).0 ≡ length xs
  unfolding plain_down
  length-plain_down r [] = refl
  length-plain_down r (x ∷ xs) = ap suc (length-plain_down r xs)

  -- The value that is returned is the reduction, if the order does not matter.
  pub plain_down-reduce :
      (null : A)
      → IsMonoid f null
      → ((x y : A) → f x y ≡ f y x)
      → (r : A) (xs : List A) → (plain_down f inclusive r xs).1 ≡ f r (reduce_serial f null xs)
  unfolding plain_down reduce_serial
  plain_down-reduce null laws comm r [] = sym (laws.right r)
  plain_down-reduce null laws comm r (x ∷ xs) =
      let first : reduce_serial f (f null x) xs ≡ f x (reduce_serial f null xs) =
        ap (λ s. reduce_serial f s xs) (laws.left x ∙ sym (laws.right x))
        ∙ sym (reduce_serial_from f laws.assoc x null xs) in
      ap (λ s. f s x) (plain_down-reduce null laws comm r xs)
      ∙ laws.assoc r (reduce_serial f null xs) x
      ∙ ap (f r) (comm (reduce_serial f null xs) x ∙ sym first)

module _ {ℓ} {A : Type ℓ} (f : A → A → A) (inclusive : Bool) (g : List A → A) (xs : List A) (nb : ℕ)
    (absorb : (r : A) (ys : List A) → (plain_down f inclusive r ys).1 ≡ f r (g ys))
    (fits : FitsBlocks (length xs) nb) where
  pub plain_down-blocks :
      (k j : ℕ) (r : A)
      → j + k ≡ nb
      → (join_blocks (
            zip_from
              (λ s i. (plain_down f inclusive s (block xs nb i)).0)
              (plain_down f false r (tabulate k j (λ i. g (block xs nb i)))).0
              j)
          ≡ (plain_down f inclusive r (drop (block_begin j) xs)).0)
        × ((plain_down f false r (tabulate k j (λ i. g (block xs nb i)))).1
            ≡ (plain_down f inclusive r (drop (block_begin j) xs)).1)
  unfolding plain_down join_blocks
  plain_down-blocks zero j r e =
      let none_left : drop (block_begin j) xs ≡ [] = drop_all (block_begin j) xs (omega arith) in
      rw none_left (refl, refl)
  plain_down-blocks (suc k) j r e =
      let (outs, last) = plain_down-blocks k (suc j) r (omega arith) in
      let here = plain_down-append f inclusive r (block xs nb j) (drop (block_begin (suc j)) xs) in
      rw (← block-append-drop xs nb j fits (omega arith), here, outs, last)
        (refl, sym (absorb _ (block xs nb j)))
