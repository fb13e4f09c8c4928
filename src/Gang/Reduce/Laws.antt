-- ===== src/Gang/Reduce/Laws.antt =====
-- The parallel reduction is the serial one.
use network_demo.Base.{
  ℕ, zero, suc, ◌+◌, ◌/◌, ◌^◌, ◌<◌, ◌≡◌, refl, List, [], ◌∷◌, ◌++◌, some, leb, length, drop,
  replicate, length-replicate, arith, ap, ◌∙◌, sym, Bool-cases, inl, inr,
}
use network_demo.Gang.Blocks.{block_size, num_blocks, block_begin, block, fill}
use network_demo.Gang.Blocks.Laws.{
  tabulate, length-tabulate, Visits, fill-tabulate, num_blocks_eq, drop_all, FitsBlocks,
  block-append-drop,
}
use network_demo.Gang.Reduce.{reduce_serial, reduce}

-- `f` with `unit` is associative, and `unit` does nothing on either side.
pub record IsMonoid {ℓ} {A : Type ℓ} (f : A → A → A) (unit : A) : Type ℓ where
  pub assoc : (x y z : A) → f (f x y) z ≡ f x (f y z)
  pub left : (x : A) → f unit x ≡ x
  pub right : (x : A) → f x unit ≡ x

pub reduce_serial-append {ℓ} :
    {A : Type ℓ} (f : A → A → A) (r : A) (xs ys : List A)
    → reduce_serial f r (xs ++ ys) ≡ reduce_serial f (reduce_serial f r xs) ys
unfolding reduce_serial
reduce_serial-append f r [] ys = refl
reduce_serial-append f r (x ∷ xs) ys = reduce_serial-append f (f r x) xs ys

pub FitsBlocks-num_blocks : (n : ℕ) → n + block_size < 2 ^ 64 → FitsBlocks n (num_blocks n)
FitsBlocks-num_blocks n small = omega (arith, num_blocks_eq n small)

module _ {ℓ} {A : Type ℓ} (f : A → A → A) where
  -- A reduction can start anywhere, if the operation is associative.
  pub reduce_serial_from :
      ((x y z : A) → f (f x y) z ≡ f x (f y z))
      → (r s : A) (xs : List A) → f r (reduce_serial f s xs) ≡ reduce_serial f (f r s) xs
  unfolding reduce_serial
  reduce_serial_from assoc r s [] = refl
  reduce_serial_from assoc r s (x ∷ xs) =
      reduce_serial_from assoc r (f s x) xs ∙ ap (λ t. reduce_serial f t xs) (sym (assoc r s x))

  -- Reducing the sums of the blocks is reducing the array.
  pub reduce_serial-blocks :
      (g : List A → A) (arr : List A) (nb : ℕ)
      → ((r : A) (xs : List A) → f r (g xs) ≡ reduce_serial f r xs)
      → FitsBlocks (length arr) nb
      → (k j : ℕ) (r : A) → j + k ≡ nb
      → reduce_serial f r (tabulate k j (λ i. g (block arr nb i)))
        ≡ reduce_serial f r (drop (block_begin j) arr)
  unfolding reduce_serial
  reduce_serial-blocks g arr nb absorb fits zero j r e =
      let none_left : drop (block_begin j) arr ≡ [] = drop_all (block_begin j) arr (omega arith) in
      rw none_left refl
  reduce_serial-blocks g arr nb absorb fits (suc k) j r e =
      ap (λ s. reduce_serial f s (tabulate k (suc j) (λ i. g (block arr nb i))))
        (absorb r (block arr nb j))
      ∙ (reduce_serial-blocks g arr nb absorb fits k (suc j) (reduce_serial f r (block arr nb j))
            (omega arith)
          ∙ sym (reduce_serial-append f r (block arr nb j) (drop (block_begin (suc j)) arr))
          ∙ ap (reduce_serial f r) (block-append-drop arr nb j fits (omega arith)))

module _ {ℓ} {A : Type ℓ} (schedule : ℕ → List ℕ) (f : A → A → A) (unit : A)
    (visits : (nb : ℕ) → Visits nb (schedule nb)) (laws : IsMonoid f unit) where
  absorb : (r : A) (xs : List A) → f r (reduce_serial f unit xs) ≡ reduce_serial f r xs
  absorb r xs =
      reduce_serial_from f laws.assoc r unit xs ∙ ap (λ s. reduce_serial f s xs) (laws.right r)

  -- For an operation with a unit, `reduce` from the unit returns what the serial loop returns,
  -- whatever the order in which the gang reduces the blocks. A depth above the length suffices.
  pub reduce-eq-serial :
      (fuel : ℕ) (arr : List A)
      → length arr < fuel
      → length arr + block_size < 2 ^ 64
      → reduce schedule fuel f unit arr ≡ some (reduce_serial f unit arr)
  unfolding reduce
  reduce-eq-serial zero arr deep small = absurd (omega arith)
  reduce-eq-serial (suc fuel) arr deep small =
      let nb : ℕ = num_blocks (length arr) in
      elim (Bool-cases (leb nb 1)) [
        | inl one ↦ rw one refl
        | inr many ↦
            let body : ℕ → A = λ j. reduce_serial f unit (block arr nb j) in
            let sums : fill (schedule nb) body (replicate nb unit) ≡ tabulate nb 0 body =
              fill-tabulate nb (schedule nb) body (replicate nb unit) (length-replicate nb unit)
                (visits nb) in
            let len : length (tabulate nb 0 body) ≡ nb = length-tabulate nb 0 body in
            let size : nb ≡ (length arr + 2047) / 2048 = num_blocks_eq (length arr) small in
            let above : 1 < nb = ground arith in
            rw (many, sums)
              (reduce-eq-serial fuel (tabulate nb 0 body) (omega arith) (omega arith)
                ∙ ap some (
                    reduce_serial-blocks f (reduce_serial f unit) arr nb absorb
                      (FitsBlocks-num_blocks (length arr) small) nb 0 unit (omega arith)))
      ]
