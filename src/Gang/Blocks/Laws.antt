-- ===== src/Gang/Blocks/Laws.antt =====
-- The blocks make up the array, and a parallel loop that calls every index fills every cell.
use network_demo.Base.{
  ℕ, zero, suc, ◌+◌, ◌-◌, ◌*◌, ◌/◌, ◌^◌, ◌≤◌, ◌<◌, ◌≡◌, refl, List, [], ◌∷◌, ◌++◌, ◌==◌, length,
  drop, set, get_elem?, arith, ap, ap₂, get_or, some, ◌∙◌, sym, length-set, get_elem?-set_self,
  get_elem?-set_ne, take-append-drop, drop-drop, ℕ_discrete, Bool-cases, ◌⊎◌, inl, inr,
}
use network_demo.Gang.Steal.Claims.{count}
use network_demo.Gang.Blocks.{block_size, num_blocks, block_begin, block, fill}

-- The values of `body` at `j`, ..., `j + k - 1`.
abbrev pub tabulate {ℓ} : {A : Type ℓ} → ℕ → ℕ → (ℕ → A) → List A
tabulate zero j body = []
tabulate (suc k) j body = body j ∷ tabulate k (suc j) body

pub length-tabulate {ℓ} : {A : Type ℓ} (k j : ℕ) (body : ℕ → A) → length (tabulate k j body) ≡ k
length-tabulate zero j body = refl
length-tabulate (suc k) j body = ap suc (length-tabulate k (suc j) body)

get_elem?-tabulate {ℓ} :
    {A : Type ℓ} (k j i : ℕ) (body : ℕ → A)
    → i < k
    → get_elem? (tabulate k j body) i ≡ some (body (j + i))
get_elem?-tabulate zero j i body lt = absurd (omega arith)
get_elem?-tabulate (suc k) j zero body lt =
    let e : j ≡ j + 0 = omega arith in ap (λ m. some (body m)) e
get_elem?-tabulate (suc k) j (suc i) body lt =
    let e : suc j + i ≡ j + suc i = omega arith in
    get_elem?-tabulate k (suc j) i body (omega arith) ∙ ap (λ m. some (body m)) e

cell {ℓ} :
    {A : Type ℓ} (nb i : ℕ) (body : ℕ → A)
    → i < nb
    → get_elem? (tabulate nb 0 body) i ≡ some (body i)
cell nb i body lt =
    let e : 0 + i ≡ i = omega arith in get_elem?-tabulate nb 0 i body lt ∙ ap (λ m. some (body m)) e

list_ext {ℓ} :
    {A : Type ℓ} (xs ys : List A)
    → length xs ≡ length ys
    → ((i : ℕ) → i < length xs → get_elem? xs i ≡ get_elem? ys i)
    → xs ≡ ys
list_ext [] [] len h = refl
list_ext [] (y ∷ ys) len h = absurd (omega arith)
list_ext (x ∷ xs) [] len h = absurd (omega arith)
list_ext (x ∷ xs) (y ∷ ys) len h =
    let head : some x ≡ some y = h 0 (omega arith) in
    let tail = list_ext xs ys (omega arith) (λ i lt. h (suc i) (omega arith)) in cc

length-fill {ℓ} :
    {A : Type ℓ} (order : List ℕ) (body : ℕ → A) (sums : List A)
    → length (fill order body sums) ≡ length sums
unfolding fill
length-fill [] body sums = refl
length-fill (j ∷ js) body sums =
    length-fill js body (set sums j (body j)) ∙ length-set sums j (body j)

-- A cell that is written holds the value of its index, whatever the order of the writes.
get_elem?-fill {ℓ} :
    {A : Type ℓ} (order : List ℕ) (body : ℕ → A) (sums : List A) (i : ℕ)
    → i < length sums
    → (0 < count i order) ⊎ (get_elem? sums i ≡ some (body i))
    → get_elem? (fill order body sums) i ≡ some (body i)
unfolding fill count
get_elem?-fill [] body sums i lt (inl h) = absurd (omega arith)
get_elem?-fill [] body sums i lt (inr h) = h
get_elem?-fill (j ∷ js) body sums i lt h =
    get_elem?-fill js body (set sums j (body j)) i (rw (length-set sums j (body j)) lt)
      (elim (ℕ_discrete j i) [
        | yes e ↦ inr (rw e (get_elem?-set_self sums i (body i) lt))
        | no ne ↦ elim h [
          | inl some_call ↦ inl (ground arith)
          | inr there ↦ inr (get_elem?-set_ne sums (body j) ne ∙ there)
        ]
      ])

-- What the calls of a parallel loop over `nb` indices have to be: every index is called.
abbrev pub Visits : ℕ → List ℕ → Type 0
Visits nb order = (i : ℕ) → i < nb → 0 < count i order

pub fill-tabulate {ℓ} :
    {A : Type ℓ} (nb : ℕ) (order : List ℕ) (body : ℕ → A) (sums : List A)
    → length sums ≡ nb
    → Visits nb order
    → fill order body sums ≡ tabulate nb 0 body
fill-tabulate nb order body sums len visits =
    list_ext (fill order body sums) (tabulate nb 0 body)
      (length-fill order body sums ∙ len ∙ sym (length-tabulate nb 0 body))
      (λ i lt.
        let below : i < nb = omega (arith, length-fill order body sums) in
        get_elem?-fill order body sums i (omega arith) (inl (visits i below))
        ∙ sym (cell nb i body below))

pub num_blocks_eq : (n : ℕ) → n + block_size < 2 ^ 64 → num_blocks n ≡ (n + 2047) / 2048
num_blocks_eq n small = omega arith

pub drop_all {ℓ} : {A : Type ℓ} (n : ℕ) (xs : List A) → length xs ≤ n → drop n xs ≡ []
drop_all zero [] h = refl
drop_all zero (x ∷ xs) h = absurd (omega arith)
drop_all (suc n) [] h = refl
drop_all (suc n) (x ∷ xs) h = drop_all n xs (omega arith)

-- `nb` blocks are enough for the array, and the last one is not empty.
abbrev pub FitsBlocks : ℕ → ℕ → Type 0
FitsBlocks n nb = (n ≤ nb * block_size) × (nb * block_size < n + block_size)

pub block-append-drop {ℓ} :
    {A : Type ℓ} (arr : List A) (nb j : ℕ)
    → FitsBlocks (length arr) nb
    → j < nb
    → block arr nb j ++ drop (block_begin (suc j)) arr ≡ drop (block_begin j) arr
unfolding block
block-append-drop arr nb j fits lt =
    let i : ℕ = block_begin j in
    elim (Bool-cases (j == nb - 1)) [
      | inl last ↦
          let past : drop (i + (length arr - i)) arr ≡ drop (block_begin (suc j)) arr =
            drop_all (i + (length arr - i)) arr (omega arith)
            ∙ sym (drop_all (block_begin (suc j)) arr (ground arith)) in
          rw (last, ← past, ← drop-drop (length arr - i) i arr)
            (take-append-drop (length arr - i) (drop i arr))
      | inr inner ↦
          let next : block_begin (suc j) ≡ i + block_size = omega arith in
          rw (inner, next, ← drop-drop block_size i arr) (take-append-drop block_size (drop i arr))
    ]

pub tabulate_ext {ℓ} :
    {A : Type ℓ} (k j : ℕ) (f g : ℕ → A)
    → ((i : ℕ) → j ≤ i → i < j + k → f i ≡ g i)
    → tabulate k j f ≡ tabulate k j g
tabulate_ext zero j f g h = refl
tabulate_ext (suc k) j f g h =
    ap₂ ◌∷◌ (h j (omega arith) (omega arith))
      (tabulate_ext k (suc j) f g (λ i lo hi. h i (omega arith) (omega arith)))

-- The values of `body` at the elements of a list and their positions from `j` on.
abbrev pub zip_from {ℓ κ} : {A : Type ℓ} {B : Type κ} → (A → ℕ → B) → List A → ℕ → List B
zip_from body [] j = []
zip_from body (x ∷ xs) j = body x j ∷ zip_from body xs (suc j)

pub tabulate-zip_from {ℓ κ} :
    {A : Type ℓ} {B : Type κ} (body : A → ℕ → B) (d : A) (xs : List A) (k j : ℕ)
    → length xs ≡ k
    → tabulate k j (λ i. body (get_or xs (i - j) d) i) ≡ zip_from body xs j
tabulate-zip_from body d [] zero j e = refl
tabulate-zip_from body d [] (suc k) j e = absurd (omega arith)
tabulate-zip_from body d (x ∷ xs) zero j e = absurd (omega arith)
tabulate-zip_from body d (x ∷ xs) (suc k) j e =
    let here : j - j ≡ 0 = omega arith in
    ap₂ ◌∷◌ (rw here refl) (
      tabulate_ext k (suc j) (λ i. body (get_or (x ∷ xs) (i - j) d) i)
        (λ i. body (get_or xs (i - suc j) d) i)
        (λ i lo hi. let next : i - j ≡ suc (i - suc j) = omega arith in rw next refl)
      ∙ tabulate-zip_from body d xs k (suc j) (omega arith))
