-- ===== src/Base/Family.antt =====
-- Families `ℕ → A` indexed by thread or by range: change at one index, and sums.
use Prim.Native.Nat.{ℕ, zero, suc, ◌+◌, ◌*◌, ◌≤◌, ◌<◌}
use mathlib.Core.Path.{◌≡◌, refl, ap}
use mathlib.Core.Logic.{◌≢◌}
use native.Mathlib.Decide.{dec_lt}
use native.Mathlib.Omega.{arith}
use network_demo.Base.Tests.{◌==◌, if◌then◌else◌}

abbrev pub update {ℓ} : {A : Type ℓ} → (ℕ → A) → ℕ → A → ℕ → A
update f i a j = if j == i then a else f j

-- The sum of `w 0`, ..., `w (n - 1)`.
unfoldable pub total : ℕ → (ℕ → ℕ) → ℕ
total zero w = 0
total (suc n) w = w n + total n w

pub total_same : (n : ℕ) (v w : ℕ → ℕ) → ((j : ℕ) → j < n → v j ≡ w j) → total n v ≡ total n w
unfolding total
total_same zero v w same = refl
total_same (suc n) v w same =
    omega (arith, same n (omega arith), total_same n v w (λ j h. same j (omega arith)))

-- Two families that differ at `i` only have sums that differ by the values there.
pub total_change :
    (n : ℕ) (v w : ℕ → ℕ) (i : ℕ)
    → i < n
    → ((j : ℕ) → j ≢ i → v j ≡ w j)
    → total n v + w i ≡ total n w + v i
unfolding total
total_change zero v w i lt same = absurd (omega arith)
total_change (suc n) v w i lt same = elim (dec_lt i n) [
  | yes below ↦
      let last : n ≢ i = omega arith in omega (arith, same n last, total_change n v w i below same)
  | no above ↦
      let here : i ≡ n = omega arith in
      let rest : total n v ≡ total n w = total_same n v w (λ j h. same j (omega arith)) in
      rw (here, rest) (omega arith)
]

pub total-le : (n k : ℕ) (w : ℕ → ℕ) → ((j : ℕ) → j < n → w j ≤ k) → total n w ≤ n * k
unfolding total
total-le zero k w small = omega arith
total-le (suc n) k w small =
    omega (arith, small n (omega arith), total-le n k w (λ j h. small j (omega arith)))

pub total-eq-zero : (n : ℕ) (w : ℕ → ℕ) → ((j : ℕ) → j < n → w j ≡ 0) → total n w ≡ 0
unfolding total
total-eq-zero zero w none_there = refl
total-eq-zero (suc n) w none_there =
    omega (arith, none_there n (omega arith), total-eq-zero n w (λ j h. none_there j (omega arith)))

pub le-total : (n : ℕ) (w : ℕ → ℕ) (i : ℕ) → i < n → w i ≤ total n w
unfolding total
le-total zero w i lt = absurd (omega arith)
le-total (suc n) w i lt = elim (dec_lt i n) [
  | yes below ↦ omega (arith, le-total n w i below)
  | no top ↦ let e : i ≡ n = omega arith in rw e (omega arith)
]

-- A sum as large as its bound has every summand as large as its bound.
pub total-full :
    (n : ℕ) (w : ℕ → ℕ) → ((j : ℕ) → j < n → w j ≤ 1) → total n w ≡ n → (j : ℕ) → j < n → w j ≡ 1
unfolding total
total-full zero w small full j lt = absurd (omega arith)
total-full (suc n) w small full j lt =
    let rest = total-le n 1 w (λ k h. small k (omega arith)) in
    elim (dec_lt j n) [
      | yes below ↦
          total-full n w (λ k h. small k (omega arith))
            (omega (arith, rest, small n (omega arith), full)) j below
      | no top ↦
          let e : j ≡ n = omega arith in rw e (omega (arith, rest, small n (omega arith), full))
    ]

module _ {ℓ} {A : Type ℓ} (f : ℕ → A) (i : ℕ) (a : A) where
  pub update_self : update f i a i ≡ a
  update_self = ground arith

  pub update_ne : (j : ℕ) → j ≢ i → update f i a j ≡ f j
  update_ne j ne = ground arith

-- A change of a family at one index changes the sum of weights by what it changes there.
pub total-update {ℓ} :
    {A : Type ℓ} (w : A → ℕ) (n : ℕ) (f : ℕ → A) (i : ℕ) (a : A)
    → i < n
    → total n (λ j. w (update f i a j)) + w (f i) ≡ total n (λ j. w (f j)) + w a
total-update w n f i a lt = rw (ap w (update_self f i a)) at (
    total_change n (λ j. w (update f i a j)) (λ j. w (f j)) i lt
      (λ j ne. ap w (update_ne f i a j ne)))

-- Two summands at different places are a part of the sum.
pub two-total : (n : ℕ) (w : ℕ → ℕ) (i j : ℕ) → i < n → j < n → j ≢ i → w i + w j ≤ total n w
two-total n w i j lt below ne =
    let v = update w i 0 in
    let less : total n v + w i ≡ total n w + 0 = total-update (λ x. x) n w i 0 lt in
    let there : v j ≡ w j = update_ne w i 0 j ne in omega (arith, less, there, le-total n v j below)
