-- ===== src/PodArray/Sizes/PowerOfTwo.antt =====
-- `roundUpToPowerOfTwoOrZero` of utils/PODArray.h: what the six shifts do.
use Prim.Native.Nat.{bit_or}
use network_demo.Base.{
  ℕ, zero, suc, ◌+◌, ◌-◌, ◌*◌, ◌/◌, ◌%◌, ◌^◌, ◌≤◌, ◌<◌, ◌≡◌, refl, arith, dec_lt, dec_le,
}
use native.Mathlib.Nat.{div-add-mod, mod-lt, pow-suc, one-le-pow, mul-le-mul_left, pow-le-pow_right}
use network_demo.Base.Words.{add_size, sub_size}
use network_demo.Base.Bits.{bit_or_step, bit_or-ge, bit_or-lt}
use network_demo.PodArray.Sizes.{smear, round_up_to_power_of_two_or_zero}

pub pow_pos : (q : ℕ) → 0 < 2 ^ q
pow_pos q = one-le-pow q 2 (omega arith)

pow_double : (a q : ℕ) → a * 2 ^ suc q ≡ 2 * (a * 2 ^ q)
pow_double a q = grind (arith, pow-suc 2 q)

-- `|` keeps the high part of its first argument and the low digits of its second.
bit_or_low : (q a r s : ℕ) → r < 2 ^ q → s < 2 ^ q → a * 2 ^ q + s ≤ bit_or (a * 2 ^ q + r) s
bit_or_low zero a r s hr hs =
    let r0 : r ≡ 0 = omega arith in
    let s0 : s ≡ 0 = omega arith in rw (r0, s0) (bit_or-ge (a * 2 ^ 0 + 0) 0)
bit_or_low (suc q) a r s hr hs =
    let double = pow_double a q in
    let half : (a * 2 ^ suc q + r) / 2 ≡ a * 2 ^ q + r / 2 = omega (arith, double) in
    let low =
      bit_or_low q a (r / 2) (s / 2) (omega (arith, pow-suc 2 q)) (omega (arith, pow-suc 2 q)) in
    let digits = rw half at (bit_or_step (a * 2 ^ suc q + r) s) in
    omega (arith, double, low, digits)

quotient_ge : (k n c t : ℕ) → 0 < k → t * k ≤ n + c * k → t ≤ n / k + c
quotient_ge k n c t pos h = elim (dec_le t (n / k + c)) [
  | yes le ↦ le
  | no gt ↦
      let product : k * (n / k + c + 1) ≤ k * t = mul-le-mul_left k (omega arith) in
      absurd (grind (arith, product, div-add-mod n k, mod-lt n pos))
]

pub pow_add : (q k : ℕ) → 2 ^ (q + k) ≡ 2 ^ q * 2 ^ k
pow_add zero k = let e : 0 + k ≡ k = omega arith in rw e (omega arith)
pow_add (suc q) k =
    let e : suc q + k ≡ suc (q + k) = omega arith in
    rw e (grind (arith, pow_add q k, pow-suc 2 q, pow-suc 2 (q + k)))

quotient_lt : (k n t : ℕ) → n < t * k → n / k < t
quotient_lt k n t h = elim (dec_lt (n / k) t) [
  | yes lt ↦ lt
  | no ge ↦
      let product : k * t ≤ k * (n / k) = mul-le-mul_left k (omega arith) in
      absurd (grind (arith, product, div-add-mod n k))
]

-- The highest `j` of `m` digits are set.
abbrev TopSet : ℕ → ℕ → ℕ → Type 0
TopSet m j x = (x < 2 ^ m) × (2 ^ m ≤ x + 2 ^ (m - j))

smear_below : (m k x : ℕ) → x < 2 ^ m → smear k x < 2 ^ m
smear_below m k x h =
    let pos = pow_pos k in
    let product : 2 ^ m * 1 ≤ 2 ^ m * 2 ^ k = mul-le-mul_left (2 ^ m) (omega arith) in
    bit_or-lt m x (x / 2 ^ k) h (quotient_lt (2 ^ k) x (2 ^ m) (omega (arith, product)))

-- `n |= n >> j` sets as many digits again below the highest `j`.
smear_top :
    (q j x : ℕ)
    → x < 2 ^ q * 2 ^ j
    → 2 ^ q * 2 ^ j ≤ x + 2 ^ q
    → 2 ^ q * 2 ^ j ≤ smear j x + 2 ^ (q - j)
smear_top q j x below above =
    let a : ℕ = x / 2 ^ q in
    let s : ℕ = x / 2 ^ j in
    let parts : a * 2 ^ q + x % 2 ^ q ≡ x = grind (arith, div-add-mod x (2 ^ q)) in
    let low : s < 2 ^ q = quotient_lt (2 ^ j) x (2 ^ q) below in
    let both = rw parts at (bit_or_low q a (x % 2 ^ q) s (mod-lt x (pow_pos q)) low) in
    let high : 2 ^ j ≤ a + 1 = quotient_ge (2 ^ q) x 1 (2 ^ j) (pow_pos q) (grind arith) in
    let high_product : 2 ^ q * 2 ^ j ≤ 2 ^ q * (a + 1) = mul-le-mul_left (2 ^ q) high in
    let grow : 2 ^ q ≤ 2 ^ (q - j + j) = pow-le-pow_right (omega arith) (omega arith) in
    let grown : 2 ^ q ≤ 2 ^ (q - j) * 2 ^ j = omega (arith, grow, pow_add (q - j) j) in
    let next : 2 ^ q ≤ s + 2 ^ (q - j) =
      quotient_ge (2 ^ j) x (2 ^ (q - j)) (2 ^ q) (pow_pos j) (omega (arith, grown)) in
    grind (arith, both, high_product, next)

smear-TopSet : (m j x : ℕ) → TopSet m j x → TopSet m (j + j) (smear j x)
smear-TopSet m j x (below, above) = elim (dec_le j m) [
  | yes le ↦
      let e : m - j + j ≡ m = omega arith in
      let split : 2 ^ m ≡ 2 ^ (m - j) * 2 ^ j = rw e at (pow_add (m - j) j) in
      let left : m - (j + j) ≡ m - j - j = omega arith in
      (
        smear_below m j x below,
        rw (left, split) (smear_top (m - j) j x (rw split at below) (rw split at above)),
      )
  | no gt ↦
      let e : m - j ≡ 0 = omega arith in
      let e' : m - (j + j) ≡ 0 = omega arith in
      (smear_below m j x below, rw e' (omega (arith, rw e at above, bit_or-ge x (x / 2 ^ j))))
]

-- Every number has a highest digit.
top_digit : (k n : ℕ) → 0 < n → n < 2 ^ k → (m : ℕ) × (m ≤ k) × (0 < m) × TopSet m 1 n
top_digit zero n pos lt = absurd (omega arith)
top_digit (suc k) n pos lt = elim (dec_lt n (2 ^ k)) [
  | yes small ↦ let (m, le, some, top) = top_digit k n pos small in (m, omega arith, some, top)
  | no big ↦
      let e : suc k - 1 ≡ k = omega arith in
      (suc k, omega arith, omega arith, (lt, rw e (omega (arith, pow-suc 2 k))))
]

-- The six shifts set all digits.
all_set :
    (m x : ℕ)
    → m ≤ 63
    → TopSet m 1 x
    → add_size (smear 32 (smear 16 (smear 8 (smear 4 (smear 2 (smear 1 x)))))) 1 ≡ 2 ^ m
all_set m x le top =
    let t1 = smear-TopSet m 1 x top in
    let t2 = smear-TopSet m 2 (smear 1 x) t1 in
    let t4 = smear-TopSet m 4 (smear 2 (smear 1 x)) t2 in
    let t8 = smear-TopSet m 8 (smear 4 (smear 2 (smear 1 x))) t4 in
    let t16 = smear-TopSet m 16 (smear 8 (smear 4 (smear 2 (smear 1 x)))) t8 in
    let t32 = smear-TopSet m 32 (smear 16 (smear 8 (smear 4 (smear 2 (smear 1 x))))) t16 in
    finish (smear 32 (smear 16 (smear 8 (smear 4 (smear 2 (smear 1 x)))))) t32
  where
    finish : (y : ℕ) → TopSet m 64 y → add_size y 1 ≡ 2 ^ m
    finish y (below, above) =
        let none_left : m - 64 ≡ 0 = omega arith in
        let size : 2 ^ m ≤ 2 ^ 63 = pow-le-pow_right (omega arith) le in
        omega (arith, below, rw none_left at above, size)

-- The shifts round every size from 1 to `2 ^ 63` up to the least power of two that is not below.
pub round_up-power :
    (n : ℕ)
    → 0 < n
    → n ≤ 2 ^ 63
    → (k : ℕ) × (round_up_to_power_of_two_or_zero n ≡ 2 ^ k) × (n ≤ 2 ^ k) × (2 ^ k < 2 * n)
unfolding round_up_to_power_of_two_or_zero
round_up-power n pos small = elim (dec_le n 1) [
  | yes one ↦ let e : n ≡ 1 = omega arith in rw e (0, refl, omega arith, omega arith)
  | no more ↦
      let (m, le, some, (below, above)) = top_digit 63 (sub_size n 1) (omega arith) (omega arith) in
      let e : suc (m - 1) ≡ m = omega arith in
      let double : 2 ^ m ≡ 2 ^ (m - 1) * 2 = rw e at (pow-suc 2 (m - 1)) in
      (
        m,
        all_set m (sub_size n 1) le (below, above),
        omega (arith, below),
        omega (arith, above, double),
      )
]
