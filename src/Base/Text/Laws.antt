-- ===== src/Base/Text/Laws.antt =====
-- A printed integer is read back.
use Prim.Native.Nat.{ℕ, zero, suc, ◌+◌, ◌-◌, ◌*◌, ◌/◌, ◌%◌, ◌^◌, ◌≤◌, ◌<◌}
use mathlib.Core.Path.{◌≡◌, refl, ◌∙◌, ap}
use mathlib.Core.Logic.{inl, inr}
use mathlib.Core.Bool.{Bool, true, false}
use mathlib.Core.List.{List, [], ◌∷◌}
use native.Mathlib.Omega.{arith}
use network_demo.Base.Tests.{ltb, ◌==◌, Bool-cases}
use network_demo.Base.Text.{
  ℤ, pos, negsuc, skip_spaces, digits, value, to_integer, signed, parse_integer, decimal, to_string,
  is_digit, is_space,
}

digits-decimal :
    (fuel n : ℕ) (seen : Bool) (rest : List ℕ)
    → n < fuel
    → digits 0 seen (decimal fuel n rest) ≡ digits n true rest
unfolding digits decimal
digits-decimal zero n seen rest lt = absurd (omega arith)
digits-decimal (suc fuel) n seen rest lt = elim (Bool-cases (ltb n 10)) [
  | inl small ↦
      let here : is_digit (48 + n) ≡ true = ground arith in
      let worth : 0 * 10 + (48 + n - 48) ≡ n = omega arith in rw (decimal, small, here, worth) refl
  | inr big ↦
      let here : is_digit (48 + n % 10) ≡ true = ground arith in
      let worth : n / 10 * 10 + (48 + n % 10 - 48) ≡ n = omega arith in
      let onward = digits-decimal fuel (n / 10) seen ((48 + n % 10) ∷ rest) (ground arith) in
      let last : digits (n / 10) true ((48 + n % 10) ∷ rest) ≡ digits n true rest =
        rw (digits, here, worth) refl in
      rw (decimal, big) (onward ∙ last)
]

-- A printed number begins with a digit.
decimal-cons :
    (fuel n : ℕ) (rest : List ℕ)
    → n < fuel
    → (c : ℕ) × ((cs : List ℕ) × (decimal fuel n rest ≡ c ∷ cs) × (48 ≤ c) × (c ≤ 57))
unfolding decimal
decimal-cons zero n rest lt = absurd (omega arith)
decimal-cons (suc fuel) n rest lt = elim (Bool-cases (ltb n 10)) [
  | inl small ↦ rw (decimal, small) (48 + n, (rest, refl, omega arith, ground arith))
  | inr big ↦ rw (decimal, big) (decimal-cons fuel (n / 10) ((48 + n % 10) ∷ rest) (ground arith))
]

-- The integers of `w` bits.
abbrev pub InRange : ℕ → ℤ → Type 0
InRange w (pos n) = n < 2 ^ (w - 1)
InRange w (negsuc n) = n < 2 ^ (w - 1)

skip_digit : (c : ℕ) (cs : List ℕ) → 48 ≤ c → c ≤ 57 → skip_spaces (c ∷ cs) ≡ c ∷ cs
unfolding skip_spaces
skip_digit c cs lo hi = let e : is_space c ≡ false = ground arith in rw e refl

signed_digit :
    (w c : ℕ) (cs : List ℕ)
    → 48 ≤ c
    → c ≤ 57
    → signed w (c ∷ cs) ≡ to_integer w false (digits 0 false (c ∷ cs))
unfolding signed
signed_digit w c cs lo hi =
    let minus : (c == b'-') ≡ false = ground arith in
    let plus : (c == b'+') ≡ false = ground arith in rw (minus, plus) refl

-- `std::stoi` and `std::stol` read back what `std::to_string` prints.
pub parse_integer-to_string :
    (w : ℕ) (z : ℤ) → InRange w z → parse_integer w (to_string z) ≡ value z
unfolding parse_integer to_string
parse_integer-to_string w (pos n) range =
    let (c, (cs, e, lo, hi)) = decimal-cons (suc n) n [] (omega arith) in
    let read = digits-decimal (suc n) n false [] (omega arith) in
    let fits : ltb n (2 ^ (w - 1)) ≡ true = ground arith in
    rw (e, skip_digit c cs lo hi, signed_digit w c cs lo hi)
      (ap (to_integer w false) (rw e at read) ∙ unfold digits to_integer in rw fits refl)
parse_integer-to_string w (negsuc n) range =
    let read = digits-decimal (suc (suc n)) (suc n) false [] (omega arith) in
    let fits : ltb n (2 ^ (w - 1)) ≡ true = ground arith in
    ap (to_integer w true) read ∙ unfold digits to_integer in rw fits refl
