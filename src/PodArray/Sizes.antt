-- ===== src/PodArray/Sizes.antt =====
-- The arithmetic of utils/PODArray.h: rounding, and the sizes of `PODArrayBase`.
pub mod PowerOfTwo
use Prim.Native.Nat.{bit_or}
use network_demo.Base.{ℕ, ◌/◌, ◌^◌}
use network_demo.Base.Words.{add_size, sub_size, mul_size}

-- `integerRoundUp`
unfoldable pub integer_round_up : ℕ → ℕ → ℕ
integer_round_up value dividend =
    mul_size (sub_size (add_size value dividend) 1 / dividend) dividend

-- `n |= n >> k`
abbrev pub smear : ℕ → ℕ → ℕ
smear k n = bit_or n (n / 2 ^ k)

-- `roundUpToPowerOfTwoOrZero`
pub round_up_to_power_of_two_or_zero : ℕ → ℕ
round_up_to_power_of_two_or_zero n =
    add_size (smear 32 (smear 16 (smear 8 (smear 4 (smear 2 (smear 1 (sub_size n 1))))))) 1

-- The template parameters of `PODArrayBase`.
pub record Params : Type 0 where
  pub element_size : ℕ
  pub initial_size : ℕ
  pub pad_right_ : ℕ
  pub pad_left_ : ℕ

unfoldable pub pad_right : Params → ℕ
pad_right p = integer_round_up p.pad_right_ p.element_size

unfoldable pub pad_left : Params → ℕ
pad_left p = integer_round_up (integer_round_up p.pad_left_ p.element_size) 16

unfoldable pub byte_size : Params → ℕ → ℕ
byte_size p num_elements = mul_size num_elements p.element_size

unfoldable pub minimum_memory_for_elements : Params → ℕ → ℕ
minimum_memory_for_elements p num_elements =
    add_size (add_size (byte_size p num_elements) (pad_right p)) (pad_left p)
