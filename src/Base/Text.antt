-- ===== src/Base/Text.antt =====
-- Texts as the lists of their bytes, and the integers of the standard library as decimal texts:
-- `std::to_string`, `std::stoi` and `std::stol`.
pub mod Laws
use Prim.Native.Nat.{ℕ, zero, suc, ◌+◌, ◌-◌, ◌*◌, ◌/◌, ◌%◌, ◌^◌}
use Prim.Native.Char.{code}
use Prim.Native.String.{String}
use mathlib.Core.Bool.{Bool, true, false, ◌&&◌}
use mathlib.Core.List.{List, [], ◌∷◌}
use network_demo.Base.Tests.{ltb, leb, ◌==◌, if◌then◌else◌}

abbrev pub codes : String → List ℕ
codes String.[] = []
codes (String.◌∷◌ c s) = code c ∷ codes s

-- `==` of two strings.
unfoldable pub same_text : List ℕ → List ℕ → Bool
same_text [] [] = true
same_text [] (y ∷ ys) = false
same_text (x ∷ xs) [] = false
same_text (x ∷ xs) (y ∷ ys) = (x == y) && same_text xs ys

-- `negsuc n` is -(n + 1).
pub data ℤ : Type 0 where
  pos : ℕ → ℤ
  negsuc : ℕ → ℤ

abbrev is_space : ℕ → Bool
is_space c = if c == 32 then true else leb 9 c && leb c 13

abbrev is_digit : ℕ → Bool
is_digit c = leb 48 c && leb c 57

unfoldable pub skip_spaces : List ℕ → List ℕ
skip_spaces [] = []
skip_spaces (c ∷ cs) = if is_space c then skip_spaces cs else c ∷ cs

-- The value of the digits in front, and whether there are any.
unfoldable pub digits : ℕ → Bool → List ℕ → ℕ × Bool
digits n seen [] = (n, seen)
digits n seen (c ∷ cs) = if is_digit c then digits (n * 10 + (c - 48)) true cs else (n, seen)

-- What a conversion gives, or the exception that it throws.
pub data Parsed : Type 0 where
  value : ℤ → Parsed
  invalid_argument out_of_range : Parsed

-- A magnitude with its sign, as an integer of `w` bits.
unfoldable pub to_integer : ℕ → Bool → ℕ × Bool → Parsed
to_integer w negative (n, false) = invalid_argument
to_integer w true (zero, true) = value (pos 0)
to_integer w true (suc n, true) = if ltb n (2 ^ (w - 1)) then value (negsuc n) else out_of_range
to_integer w false (n, true) = if ltb n (2 ^ (w - 1)) then value (pos n) else out_of_range

unfoldable pub signed : ℕ → List ℕ → Parsed
unfolding to_integer digits
signed w [] = invalid_argument
signed w (c ∷ cs) =
    if c == b'-'
    then to_integer w true (digits 0 false cs)
    else if c == b'+'
    then to_integer w false (digits 0 false cs)
    else to_integer w false (digits 0 false (c ∷ cs))

-- `std::stoi` for 32 bits, `std::stol` for 64; what follows the digits is passed over.
unfoldable pub parse_integer : ℕ → List ℕ → Parsed
unfolding signed skip_spaces
parse_integer w s = signed w (skip_spaces s)

-- The decimal digits of a number in front of a text, with a bound on their number.
unfoldable pub decimal : ℕ → ℕ → List ℕ → List ℕ
decimal zero n rest = rest
decimal (suc fuel) n rest = elim (ltb n 10) [
  | true ↦ (48 + n) ∷ rest
  | false ↦ decimal fuel (n / 10) ((48 + n % 10) ∷ rest)
]

unfoldable pub to_string : ℤ → List ℕ
unfolding decimal
to_string (pos n) = decimal (suc n) n []
to_string (negsuc n) = b'-' ∷ decimal (suc (suc n)) (suc n) []
