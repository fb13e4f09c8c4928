-- ===== src/Split.antt =====
-- utils/Split.h: `string_split`. A string is the list of its bytes.
pub mod Laws
mod Tests
use network_demo.Base.{
  ℕ, zero, suc, ◌+◌, ◌-◌, ◌^◌, ◌≡◌, Bool, true, false, Option, none, some, List, [], ◌∷◌, ◌++◌, ltb,
  ◌==◌, if◌then◌else◌, length, take, drop,
}
use network_demo.Base.Words.{add_size, sub_size}

-- `std::string::npos`
abbrev pub npos : ℕ
npos = 2 ^ 64 - 1

abbrev pub bump : Option ℕ → Option ℕ
bump none = none
bump (some k) = some (suc k)

-- The position of the first `c` in a list.
pub index_of : ℕ → List ℕ → Option ℕ
index_of c [] = none
index_of c (x ∷ xs) = if x == c then some 0 else bump (index_of c xs)

-- `s.find_first_of(c, pos)`
pub find_first_of : List ℕ → ℕ → ℕ → ℕ
find_first_of s c pos = elim (index_of c (drop pos s)) [ none ↦ npos | some k ↦ pos + k ]

-- `s.substr(pos, count)`: `none` is the exception `std::out_of_range`.
pub substr : List ℕ → ℕ → ℕ → Option (List ℕ)
substr s pos count = if ltb (length s) pos then none else some (take count (drop pos s))

-- What a call ends in: a result, an exception, or the rounds given are used up.
pub data Outcome : Type 0 where
  done : List (List ℕ) → Outcome
  out_of_range no_fuel : Outcome

-- The `while` at the values of `start`, `end` and `output`, with a bound on its rounds.
pub split_loop : ℕ → List ℕ → ℕ → ℕ → ℕ → List (List ℕ) → Outcome
split_loop zero s delimiter start end output = no_fuel
split_loop (suc fuel) s delimiter start end output = elim (substr s start (sub_size end start)) [
  | none ↦ out_of_range
  | some piece ↦ elim (end == npos) [
    | true ↦ done (output ++ piece ∷ [])
    | false ↦
        let start' = add_size end 1 in
        split_loop fuel s delimiter start' (find_first_of s delimiter start') (output ++ piece ∷ [])
  ]
]

-- `end <= npos` holds of every `size_t`, so the loop ends by its `break` only.
pub string_split : List ℕ → ℕ → Outcome
string_split s delimiter = split_loop (length s + 1) s delimiter 0 (find_first_of s delimiter 0) []
