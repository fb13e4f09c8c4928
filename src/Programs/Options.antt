-- ===== src/Programs/Options.antt =====
-- What both programs do with their options: the level of the log, the protocol and the numbers.
pub mod Laws
use network_demo.Base.{
  ℕ, ◌==◌, Bool, true, false, ◌||◌, if◌then◌else◌, List, [], ◌∷◌, Option, none, some,
}
use network_demo.Base.Text.{
  ℤ, codes, same_text, Parsed, value, invalid_argument, out_of_range, parse_integer,
}

pub data Proto : Type 0 where
  thrift brpc : Proto

-- `getProto`
unfoldable pub get_proto : List ℕ → Proto
get_proto input =
    if same_text input (codes "thrift")
    then thrift
    else if same_text input (codes "brpc")
    then brpc
    else thrift

pub data Level : Type 0 where
  info debug trace : Level

-- What ends a program before its work: the assertion, or an exception of a conversion.
pub data Stop : Type 0 where
  assertion_failed : Stop
  conversion_throws : Parsed → Stop

pub data Result {ℓ} (A : Type ℓ) : Type ℓ where
  ok : A → Result A
  stopped : Stop → Result A

infixr 2 ◌and_then◌
unfoldable pub ◌and_then◌ {ℓ ℓ'} : {A : Type ℓ} {B : Type ℓ'} → Result A → (A → Result B) → Result B
ok a and_then f = f a
stopped s and_then f = stopped s

-- `value().front()`; behind the last byte of a text stands a 0.
front_byte : List ℕ → ℕ
front_byte [] = 0
front_byte (c ∷ cs) = c

log_level_of : Option (List ℕ) → ℕ
unfolding front_byte
log_level_of none = b'i'
log_level_of (some text) = front_byte text

-- The assertion, and the level that is set then.
unfoldable pub set_level : Option (List ℕ) → Result Level
unfolding log_level_of
set_level option =
    let log_level = log_level_of option in
    if (log_level == b'i') || ((log_level == b't') || (log_level == b'd'))
    then ok (if log_level == b't' then trace else if log_level == b'd' then debug else info)
    else stopped assertion_failed

unfoldable pub proto_of : Option (List ℕ) → Proto
unfolding get_proto
proto_of none = thrift
proto_of (some text) = get_proto text

converted : Parsed → Result ℤ
converted (value z) = ok z
converted invalid_argument = stopped (conversion_throws invalid_argument)
converted out_of_range = stopped (conversion_throws out_of_range)

-- An option that `stoi` (32 bits) or `stol` (64 bits) reads, or its default.
unfoldable pub number_of : ℕ → ℤ → Option (List ℕ) → Result ℤ
unfolding converted
number_of w default none = ok default
number_of w default (some text) = converted (parse_integer w text)

unfoldable pub text_of : List ℕ → Option (List ℕ) → List ℕ
text_of default none = default
text_of default (some text) = text
