-- ===== src/Programs/Options/Laws.antt =====
-- A number that is printed into an option is read from it.
use network_demo.Base.{ℕ, ◌≡◌, some, refl}
use network_demo.Base.Text.{ℤ, to_string}
use network_demo.Base.Text.Laws.{InRange, parse_integer-to_string}
use network_demo.Programs.Options.{ok, number_of, converted}

number_of-to_string :
    (w : ℕ) (default z : ℤ) → InRange w z → number_of w default (some (to_string z)) ≡ ok z
unfolding number_of converted
number_of-to_string w default z range = rw (parse_integer-to_string w z range) refl
