-- ===== src/Hash/Laws.antt =====
-- `hashUpdate` ends and permutes the values of `h`.
use Prim.Native.Nat.{bit_xor}
use native.Mathlib.Nat.{pow-suc}
use network_demo.Base.{
  ℕ, zero, suc, ◌/◌, ◌%◌, ◌^◌, ◌<◌, ◌≡◌, Bool, true, ltb, ltb→lt, and_split, ◌&&◌, List, [], ◌∷◌,
  some, get_elem?, refl, arith, ap, ◌∙◌, sym,
}
use network_demo.Base.Words.{add_size}
use network_demo.Base.Bits.{bit_xor-lt, bit_xor-cancel}
use network_demo.Hash.{rtab, rtab_at, rotate, hash_loop, hash_update, word_of}

all_words : List ℕ → Bool
all_words [] = true
all_words (x ∷ xs) = ltb x (2 ^ 64) && all_words xs

word_of-lt : (xs : List ℕ) (i : ℕ) → all_words xs ≡ true → word_of (get_elem? xs i) < 2 ^ 64
unfolding all_words word_of
word_of-lt [] i h = omega arith
word_of-lt (x ∷ xs) zero h = ltb→lt x (2 ^ 64) (and_split (ltb x (2 ^ 64)) (all_words xs) h).0
word_of-lt (x ∷ xs) (suc i) h = word_of-lt xs i (and_split (ltb x (2 ^ 64)) (all_words xs) h).1

rtab_at-lt : (i : ℕ) → rtab_at i < 2 ^ 64
unfolding rtab_at word_of all_words rtab
rtab_at-lt i = word_of-lt rtab i refl

rotate-lt : (h : ℕ) → h < 2 ^ 64 → rotate h < 2 ^ 64
unfolding rotate
rotate-lt h lt = omega arith

rotate-injective : (h h' : ℕ) → h < 2 ^ 64 → h' < 2 ^ 64 → rotate h ≡ rotate h' → h ≡ h'
unfolding rotate
rotate-injective h h' lt lt' e = omega arith

hash_loop-some :
    (fuel h i : ℕ)
    → h < 2 ^ 64
    → i < 256 ^ fuel
    → (v : ℕ) × (hash_loop fuel h i ≡ some v) × (v < 2 ^ 64)
unfolding hash_loop
hash_loop-some zero h zero lt small = (h, refl, lt)
hash_loop-some zero h (suc i) lt small = absurd (ground arith)
hash_loop-some (suc fuel) h zero lt small = (h, refl, lt)
hash_loop-some (suc fuel) h (suc i) lt small =
    let mixed = bit_xor-lt 64 h (rtab_at (suc i % 256)) lt (rtab_at-lt (suc i % 256)) in
    hash_loop-some fuel (rotate (bit_xor h (rtab_at (suc i % 256)))) (suc i / 256)
      (rotate-lt (bit_xor h (rtab_at (suc i % 256))) mixed) (omega (arith, pow-suc 256 fuel))

some-injective : (a b : ℕ) → some a ≡ some b → a ≡ b
unfolding word_of
some-injective a b e = ap word_of e

bit_xor-injective : (a b c : ℕ) → bit_xor a c ≡ bit_xor b c → a ≡ b
bit_xor-injective a b c e = sym (bit_xor-cancel a c) ∙ ap (λ x. bit_xor x c) e ∙ bit_xor-cancel b c

hash_loop-injective :
    (fuel h h' i : ℕ)
    → h < 2 ^ 64
    → h' < 2 ^ 64
    → i < 256 ^ fuel
    → hash_loop fuel h i ≡ hash_loop fuel h' i
    → h ≡ h'
unfolding hash_loop
hash_loop-injective zero h h' zero lt lt' small e = some-injective h h' e
hash_loop-injective zero h h' (suc i) lt lt' small e = absurd (ground arith)
hash_loop-injective (suc fuel) h h' zero lt lt' small e = some-injective h h' e
hash_loop-injective (suc fuel) h h' (suc i) lt lt' small e =
    let x = rtab_at (suc i % 256) in
    let a = bit_xor-lt 64 h x lt (rtab_at-lt (suc i % 256)) in
    let b = bit_xor-lt 64 h' x lt' (rtab_at-lt (suc i % 256)) in
    let same =
      hash_loop-injective fuel (rotate (bit_xor h x)) (rotate (bit_xor h' x)) (suc i / 256)
        (rotate-lt (bit_xor h x) a) (rotate-lt (bit_xor h' x) b) (omega (arith, pow-suc 256 fuel))
        e in
    bit_xor-injective h h' x (rotate-injective (bit_xor h x) (bit_xor h' x) a b same)

-- For every `i`, `hashUpdate` ends after at most 8 rounds with a word of 64 bits, and different
-- values of `h` stay different.
pub hash_update-permutes :
    (i : ℕ)
    → ((h : ℕ) → h < 2 ^ 64 → (v : ℕ) × (hash_update h i ≡ some v) × (v < 2 ^ 64))
      × ((h h' : ℕ) → h < 2 ^ 64 → h' < 2 ^ 64 → hash_update h i ≡ hash_update h' i → h ≡ h')
unfolding hash_update
hash_update-permutes i =
    let small : add_size i 1 < 256 ^ 8 = omega arith in
    (
      λ h lt. hash_loop-some 8 h (add_size i 1) lt small,
      λ h h' lt lt' e. hash_loop-injective 8 h h' (add_size i 1) lt lt' small e,
    )
