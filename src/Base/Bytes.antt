-- ===== src/Base/Bytes.antt =====
-- A byte memory as a function from addresses, with block reads and writes.
use Prim.Native.Nat.{ℕ, zero, suc, ◌+◌, ◌*◌, ◌/◌, ◌%◌, ◌^◌, ◌≤◌, ◌<◌}
use mathlib.Core.Path.{◌≡◌, refl, ap, ap₂, ◌∙◌, sym}
use mathlib.Core.Logic.{◌⊎◌, inl, inr}
use mathlib.Core.List.{List, [], ◌∷◌, ◌++◌}
use native.Mathlib.Omega.{arith}
use native.Mathlib.Numerals.{unary_clauses}
use network_demo.Base.Lists.{length}
use network_demo.Base.Family.{update}

-- The `n` bytes from `a` on.
unfoldable pub read_bytes : (ℕ → ℕ) → ℕ → ℕ → List ℕ
read_bytes mem a zero = []
read_bytes mem a (suc n) = mem a ∷ read_bytes mem (suc a) n

-- `memcpy(a, bytes, length bytes)`
unfoldable pub write_bytes : (ℕ → ℕ) → ℕ → List ℕ → ℕ → ℕ
write_bytes mem a [] = mem
write_bytes mem a (x ∷ xs) = write_bytes (update mem a x) (suc a) xs

pub length-read_bytes : (mem : ℕ → ℕ) (a n : ℕ) → length (read_bytes mem a n) ≡ n
unfolding read_bytes
length-read_bytes mem a zero = refl
length-read_bytes mem a (suc n) = ap suc (length-read_bytes mem (suc a) n)

-- A write changes nothing outside its block.
pub write_bytes_outside :
    (mem : ℕ → ℕ) (a : ℕ) (xs : List ℕ) (i : ℕ)
    → (i < a) ⊎ (a + length xs ≤ i)
    → write_bytes mem a xs i ≡ mem i
unfolding write_bytes
write_bytes_outside mem a [] i h = refl
write_bytes_outside mem a (x ∷ xs) i (inl h) =
    write_bytes_outside (update mem a x) (suc a) xs i (inl (omega arith)) ∙ ground arith
write_bytes_outside mem a (x ∷ xs) i (inr h) =
    write_bytes_outside (update mem a x) (suc a) xs i (inr (omega arith)) ∙ ground arith

pub read_bytes_ext :
    (m m' : ℕ → ℕ) (a b n : ℕ)
    → ((i : ℕ) → i < n → m (a + i) ≡ m' (b + i))
    → read_bytes m a n ≡ read_bytes m' b n
unfolding read_bytes
read_bytes_ext m m' a b zero h = refl
read_bytes_ext m m' a b (suc n) h =
    let a0 : a + 0 ≡ a = omega arith in
    let b0 : b + 0 ≡ b = omega arith in
    ap₂ ◌∷◌ (ap m (sym a0) ∙ h 0 (omega arith) ∙ ap m' b0) (
      read_bytes_ext m m' (suc a) (suc b) n λ i lt.
        let a1 : suc a + i ≡ a + suc i = omega arith in
        let b1 : b + suc i ≡ suc b + i = omega arith in
        ap m a1 ∙ h (suc i) (omega arith) ∙ ap m' b1)

-- What is written is read back.
pub read_bytes-write_bytes :
    (mem : ℕ → ℕ) (a : ℕ) (xs : List ℕ) → read_bytes (write_bytes mem a xs) a (length xs) ≡ xs
unfolding read_bytes write_bytes
read_bytes-write_bytes mem a [] = refl
read_bytes-write_bytes mem a (x ∷ xs) =
    ap₂ ◌∷◌ (write_bytes_outside (update mem a x) (suc a) xs a (inl (omega arith)) ∙ ground arith)
      (read_bytes-write_bytes (update mem a x) (suc a) xs)

pub read_bytes-append :
    (mem : ℕ → ℕ) (a n k : ℕ)
    → read_bytes mem a (n + k) ≡ read_bytes mem a n ++ read_bytes mem (a + n) k
unfolding read_bytes
read_bytes-append mem a zero k =
    let e : zero + k ≡ k = omega arith in let f : a + zero ≡ a = omega arith in rw (e, f) refl
read_bytes-append mem a (suc n) k =
    let e : suc n + k ≡ suc (n + k) = omega arith in
    let f : a + suc n ≡ suc a + n = omega arith in
    rw (e, f) (ap (◌∷◌ (mem a)) (read_bytes-append mem (suc a) n k))

-- Writing just past a block extends it.
pub read_bytes_extend :
    (mem : ℕ → ℕ) (a n : ℕ) (xs : List ℕ)
    → read_bytes (write_bytes mem (a + n) xs) a (n + length xs) ≡ read_bytes mem a n ++ xs
read_bytes_extend mem a n xs =
    read_bytes-append (write_bytes mem (a + n) xs) a n (length xs)
    ∙ ap₂ ◌++◌
        (read_bytes_ext (write_bytes mem (a + n) xs) mem a a n
          (λ i lt. write_bytes_outside mem (a + n) xs (a + i) (inl (omega arith))))
        (read_bytes-write_bytes mem (a + n) xs)

-- `resize(n)` of a text; new bytes are 0.
unfoldable pub resize : ℕ → ℕ → List ℕ → List ℕ
resize zero c xs = []
resize (suc n) c [] = c ∷ resize n c []
resize (suc n) c (x ∷ xs) = x ∷ resize n c xs

-- The `n` lowest bytes of a number, as they stand in memory.
unfoldable pub little_endian : ℕ → ℕ → List ℕ
little_endian zero v = []
little_endian (suc n) v = (v % 256) ∷ little_endian n (v / 256)

-- A write of bytes over the front of a text.
unfoldable pub overwrite : List ℕ → List ℕ → List ℕ
overwrite [] xs = xs
overwrite (b ∷ bs) [] = []
overwrite (b ∷ bs) (x ∷ xs) = b ∷ overwrite bs xs

unfoldable pub from_little_endian : List ℕ → ℕ
from_little_endian [] = 0
from_little_endian (b ∷ bs) = b + 256 * from_little_endian bs

unfoldable pub front : ℕ → List ℕ → List ℕ
front zero xs = []
front (suc n) [] = []
front (suc n) (x ∷ xs) = x ∷ front n xs

pub length-resize : (n c : ℕ) (xs : List ℕ) → length (resize n c xs) ≡ n
unfolding resize
length-resize zero c xs = refl
length-resize (suc n) c [] = ap suc (length-resize n c [])
length-resize (suc n) c (x ∷ xs) = ap suc (length-resize n c xs)

pub length-little_endian : (n v : ℕ) → length (little_endian n v) ≡ n
unfolding little_endian
length-little_endian zero v = refl
length-little_endian (suc n) v = ap suc (length-little_endian n (v / 256))

pub length-overwrite : (bs xs : List ℕ) → length (overwrite bs xs) ≡ length xs
unfolding overwrite
length-overwrite [] xs = refl
length-overwrite (b ∷ bs) [] = refl
length-overwrite (b ∷ bs) (x ∷ xs) = ap suc (length-overwrite bs xs)

-- What was written over the front stands there.
pub front-overwrite :
    (bs xs : List ℕ) → length bs ≤ length xs → front (length bs) (overwrite bs xs) ≡ bs
unfolding overwrite front
front-overwrite [] xs le = refl
front-overwrite (b ∷ bs) [] le = absurd (omega arith)
front-overwrite (b ∷ bs) (x ∷ xs) le = ap (◌∷◌ b) (front-overwrite bs xs (omega arith))

pub from_little_endian-little_endian :
    (n v : ℕ) → v < 256 ^ n → from_little_endian (little_endian n v) ≡ v
unfolding from_little_endian little_endian
from_little_endian-little_endian zero v lt = ground arith
from_little_endian-little_endian (suc n) v lt =
    let e : 256 ^ suc n ≡ 256 ^ n * 256 = simp unary_clauses in
    let less : v / 256 < 256 ^ n = omega arith in
    rw (from_little_endian-little_endian n (v / 256) less) omega arith
