-- ===== src/Gang/Count/Lanes.antt =====
-- 128 words of bytes that are 0 or 1 can be summed without a carry between the lanes.
use network_demo.Base.{
  ℕ, zero, suc, ◌+◌, ◌*◌, ◌/◌, ◌%◌, ◌^◌, ◌≤◌, ◌<◌, ◌≡◌, refl, List, [], ◌∷◌, length, drop, arith,
}
use native.Mathlib.Nat.{pow-suc, mod-eq_of_lt}
use network_demo.Gang.Count.{little_endian, sum_words, lane_sum, sum_groups, sum_bytes}

-- Every byte is 0 or 1.
abbrev pub AreBools : List ℕ → Type 0
AreBools [] = Unit {0}
AreBools (x ∷ xs) = (x ≤ 1) × AreBools xs

pub AreBools-drop : (n : ℕ) (xs : List ℕ) → AreBools xs → AreBools (drop n xs)
AreBools-drop zero xs h = h
AreBools-drop (suc n) [] h = tt
AreBools-drop (suc n) (x ∷ xs) h = AreBools-drop n xs h.1

-- The number of bytes that are set among the first `n`.
unfoldable pub ones : ℕ → List ℕ → ℕ
ones zero xs = 0
ones (suc n) [] = 0
ones (suc n) (x ∷ xs) = x + ones n xs

ones-drop : (m n : ℕ) (xs : List ℕ) → ones (m + n) xs ≡ ones m xs + ones n (drop m xs)
unfolding ones
ones-drop zero n xs = let e : zero + n ≡ n = omega arith in rw e (omega arith)
ones-drop (suc m) zero [] =
    let e : suc m + zero ≡ suc (m + zero) = omega arith in rw e (omega arith)
ones-drop (suc m) (suc n) [] =
    let e : suc m + suc n ≡ suc (m + suc n) = omega arith in rw e (omega arith)
ones-drop (suc m) n (x ∷ xs) =
    let e : suc m + n ≡ suc (m + n) = omega arith in rw e (omega (arith, ones-drop m n xs))

-- A word whose `k` lanes are at most `m`.
abbrev pub LanesLe : ℕ → ℕ → ℕ → Type 0
LanesLe m zero w = w ≡ 0
LanesLe m (suc k) w = (w % 256 ≤ m) × LanesLe m k (w / 256)

LanesLe-zero : (m k : ℕ) → LanesLe m k 0
LanesLe-zero m zero = refl
LanesLe-zero m (suc k) = (omega arith, LanesLe-zero m k)

LanesLe-little_endian : (k : ℕ) (xs : List ℕ) → AreBools xs → LanesLe 1 k (little_endian k xs)
unfolding little_endian
LanesLe-little_endian zero xs h = refl
LanesLe-little_endian (suc k) [] h = LanesLe-zero 1 (suc k)
LanesLe-little_endian (suc k) (x ∷ xs) h =
    let low : (x + 256 * little_endian k xs) / 256 ≡ little_endian k xs = omega (arith, h.0) in
    (omega (arith, h.0), rw low (LanesLe-little_endian k xs h.1))

lane_sum-zero : (k : ℕ) → lane_sum k 0 ≡ 0
unfolding lane_sum
lane_sum-zero zero = refl
lane_sum-zero (suc k) = omega (arith, lane_sum-zero k)

lane_sum-little_endian :
    (k : ℕ) (xs : List ℕ) → AreBools xs → lane_sum k (little_endian k xs) ≡ ones k xs
unfolding lane_sum little_endian ones
lane_sum-little_endian zero xs h = refl
lane_sum-little_endian (suc k) [] h = omega (arith, lane_sum-zero k)
lane_sum-little_endian (suc k) (x ∷ xs) h =
    let low : (x + 256 * little_endian k xs) / 256 ≡ little_endian k xs = omega (arith, h.0) in
    rw low (omega (arith, h.0, lane_sum-little_endian k xs h.1))

-- Lanes that together stay below 256 add up one by one.
LanesLe-add :
    (m k a b : ℕ)
    → m + 1 < 256
    → LanesLe m k a
    → LanesLe 1 k b
    → LanesLe (m + 1) k (a + b) × (lane_sum k (a + b) ≡ lane_sum k a + lane_sum k b)
unfolding lane_sum
LanesLe-add m zero a b small ha hb = (omega arith, omega arith)
LanesLe-add m (suc k) a b small ha hb =
    let high : (a + b) / 256 ≡ a / 256 + b / 256 = omega (arith, ha.0, hb.0) in
    let (lanes, sums) = LanesLe-add m k (a / 256) (b / 256) small ha.1 hb.1 in
    rw high ((omega (arith, ha.0, hb.0), lanes), omega (arith, ha.0, hb.0, sums))

LanesLe-lt : (m k w : ℕ) → m < 256 → LanesLe m k w → w < 256 ^ k
LanesLe-lt m zero w small h = omega arith
LanesLe-lt m (suc k) w small h =
    omega (arith, h.0, pow-suc 256 k, LanesLe-lt m k (w / 256) small h.1)

sum_words-ones :
    (k left m rr : ℕ) (xs : List ℕ)
    → m + left < 256
    → LanesLe m k rr
    → AreBools xs
    → lane_sum k (sum_words k left xs rr) ≡ lane_sum k rr + ones (left * k) xs
unfolding sum_words
sum_words-ones k zero m rr xs small lanes h =
    let e : zero * k ≡ 0 = omega arith in rw e (unfold ones in omega arith)
sum_words-ones k (suc left) m rr xs small lanes h =
    let w : ℕ = little_endian k xs in
    let (more, sums) = LanesLe-add m k rr w (omega arith) lanes (LanesLe-little_endian k xs h) in
    let fits : (rr + w) % 256 ^ k ≡ rr + w =
      mod-eq_of_lt (LanesLe-lt (m + 1) k (rr + w) (omega arith) more) in
    let parts : suc left * k ≡ k + left * k = omega arith in
    rw (fits, parts)
      (omega (
        arith,
        sum_words-ones k left (m + 1) (rr + w) (drop k xs) (omega arith) more
            (AreBools-drop k xs h),
        sums,
        lane_sum-little_endian k xs h,
        ones-drop k (left * k) xs,
      ))

pub sum_groups-ones :
    (k left : ℕ) (xs : List ℕ) (r : ℕ)
    → AreBools xs
    → sum_groups k left xs r ≡ r + ones (left * (128 * k)) xs
unfolding sum_groups
sum_groups-ones k zero xs r h =
    let e : zero * (128 * k) ≡ 0 = omega arith in rw e (unfold ones in omega arith)
sum_groups-ones k (suc left) xs r h =
    let parts : suc left * (128 * k) ≡ 128 * k + left * (128 * k) = omega arith in
    rw parts (
      omega (
        arith,
        sum_groups-ones k left (drop (128 * k) xs) (r + lane_sum k (sum_words k 128 xs 0))
            (AreBools-drop (128 * k) xs h),
        sum_words-ones k 128 0 0 xs (omega arith) (LanesLe-zero 0 k) h,
        lane_sum-zero k,
        ones-drop (128 * k) (left * (128 * k)) xs,
      ))

pub sum_bytes-ones : (xs : List ℕ) (r : ℕ) → sum_bytes xs r ≡ r + ones (length xs) xs
unfolding sum_bytes ones
sum_bytes-ones [] r = omega arith
sum_bytes-ones (x ∷ xs) r = omega (arith, sum_bytes-ones xs (r + x))
