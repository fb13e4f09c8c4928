-- ===== src/Gang/Partition/Laws.antt =====
-- The ranges tile the interval, and their sizes differ by one at most.
use network_demo.Base.{
  ℕ, zero, suc, ◌+◌, ◌-◌, ◌*◌, ◌/◌, ◌%◌, ◌^◌, ◌≤◌, ◌<◌, ◌≡◌, refl, false, ◌==◌, List, [], ◌∷◌,
  length, replicate, arith, ap, ◌∙◌, length-replicate,
}
use network_demo.Base.Words.{add_size, sub_size}
use native.Mathlib.Nat.{div-add-mod, mod-lt}
use mathlib.Core.Path.{subst}
use network_demo.Gang.Partition.{
  Range, bump_first, lay_out, share_count, cut, Plan, nothing, alone, crew, submit_to, submit,
  dispatch,
}

-- `rs` lie end to end from `lo` to `hi`.
abbrev pub Tiles : ℕ → List Range → ℕ → Type 0
Tiles lo [] hi = lo ≡ hi
Tiles lo (r ∷ rs) hi = (r.b ≡ lo) × (r.b ≤ r.e) × Tiles r.e rs hi

-- Every range has `small` or `small + 1` indices.
abbrev pub Balanced : ℕ → List Range → Type 0
Balanced small [] = Unit {0}
Balanced small (r ∷ rs) = (r.b + small ≤ r.e) × (r.e ≤ r.b + small + 1) × Balanced small rs

abbrev sum : List ℕ → ℕ
sum [] = 0
sum (x ∷ xs) = x + sum xs

sum-replicate : (n k : ℕ) → sum (replicate n k) ≡ n * k
sum-replicate zero k = omega arith
sum-replicate (suc n) k = omega (arith, sum-replicate n k)

sum-bump_first :
    (m n k : ℕ) → m ≤ n → n * k + m < 2 ^ 64 → sum (bump_first m (replicate n k)) ≡ n * k + m
unfolding bump_first
sum-bump_first zero n k le small = omega (arith, sum-replicate n k)
sum-bump_first (suc m) zero k le small = absurd (omega arith)
sum-bump_first (suc m) (suc n) k le small =
    omega (arith, sum-bump_first m n k (omega arith) (omega arith))

lay_out-Tiles :
    (lo : ℕ) (sz : List ℕ) → lo + sum sz < 2 ^ 64 → Tiles lo (lay_out lo sz) (lo + sum sz)
unfolding lay_out
lay_out-Tiles lo [] small = omega arith
lay_out-Tiles lo (s ∷ sz) small =
    let end : add_size lo s + sum sz ≡ lo + (s + sum sz) = omega arith in
    let rest = lay_out-Tiles (add_size lo s) sz (omega arith) in (refl, omega arith, rw end at rest)

length-bump_first : (m : ℕ) (sz : List ℕ) → length (bump_first m sz) ≡ length sz
unfolding bump_first
length-bump_first zero sz = refl
length-bump_first (suc m) [] = refl
length-bump_first (suc m) (s ∷ sz) = ap suc (length-bump_first m sz)

length-lay_out : (lo : ℕ) (sz : List ℕ) → length (lay_out lo sz) ≡ length sz
unfolding lay_out
length-lay_out lo [] = refl
length-lay_out lo (s ∷ sz) = ap suc (length-lay_out (add_size lo s) sz)

Balanced-replicate : (lo n k : ℕ) → lo + n * k < 2 ^ 64 → Balanced k (lay_out lo (replicate n k))
unfolding lay_out
Balanced-replicate lo zero k small = tt
Balanced-replicate lo (suc n) k small =
    (omega arith, omega arith, Balanced-replicate (add_size lo k) n k (omega arith))

Balanced-bump_first :
    (lo m n k : ℕ)
    → m ≤ n
    → lo + (n * k + m) < 2 ^ 64
    → Balanced k (lay_out lo (bump_first m (replicate n k)))
unfolding lay_out bump_first
Balanced-bump_first lo zero n k le small = Balanced-replicate lo n k (omega arith)
Balanced-bump_first lo (suc m) zero k le small = absurd (omega arith)
Balanced-bump_first lo (suc m) (suc n) k le small = (
  omega arith,
  omega arith,
  Balanced-bump_first (add_size lo (add_size k 1)) m n k (omega arith) (omega arith),
)

module _ (start count n : ℕ) (some_worker : 0 < n) (small : start + count < 2 ^ 64) where
  shares : n * (count / n) + count % n ≡ count
  shares = div-add-mod count n

  -- `n` workers get `n` ranges that tile `[start, start + count)` and whose sizes differ by one at
  -- most, where the end of the interval is a `size_t`.
  pub cut-Tiles :
      (length (cut start count n) ≡ n)
      × Tiles start (cut start count n) (start + count)
      × Balanced (count / n) (cut start count n)
  unfolding cut
  cut-Tiles =
      let left : count % n ≤ n = omega arith in
      let sz : List ℕ = bump_first (count % n) (replicate n (count / n)) in
      let all : n * (count / n) + count % n ≡ count = shares in
      let rounds : sum sz ≡ count =
        sum-bump_first (count % n) n (count / n) left (omega arith) ∙ all in
      (
        length-lay_out start sz ∙ length-bump_first (count % n) _ ∙ length-replicate n _,
        rw rounds at (lay_out-Tiles start sz (rw rounds small)),
        Balanced-bump_first start (count % n) n (count / n) left (rw all small),
      )

-- What a plan has to do to cover `[lo, hi)` with at most `num` workers.
abbrev pub Covers : ℕ → ℕ → ℕ → Plan → Type 0
Covers lo hi num nothing = lo ≡ hi
Covers lo hi num (alone rs) = (length rs ≡ 1) × Tiles lo rs hi
Covers lo hi num (crew n rs) =
    (1 < n) × (n ≤ num) × (length rs ≡ n) × Tiles lo rs hi × Balanced ((hi - lo) / n) rs

dispatch-Covers :
    (start count n num : ℕ)
    → start + count < 2 ^ 64
    → n ≤ num
    → (n ≡ 0 → count ≡ 0)
    → Covers start (start + count) num (dispatch n (cut start count n))
unfolding dispatch
dispatch-Covers start count zero num small le h = let e : count ≡ 0 = h refl in omega arith
dispatch-Covers start count (suc zero) num small le h =
    let (len, tiles, balanced) = cut-Tiles start count 1 (omega arith) small in (len, tiles)
dispatch-Covers start count (suc (suc n)) num small le h =
    let (len, tiles, balanced) = cut-Tiles start count (suc (suc n)) (omega arith) small in
    let size : start + count - start ≡ count = omega arith in
    let parts : (1 < suc (suc n))
        × (suc (suc n) ≤ num)
        × (length (cut start count (suc (suc n))) ≡ suc (suc n))
        × Tiles start (cut start count (suc (suc n))) (start + count)
        × Balanced ((start + count - start) / suc (suc n)) (cut start count (suc (suc n))) =
      (omega arith, le, len, tiles, rw size balanced) in
    let ne0 : (suc (suc n) == 0) ≡ false = ground arith in
    let ne1 : (suc (suc n) == 1) ≡ false = ground arith in rw (ne0, ne1) parts

share_count-le : (count granular num : ℕ) → share_count count granular num ≤ num
unfolding share_count
share_count-le count granular num = ground arith

share_count-eq_zero :
    (count granular num : ℕ)
    → 0 < granular
    → 0 < num
    → count + granular < 2 ^ 64
    → share_count count granular num ≡ 0
    → count ≡ 0
unfolding share_count
share_count-eq_zero count granular num hg hn small e =
    let top : sub_size (add_size count granular) 1 ≡ count + granular - 1 = omega arith in
    let none_left : (count + granular - 1) / granular ≡ 0 = ground arith in
    let product : granular * ((count + granular - 1) / granular) ≡ 0 = rw none_left (omega arith) in
    omega (arith, div-add-mod (count + granular - 1) granular, mod-lt (count + granular - 1) hg)

-- `submit(start, end, ...)` cuts `[start, end)` completely, without overlap and evenly, over at
-- most `num` workers, for a granularity that is not 0 and sizes that do not wrap.
pub submit-Covers :
    (num start end granular : ℕ)
    → 0 < num
    → 0 < granular
    → start ≤ end
    → end + granular < 2 ^ 64
    → Covers start end num (submit num start end granular)
unfolding submit
submit-Covers num start end granular hn hg le small =
    let count : sub_size end start ≡ end - start = omega arith in
    let back : start + (end - start) ≡ end = omega arith in
    let n : ℕ = share_count (end - start) granular num in
    rw count (
      subst (λ k. Covers start k num (dispatch n (cut start (end - start) n))) back
        (dispatch-Covers start (end - start) n num (omega arith) (share_count-le _ _ _)
          (share_count-eq_zero (end - start) granular num hg hn (omega arith))))

-- `submit(end, ...)` is `submit(0, end, ...)`.
submit_to-eq-submit :
    (num end granular : ℕ) → end < 2 ^ 64 → submit_to num end granular ≡ submit num 0 end granular
unfolding submit_to submit
submit_to-eq-submit num end granular small =
    let count : sub_size end 0 ≡ end = omega arith in rw count
