-- ===== src/Split/Laws.antt =====
-- What `string_split` returns: the pieces between the delimiters, none lost.
use network_demo.Base.{
  ℕ, zero, suc, ◌+◌, ◌≤◌, ◌<◌, ◌≡◌, refl, true, false, none, some, List, [], ◌∷◌, ◌++◌, ◌==◌,
  if◌then◌else◌, length, take, drop, arith, ap, ap₂, sym, ◌≢◌, ◌∙◌, Bool-cases, Option-cases, inl,
  inr, drop-drop, length-drop,
}
use mathlib.Core.List.{append_assoc}
use mathlib.Core.Path.{subst}
use network_demo.Base.Words.{sub_size, add_size}
use network_demo.Split.{npos, index_of, find_first_of, substr, done, split_loop, string_split}

-- The pieces of a string, by recursion: a delimiter closes the piece before it.
abbrev pub attach : ℕ → List (List ℕ) → List (List ℕ)
attach x [] = (x ∷ []) ∷ []
attach x (p ∷ ps) = (x ∷ p) ∷ ps

pub pieces : ℕ → List ℕ → List (List ℕ)
pieces d [] = [] ∷ []
pieces d (x ∷ xs) = if x == d then [] ∷ pieces d xs else attach x (pieces d xs)

unfoldable pub join : ℕ → List (List ℕ) → List ℕ
join d [] = []
join d (p ∷ []) = p
join d (p ∷ q ∷ ps) = p ++ d ∷ join d (q ∷ ps)

pieces-cons : (d : ℕ) (xs : List ℕ) → (p : List ℕ) × (ps : List (List ℕ)) × (pieces d xs ≡ p ∷ ps)
unfolding pieces
pieces-cons d [] = ([], [], refl)
pieces-cons d (x ∷ xs) = elim (Bool-cases (x == d)) [
  | inl e ↦ ([], pieces d xs, rw e)
  | inr e ↦ let (p, ps, q) = pieces-cons d xs in (x ∷ p, ps, rw (e, q))
]

index_of-none : (d : ℕ) (xs : List ℕ) → index_of d xs ≡ none → pieces d xs ≡ xs ∷ []
unfolding index_of pieces
index_of-none d [] h = refl
index_of-none d (x ∷ xs) h = ground (arith, index_of-none d xs)

index_of-some :
    (d : ℕ) (xs : List ℕ) (k : ℕ)
    → index_of d xs ≡ some k
    → (k < length xs) × (pieces d xs ≡ take k xs ∷ pieces d (drop (suc k) xs))
unfolding index_of pieces
index_of-some d [] k h = cc
index_of-some d (x ∷ xs) zero h = ground (arith, index_of-some d xs 0)
index_of-some d (x ∷ xs) (suc k) h = ground (arith, index_of-some d xs k)

substr-eq :
    (s : List ℕ) (pos count : ℕ)
    → pos ≤ length s
    → substr s pos count ≡ some (take count (drop pos s))
unfolding substr
substr-eq s pos count h = ground arith

take_all {ℓ} : {A : Type ℓ} (n : ℕ) (xs : List A) → length xs ≤ n → take n xs ≡ xs
take_all zero [] h = refl
take_all zero (x ∷ xs) h = absurd (omega arith)
take_all (suc n) [] h = refl
take_all (suc n) (x ∷ xs) h = ap (◌∷◌ x) (take_all n xs (omega arith))

find_first_of-none :
    (s : List ℕ) (d pos : ℕ) → index_of d (drop pos s) ≡ none → find_first_of s d pos ≡ npos
unfolding find_first_of
find_first_of-none s d pos e = ground arith

find_first_of-some :
    (s : List ℕ) (d pos k : ℕ) → index_of d (drop pos s) ≡ some k → find_first_of s d pos ≡ pos + k
unfolding find_first_of
find_first_of-some s d pos k e = ground arith

split_loop-last :
    (fuel : ℕ) (s : List ℕ) (d start : ℕ) (output : List (List ℕ))
    → length s < npos
    → start ≤ length s
    → split_loop (suc fuel) s d start npos output ≡ done (output ++ drop start s ∷ [])
unfolding split_loop
split_loop-last fuel s d start output small lo =
    rw
      (
        split_loop,
        substr-eq s start (sub_size npos start) lo,
        take_all (sub_size npos start) (drop start s) (omega (arith, length-drop start s)),
      )
      refl

split_loop-next :
    (fuel : ℕ) (s : List ℕ) (d start k : ℕ) (output : List (List ℕ))
    → length s < npos
    → start + k < length s
    → split_loop (suc fuel) s d start (start + k) output
      ≡ split_loop fuel s d
          (suc (start + k))
          (find_first_of s d (suc (start + k)))
          (output ++ take k (drop start s) ∷ [])
unfolding split_loop
split_loop-next fuel s d start k output small lo =
    let here : sub_size (start + k) start ≡ k = omega arith in
    let after : add_size (start + k) 1 ≡ suc (start + k) = omega arith in
    ground (arith, here, after, substr-eq s start (sub_size (start + k) start))

-- From position `start` the loop appends the pieces of what is left.
split_loop-pieces :
    (fuel : ℕ) (s : List ℕ) (d start : ℕ) (output : List (List ℕ))
    → length s < npos
    → start ≤ length s
    → length s < start + fuel
    → split_loop fuel s d start (find_first_of s d start) output
      ≡ done (output ++ pieces d (drop start s))
split_loop-pieces zero s d start output small lo hi = absurd (omega arith)
split_loop-pieces (suc fuel) s d start output small lo hi =
    elim (Option-cases (index_of d (drop start s))) [
      | inl e ↦
          rw (find_first_of-none s d start e, index_of-none d (drop start s) e)
            (split_loop-last fuel s d start output small lo)
      | inr (k, e) ↦
          let (inside, here) = index_of-some d (drop start s) k e in
          let fits : start + k < length s = omega (arith, length-drop start s) in
          let next =
            split_loop-pieces fuel s d (suc (start + k)) (output ++ take k (drop start s) ∷ [])
              small (omega arith) (omega arith) in
          let past : start + suc k ≡ suc (start + k) = omega arith in
          rw
            (
              find_first_of-some s d start k e,
              here,
              split_loop-next fuel s d start k output small fits,
              next,
              drop-drop (suc k) start s,
              past,
            )
            (ap done (append_assoc output (take k (drop start s) ∷ []) _))
    ]

-- On a string shorter than `npos`, `string_split` ends normally with the pieces of the string.
pub string_split-pieces :
    (s : List ℕ) (d : ℕ) → length s < npos → string_split s d ≡ done (pieces d s)
unfolding string_split
string_split-pieces s d small =
    split_loop-pieces (length s + 1) s d 0 [] small (omega arith) (omega arith)

join-attach :
    (d x : ℕ) (p : List ℕ) (ps : List (List ℕ)) → join d ((x ∷ p) ∷ ps) ≡ x ∷ join d (p ∷ ps)
unfolding join
join-attach d x p [] = refl
join-attach d x p (q ∷ ps) = refl

join-pieces : (d : ℕ) (s : List ℕ) → join d (pieces d s) ≡ s
unfolding pieces join
join-pieces d [] = refl
join-pieces d (x ∷ xs) =
    let (p, ps, e) = pieces-cons d xs in
    let ih : join d (p ∷ ps) ≡ xs = rw (← e) (join-pieces d xs) in
    elim (Bool-cases (x == d)) [
      | inl t ↦ let xd : x ≡ d = ground arith in rw (t, e) (ap₂ ◌∷◌ (sym xd) ih)
      | inr t ↦ rw (t, e, join-attach d x p ps) (ap (◌∷◌ x) ih)
    ]

-- No byte of a piece is the delimiter.
abbrev pub Lacks : ℕ → List ℕ → Type 0
Lacks d [] = Unit {0}
Lacks d (x ∷ xs) = (x ≢ d) × Lacks d xs

abbrev pub AllLack : ℕ → List (List ℕ) → Type 0
AllLack d [] = Unit {0}
AllLack d (p ∷ ps) = Lacks d p × AllLack d ps

pieces-AllLack : (d : ℕ) (s : List ℕ) → AllLack d (pieces d s)
unfolding pieces
pieces-AllLack d [] = (tt, tt)
pieces-AllLack d (x ∷ xs) =
    let (p, ps, e) = pieces-cons d xs in
    let ih : AllLack d (p ∷ ps) = subst (AllLack d) e (pieces-AllLack d xs) in
    elim (Bool-cases (x == d)) [
      | inl t ↦ rw (t, e) (tt, ih)
      | inr t ↦ let ne : x ≢ d = ground arith in rw (t, e) ((ne, ih.0), ih.1)
    ]

-- Every string shorter than `npos` is split without exception into pieces that lack the delimiter
-- and that give the string back when they are joined by it.
pub join-string_split :
    (s : List ℕ) (d : ℕ)
    → length s < npos
    → (out : List (List ℕ)) × (string_split s d ≡ done out) × (join d out ≡ s) × AllLack d out
join-string_split s d small =
    (pieces d s, string_split-pieces s d small, join-pieces d s, pieces-AllLack d s)

pieces-join :
    (d : ℕ) (p : List ℕ) (ps : List (List ℕ))
    → AllLack d (p ∷ ps)
    → pieces d (join d (p ∷ ps)) ≡ p ∷ ps
unfolding pieces join
pieces-join d [] [] h = refl
pieces-join d [] (q ∷ ps) h =
    let e : (d == d) ≡ true = ground arith in rw e (ap (◌∷◌ []) (pieces-join d q ps h.1))
pieces-join d (x ∷ p) ps h =
    let e : (x == d) ≡ false = ground (arith, h.0.0) in
    rw (join-attach d x p ps, e, pieces-join d p ps (h.0.1, h.1)) refl

-- Joining pieces that lack the delimiter and splitting the result gives the pieces back.
pub string_split-join :
    (d : ℕ) (p : List ℕ) (ps : List (List ℕ))
    → AllLack d (p ∷ ps)
    → length (join d (p ∷ ps)) < npos
    → string_split (join d (p ∷ ps)) d ≡ done (p ∷ ps)
string_split-join d p ps h small =
    string_split-pieces (join d (p ∷ ps)) d small ∙ ap done (pieces-join d p ps h)
