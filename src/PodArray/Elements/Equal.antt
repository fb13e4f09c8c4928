-- ===== src/PodArray/Elements/Equal.antt =====
-- `operator==` of utils/PODArray.h compares the bytes that two arrays hold.
use network_demo.Base.{
  ℕ, zero, suc, ◌+◌, ◌-◌, ◌*◌, ◌<◌, ◌≡◌, ◌≢◌, refl, ap, ap₂, ◌∙◌, sym, Bool, true, false, ◌&&◌, not,
  ◌==◌, and_split, if◌then◌else◌, List, [], ◌∷◌, ◌++◌, length, Option, some, Bool-cases, inl, inr,
  arith,
}
use network_demo.Base.Text.{same_text}
use network_demo.Base.Bytes.{read_bytes, read_bytes-append, length-read_bytes}
use network_demo.PodArray.Sizes.{Params}
use network_demo.PodArray.Storage.{Numa, State, null}
use network_demo.PodArray.Storage.Valid.{Whole, IsValid, contents}
use network_demo.PodArray.Storage.Push.{size-count, cancel}
use network_demo.PodArray.Elements.{equal_loop, equal}

-- Two texts in two parts each, the first of one length.
same_text-append :
    (xs ys us vs : List ℕ)
    → length xs ≡ length us
    → same_text (xs ++ ys) (us ++ vs) ≡ (same_text xs us && same_text ys vs)
unfolding same_text
same_text-append [] ys [] vs e = refl
same_text-append [] ys (u ∷ us) vs e = absurd (omega arith)
same_text-append (x ∷ xs) ys [] vs e = absurd (omega arith)
same_text-append (x ∷ xs) ys (u ∷ us) vs e = elim (Bool-cases (x == u)) [
  | inl same ↦ rw same (same_text-append xs ys us vs (omega (arith, e)))
  | inr other ↦ rw other refl
]

-- Texts of different lengths differ.
same_text_lengths : (xs ys : List ℕ) → same_text xs ys ≡ true → length xs ≡ length ys
unfolding same_text
same_text_lengths [] [] e = refl
same_text_lengths [] (y ∷ ys) e = absurd (cc)
same_text_lengths (x ∷ xs) [] e = absurd (cc)
same_text_lengths (x ∷ xs) (y ∷ ys) e = ap suc (same_text_lengths xs ys (and_split (x == y) _ e).1)

unlike : (xs ys : List ℕ) → (length xs ≢ length ys) → same_text xs ys ≡ false
unlike xs ys h = elim (Bool-cases (same_text xs ys)) [
  | inl same ↦ absurd (h (same_text_lengths xs ys same))
  | inr other ↦ other
]

-- `!=` of the elements, for elements that differ just when their bytes do.
abbrev pub bytes_differ : List ℕ → List ℕ → Bool
bytes_differ xs ys = not (same_text xs ys)

module _ (numa : Numa) (p : Params) (empty : ℕ) where
  compared :
      (s t : State) (n fuel a b : ℕ)
      → 0 < p.element_size
      → s.pod.c_end ≡ a + n * p.element_size
      → n < fuel
      → equal_loop numa p empty bytes_differ s t fuel a b
        ≡ some (
            same_text
              (read_bytes s.mem a (n * p.element_size))
              (read_bytes t.mem b (n * p.element_size)))
  unfolding equal_loop same_text read_bytes
  compared s t n zero a b pos ends lt = absurd (omega arith)
  compared s t zero (suc fuel) a b pos ends lt =
      let here : (a == s.pod.c_end) ≡ true = ground (arith, ends) in
      let nothing : zero * p.element_size ≡ 0 = omega arith in rw (here, nothing) refl
  compared s t (suc n) (suc fuel) a b pos ends lt =
      let e : suc n * p.element_size ≡ p.element_size + n * p.element_size = grind arith in
      let here : (a == s.pod.c_end) ≡ false = ground (arith, ends, e) in
      let left = read_bytes-append s.mem a p.element_size (n * p.element_size) in
      let right = read_bytes-append t.mem b p.element_size (n * p.element_size) in
      let lengths =
        length-read_bytes s.mem a p.element_size ∙ sym (length-read_bytes t.mem b p.element_size) in
      let parts =
        same_text-append (read_bytes s.mem a p.element_size)
          (read_bytes s.mem (a + p.element_size) (n * p.element_size))
          (read_bytes t.mem b p.element_size)
          (read_bytes t.mem (b + p.element_size) (n * p.element_size)) lengths in
      let onward =
        compared s t n fuel (a + p.element_size) (b + p.element_size) pos (omega (arith, ends, e))
          (omega arith) in
      elim (Bool-cases
        (same_text (read_bytes s.mem a p.element_size) (read_bytes t.mem b p.element_size))) [
          | inl same ↦ rw (equal_loop, here, same, onward, e, left, right, parts, same) refl
          | inr other ↦ rw (equal_loop, here, other, e, left, right, parts, other) refl
        ]

  -- Two well-formed arrays are equal exactly if they hold the same bytes, where elements differ just
  -- when their bytes do; the loop always comes to an end.
  pub equal_lem :
      (pr pl : ℕ) (s t : State) (count cap count' cap' : ℕ)
      → Whole p pr pl
      → IsValid p (null numa p empty) s.pod count cap
      → IsValid p (null numa p empty) t.pod count' cap'
      → equal numa p empty bytes_differ s t ≡ some (same_text (contents s) (contents t))
  unfolding equal
  equal_lem pr pl s t count cap count' cap' whole valid valid' =
      let number = size-count numa p empty pr pl whole s.pod count cap valid in
      let number' = size-count numa p empty pr pl whole t.pod count' cap' valid' in
      let held : s.pod.c_end - s.pod.c_start ≡ count * p.element_size = omega (arith, valid.ends) in
      let held' : t.pod.c_end - t.pod.c_start ≡ count' * p.element_size =
        omega (arith, valid'.ends) in
      let choose : Bool → Option Bool = λ b.
        if b
        then equal_loop numa p empty bytes_differ s t (suc count) s.pod.c_start t.pod.c_start
        else some false in
      let cases : equal numa p empty bytes_differ s t ≡ choose (count == count') =
        ap₂
          (λ c c'.
            if c == c'
            then equal_loop numa p empty bytes_differ s t (suc c) s.pod.c_start t.pod.c_start
            else some false)
          number number' in
      elim (Bool-cases (count == count')) [
        | inl same ↦
            let e : count' ≡ count = ground arith in
            let held'' = rw e at held' in
            cases
            ∙ ap choose same
            ∙ compared s t count (suc count) s.pod.c_start t.pod.c_start whole.some_size valid.ends
                (omega arith)
            ∙ ap₂
                (λ m m'. some (
                  same_text (read_bytes s.mem s.pod.c_start m) (read_bytes t.mem t.pod.c_start m')))
                (sym held) (sym held'')
        | inr other ↦
            cases
            ∙ ap choose other
            ∙ ap some (
                sym (
                  unlike (contents s) (contents t) (λ e.
                    let sizes : count * p.element_size ≡ count' * p.element_size =
                      sym held
                      ∙ sym (length-read_bytes s.mem s.pod.c_start (s.pod.c_end - s.pod.c_start))
                      ∙ e
                      ∙ length-read_bytes t.mem t.pod.c_start (t.pod.c_end - t.pod.c_start)
                      ∙ held' in
                    let below =
                      cancel p.element_size count count' whole.some_size (omega (arith, sizes)) in
                    let above =
                      cancel p.element_size count' count whole.some_size (omega (arith, sizes)) in
                    let equal_counts : count ≡ count' = omega (arith, below, above) in
                    ground arith)))
      ]
