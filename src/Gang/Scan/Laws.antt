-- ===== src/Gang/Scan/Laws.antt =====
-- The parallel scan is the serial one, where the functor gives the same at the types of input, output
-- and first value.
use mathlib.Core.Path.{fun_ext}
use mathlib.Core.List.{map-id}
use network_demo.Base.{
  ℕ, zero, suc, ◌+◌, ◌^◌, ◌<◌, ◌≡◌, refl, sym, List, [], ◌∷◌, map, Bool, true, false, Option, none,
  some, leb, if◌then◌else◌, length, take, drop, replicate, get_or, ap, ap₂, ◌∙◌, Bool-cases, inl,
  inr,
}
use network_demo.Gang.Blocks.{block_size, num_blocks, block_begin, block_len, block, fill}
use network_demo.Gang.Blocks.Laws.{Visits}
use network_demo.Gang.Reduce.{reduce_serial}
use network_demo.Gang.Reduce.Laws.{IsMonoid}
use network_demo.Gang.Scan.{scan_up, scan_down, scan_serial, join_blocks, Operation, scan}
use network_demo.Gang.Scan.Plain.{plain_up, plain_down, plain_serial, plain_scan}
use network_demo.Gang.Scan.OneType.{CommutesIf, plain_scan-plain_serial}

module _ {ℓ} {T U Z : Type ℓ} (f : Z → U → Z) (convert : Z → T) (g : T → T → T) (widen : U → T)
    (agrees : (z : Z) (u : U) → convert (f z u) ≡ g (convert z) (widen u)) (inclusive : Bool) where
  convert_either :
      (z : Z) (u : U)
      → convert (if inclusive then f z u else z)
        ≡ (if inclusive then g (convert z) (widen u) else convert z)
  convert_either z u = elim (Bool-cases inclusive) [
    | inl on ↦ rw on (agrees z u)
    | inr off ↦ rw off refl
  ]

  scan_up-plain_up :
      (r : Z) (xs : List U)
      → ((scan_up f convert inclusive r xs).0 ≡ (plain_up g inclusive (convert r) (map widen xs)).0)
        × (convert (scan_up f convert inclusive r xs).1
            ≡ (plain_up g inclusive (convert r) (map widen xs)).1)
  unfolding scan_up plain_up
  scan_up-plain_up r [] = (refl, refl)
  scan_up-plain_up r (x ∷ xs) =
      let (outs, last) = scan_up-plain_up (f r x) xs in
      let e = agrees r x in (ap₂ (λ a b. a ∷ b) (convert_either r x) (rw e at outs), rw e at last)

  scan_down-plain_down :
      (r : Z) (xs : List U)
      → ((scan_down f convert inclusive r xs).0
          ≡ (plain_down g inclusive (convert r) (map widen xs)).0)
        × (convert (scan_down f convert inclusive r xs).1
            ≡ (plain_down g inclusive (convert r) (map widen xs)).1)
  unfolding scan_down plain_down
  scan_down-plain_down r [] = (refl, refl)
  scan_down-plain_down r (x ∷ xs) =
      let (outs, last) = scan_down-plain_down r xs in
      let s = (scan_down f convert inclusive r xs).1 in
      (
        ap₂ (λ a b. a ∷ b)
            (convert_either s x ∙ ap (λ t. if inclusive then g t (widen x) else t) last) outs,
        agrees s x ∙ ap (λ t. g t (widen x)) last,
      )

  scan_serial-plain_serial :
      (back : Bool) (r : Z) (xs : List U)
      → scan_serial f convert inclusive back r xs
        ≡ plain_serial g inclusive back (convert r) (map widen xs)
  unfolding scan_serial plain_serial
  scan_serial-plain_serial true r xs =
      let (outs, last) = scan_down-plain_down r xs in ap₂ (λ a b. (a, b)) outs last
  scan_serial-plain_serial false r xs =
      let (outs, last) = scan_up-plain_up r xs in ap₂ (λ a b. (a, b)) outs last

module _ {ℓ} {A B : Type ℓ} (h : A → B) where
  length-map_lem : (xs : List A) → length (map h xs) ≡ length xs
  length-map_lem [] = refl
  length-map_lem (x ∷ xs) = ap suc (length-map_lem xs)

  map-take : (n : ℕ) (xs : List A) → map h (take n xs) ≡ take n (map h xs)
  map-take zero xs = refl
  map-take (suc n) [] = refl
  map-take (suc n) (x ∷ xs) = ap (λ r. h x ∷ r) (map-take n xs)

  map-drop : (n : ℕ) (xs : List A) → map h (drop n xs) ≡ drop n (map h xs)
  map-drop zero xs = refl
  map-drop (suc n) [] = refl
  map-drop (suc n) (x ∷ xs) = map-drop n xs

  map-block : (xs : List A) (nb j : ℕ) → map h (block xs nb j) ≡ block (map h xs) nb j
  unfolding block
  map-block xs nb j =
      map-take (block_len (length xs) nb j) (drop (block_begin j) xs)
      ∙ ap₂ (λ n ys. take (block_len n nb j) ys) (sym (length-map_lem xs))
          (map-drop (block_begin j) xs)

  map-reduce_serial :
      (f : A → A → A) (g : B → B → B)
      → ((a b : A) → h (f a b) ≡ g (h a) (h b))
      → (r : A) (xs : List A) → h (reduce_serial f r xs) ≡ reduce_serial g (h r) (map h xs)
  unfolding reduce_serial
  map-reduce_serial f g e r [] = refl
  map-reduce_serial f g e r (x ∷ xs) =
      map-reduce_serial f g e (f r x) xs ∙ ap (λ t. reduce_serial g t (map h xs)) (e r x)

-- The functor gives at each of its types, converted to the type of `out`, what it gives there: no
-- sum is cut off where the input or the first value is of a smaller type.
pub record Agrees {ℓ} {T U Z : Type ℓ} (op : Operation T U Z) (f : T → T → T) (unit : T)
    : Type ℓ where
  pub first_agrees :
      (z : Z) (u : U) → op.from_first (op.at_first z u) ≡ f (op.from_first z) (op.from_in u)
  pub out_agrees : (t : T) (u : U) → op.at_out t u ≡ f t (op.from_in u)
  pub in_agrees : (a b : U) → op.from_in (op.at_in a b) ≡ f (op.from_in a) (op.from_in b)
  pub null_agrees : op.from_in op.null ≡ unit

module _ {ℓ} {T Z : Type ℓ} (schedule : ℕ → List ℕ) (f : T → T → T) (unit : T)
    (again : Operation T T Z) (agrees_again : Agrees again f unit)
    (keeps : (t : T) → again.from_in t ≡ t) where
  scan-plain_scan :
      {U : Type ℓ} (fuel : ℕ) (op : Operation T U Z) (inclusive back : Bool) (r : Z) (xs : List U)
      → Agrees op f unit
      → ((z : Z) → again.from_first z ≡ op.from_first z)
      → scan schedule fuel op again inclusive back r xs
        ≡ plain_scan schedule fuel f unit inclusive back (op.from_first r) (map op.from_in xs)
  unfolding scan plain_scan
  scan-plain_scan zero op inclusive back r xs agrees same = refl
  scan-plain_scan {U = U} (suc fuel) op inclusive back r xs agrees same =
      let ys = map op.from_in xs in
      let nb : ℕ = num_blocks (length xs) in
      let sum_ : ℕ → T = λ j. op.from_in (reduce_serial op.at_in op.null (block xs nb j)) in
      let sum : ℕ → T = λ j. reduce_serial f unit (block ys nb j) in
      let sum_eq : sum_ ≡ sum = fun_ext (λ j.
        map-reduce_serial op.from_in op.at_in f agrees.in_agrees op.null (block xs nb j)
        ∙ ap₂ (λ u bs. reduce_serial f u bs) agrees.null_agrees (map-block op.from_in xs nb j)) in
      let sums = fill (schedule nb) sum (replicate nb unit) in
      let sums_eq : fill (schedule nb) sum_ (replicate nb (op.from_in op.null)) ≡ sums =
        ap₂ (λ body u. fill (schedule nb) body (replicate nb u)) sum_eq agrees.null_agrees in
      let kept : map again.from_in sums ≡ sums =
        ap (λ h. map h sums) (fun_ext keeps) ∙ map-id sums in
      let inner : scan schedule fuel again again false back r sums
          ≡ plain_scan schedule fuel f unit false back (op.from_first r) sums =
        scan-plain_scan {U = T} fuel again false back r sums agrees_again (λ z. refl)
        ∙ ap₂ (λ z zs. plain_scan schedule fuel f unit false back z zs) (same r) kept in
      let write_ : List T → T → ℕ → List T = λ offsets u j.
        (scan_serial op.at_out (λ t. t) inclusive back (get_or offsets j u) (block xs nb j)).0 in
      let write : List T → T → ℕ → List T =
        λ offsets u j. (plain_serial f inclusive back (get_or offsets j u) (block ys nb j)).0 in
      let write_eq : (offsets : List T) → write_ offsets (op.from_in op.null) ≡ write offsets unit =
        λ offsets.
          ap (write_ offsets) agrees.null_agrees
          ∙ fun_ext (λ j.
            ap (λ q. q.0)
              (scan_serial-plain_serial op.at_out (λ t. t) f op.from_in agrees.out_agrees inclusive
                  back (get_or offsets j unit) (block xs nb j)
                ∙ ap (λ bs. plain_serial f inclusive back (get_or offsets j unit) bs)
                    (map-block op.from_in xs nb j))) in
      let serial =
        scan_serial-plain_serial op.at_first op.from_first f op.from_in agrees.first_agrees
          inclusive back r xs in
      let finish : ℕ → Option (List T × T) → (List T → ℕ → List T) → Option (List T × T) =
        λ n o body. elim o [
          | none ↦ none
          | some (offsets, total) ↦
              some (join_blocks (fill (schedule n) (body offsets) (replicate n [])), total)
        ] in
      let whole : ℕ → Option (List T × T) = λ n.
        if leb n 1
        then some (plain_serial f inclusive back (op.from_first r) ys)
        else finish n
            (plain_scan schedule fuel f unit false back (op.from_first r)
              (fill (schedule n) (λ j. reduce_serial f unit (block ys n j)) (replicate n unit)))
            (λ offsets j.
              (plain_serial f inclusive back (get_or offsets j unit) (block ys n j)).0) in
      let rest =
        ap₂ (finish nb) (ap (λ s. scan schedule fuel again again false back r s) sums_eq ∙ inner)
          (fun_ext write_eq) in
      ap₂ (λ (a : List T × T) b. if leb nb 1 then some a else b) serial rest
      ∙ ap (λ n. whole (num_blocks n)) (sym (length-map_lem op.from_in xs))

  -- The parallel scan leaves in `out` and returns what the serial one does from any first value, in
  -- either direction, inclusive or not, whatever the order of the calls, in a loop that calls every
  -- block. The functor gives the same at the types of the input, the output and the first value, where
  -- it is associative with `(U)0` as its unit, and commutes if the scan goes backwards; and the length
  -- leaves room for a block in 64 bits. A depth above the length suffices.
  pub scan-eq-serial :
      {U : Type ℓ} (fuel : ℕ) (op : Operation T U Z) (inclusive back : Bool) (r : Z) (xs : List U)
      → ((nb : ℕ) → Visits nb (schedule nb))
      → IsMonoid f unit
      → Agrees op f unit
      → ((z : Z) → again.from_first z ≡ op.from_first z)
      → CommutesIf back f
      → length xs < fuel
      → length xs + block_size < 2 ^ 64
      → scan schedule fuel op again inclusive back r xs
        ≡ some (scan_serial op.at_first op.from_first inclusive back r xs)
  scan-eq-serial fuel op inclusive back r xs visits laws agrees same comm deep small =
      let len = length-map_lem op.from_in xs in
      scan-plain_scan fuel op inclusive back r xs agrees same
      ∙ plain_scan-plain_serial schedule f unit visits laws fuel inclusive back (op.from_first r)
          (map op.from_in xs) comm (rw len deep) (rw len small)
      ∙ ap some (
          sym (
            scan_serial-plain_serial op.at_first op.from_first f op.from_in agrees.first_agrees
              inclusive back r xs))
