-- ===== src/Proto/Tests/Plain/Laws.antt =====
-- The laws of the plain protocol.
use mathlib.Core.Path.{subst}
use mathlib.Core.List.{append-nil}
use network_demo.Base.{
  ℕ, zero, suc, ◌<◌, ◌≤◌, ◌≡◌, refl, ap, sym, List, [], ◌∷◌, ◌++◌, length, take, drop,
  length-append, length-drop, Option, none, some, inl, inr, Option-cases, arith,
}
use network_demo.Base.Text.{ℤ, pos, negsuc}
use network_demo.Proto.Wire.{
  FieldType, t_stop, t_i64, t_string, t_struct, t_other, MessageType, t_call, t_reply, t_exception,
  m_other, message, FieldHead, field, ExceptionType, unknown, unknown_method, missing_result,
  x_other, application, Shrinks, Lawful, Value, i64, text, nested, other, type_of, Fits, FieldFits,
  AllFit, one_more, Field, written, write_value, write_fields, write_struct,
}
use network_demo.Proto.Wire.Laws.{write_fields-cons}
use network_demo.Proto.Tests.Plain.{
  plain, put_int, put_text, get_int, get_text, put_type, put_kind, kind_at, put_reason, reason_at,
  get_field, get_head, get_exception, skip_value, skip_one, skip_struct, skip_any, then_skip,
  skip_at,
}

take-append : (xs ys : List ℕ) → take (length xs) (xs ++ ys) ≡ xs
take-append [] ys = refl
take-append (x ∷ xs) ys = ap (λ r. x ∷ r) (take-append xs ys)

drop-append : (xs ys : List ℕ) → drop (length xs) (xs ++ ys) ≡ ys
drop-append [] ys = refl
drop-append (x ∷ xs) ys = drop-append xs ys

kind_back : (t : MessageType) → kind_at (put_kind t) ≡ t
kind_back t_call = refl
kind_back t_reply = refl
kind_back t_exception = refl
kind_back (m_other n) = refl

reason_back : (k : ExceptionType) → reason_at (put_reason k) ≡ k
reason_back unknown = refl
reason_back unknown_method = refl
reason_back missing_result = refl
reason_back (x_other n) = refl

head_back :
    (name : List ℕ) (t : MessageType) (seqid : ℤ) (rest : List ℕ)
    → get_head ((put_kind t ∷ (put_int seqid ++ put_text name)) ++ rest)
      ≡ some (message name t seqid, rest)
head_back name t (pos n) rest = rw (kind_back t, take-append name rest, drop-append name rest) refl
head_back name t (negsuc n) rest =
    rw (kind_back t, take-append name rest, drop-append name rest) refl

field_back :
    (v : Value) (fid : ℤ) (rest : List ℕ)
    → get_field ((put_type (type_of v) ∷ put_int fid) ++ rest) ≡ some (field (type_of v) fid, rest)
unfolding type_of
field_back (i64 n) (pos k) rest = refl
field_back (i64 n) (negsuc k) rest = refl
field_back (text s) (pos k) rest = refl
field_back (text s) (negsuc k) rest = refl
field_back (nested bytes) (pos k) rest = refl
field_back (nested bytes) (negsuc k) rest = refl
field_back (other code bytes) (pos k) rest = refl
field_back (other code bytes) (negsuc k) rest = refl

int_back : (n : ℤ) (rest : List ℕ) → get_int (put_int n ++ rest) ≡ some (n, rest)
int_back (pos n) rest = refl
int_back (negsuc n) rest = refl

text_back : (s rest : List ℕ) → get_text (put_text s ++ rest) ≡ some (s, rest)
text_back s rest = rw (take-append s rest, drop-append s rest) refl

exception_back :
    (k : ExceptionType) (what rest : List ℕ)
    → get_exception ((put_reason k ∷ put_text what) ++ rest) ≡ some (application k what, rest)
exception_back k what rest = rw (reason_back k, take-append what rest, drop-append what rest) refl

value_skipped :
    (v : Value) (rest : List ℕ)
    → Fits plain v
    → skip_any (type_of v) (write_value plain v ++ rest) ≡ some rest
unfolding type_of write_value Fits
value_skipped (i64 (pos n)) rest fits = refl
value_skipped (i64 (negsuc n)) rest fits = refl
value_skipped (text s) rest fits = rw (drop-append s rest) refl
value_skipped (nested bytes) rest fits = fits rest
value_skipped (other code bytes) rest fits = fits rest

skip_field_at :
    (k : List ℕ → Option (List ℕ)) (v : Value) (fid : ℤ) (rest : List ℕ)
    → skip_at k (some (field (type_of v) fid, rest)) ≡ then_skip k (skip_one k (type_of v) rest)
unfolding type_of
skip_field_at k (i64 n) fid rest = refl
skip_field_at k (text s) fid rest = refl
skip_field_at k (nested bytes) fid rest = refl
skip_field_at k (other code bytes) fid rest = refl

-- One that passes over more.
module _ (k k' : List ℕ → Option (List ℕ))
    (h : (r rest : List ℕ) → k r ≡ some rest → k' r ≡ some rest) where
  skip_one-more :
      (t : FieldType) (r rest : List ℕ) → skip_one k t r ≡ some rest → skip_one k' t r ≡ some rest
  skip_one-more t_stop r rest e = e
  skip_one-more t_i64 r rest e = e
  skip_one-more t_string r rest e = e
  skip_one-more t_struct r rest e = h r rest e
  skip_one-more (t_other n) r rest e = e

  then_skip-more :
      (t : FieldType) (r rest : List ℕ)
      → then_skip k (skip_one k t r) ≡ some rest
      → then_skip k' (skip_one k' t r) ≡ some rest
  then_skip-more t r rest e = elim (Option-cases (skip_one k t r)) [
    | inl nothing ↦
        let none_is : none ≡ some rest = subst (λ o. then_skip k o ≡ some rest) nothing e in
        absurd (cc)
    | inr (r1, found) ↦
        let onward : k r1 ≡ some rest = subst (λ o. then_skip k o ≡ some rest) found e in
        rw (skip_one-more t r r1 found) (h r1 rest onward)
  ]

  skip_at-more :
      (t : FieldType) (fid : ℤ) (r rest : List ℕ)
      → skip_at k (some (field t fid, r)) ≡ some rest
      → skip_at k' (some (field t fid, r)) ≡ some rest
  skip_at-more t_stop fid r rest e = e
  skip_at-more t_i64 fid r rest e = then_skip-more t_i64 r rest e
  skip_at-more t_string fid r rest e = then_skip-more t_string r rest e
  skip_at-more t_struct fid r rest e = then_skip-more t_struct r rest e
  skip_at-more (t_other n) fid r rest e = then_skip-more (t_other n) r rest e

more_fuel :
    (fuel fuel' : ℕ) (input rest : List ℕ)
    → fuel ≤ fuel'
    → skip_struct fuel input ≡ some rest
    → skip_struct fuel' input ≡ some rest
more_fuel zero fuel' input rest le e = absurd (cc)
more_fuel (suc fuel) zero input rest le e = absurd (omega arith)
more_fuel (suc fuel) (suc fuel') input rest le e = elim (Option-cases (get_field input)) [
  | inl nothing ↦
      let none_is : none ≡ some rest =
        subst (λ o. skip_at (skip_struct fuel) o ≡ some rest) nothing e in
      absurd (cc)
  | inr ((field t fid, r), found) ↦
      let onward = subst (λ o. skip_at (skip_struct fuel) o ≡ some rest) found e in
      rw found (
        skip_at-more (skip_struct fuel) (skip_struct fuel')
          (λ i j. more_fuel fuel fuel' i j (omega arith)) t fid r rest onward)
]

length-put_int : (n : ℤ) → length (put_int n) ≡ 2
length-put_int (pos n) = refl
length-put_int (negsuc n) = refl

fields_skipped :
    (fuel : ℕ) (fs : List Field) (rest : List ℕ)
    → AllFit plain fs
    → length (write_fields plain fs ++ rest) < fuel
    → skip_struct fuel (write_fields plain fs ++ rest) ≡ some rest
unfolding write_fields FieldFits
fields_skipped zero fs rest fits lt = absurd (omega arith)
fields_skipped (suc fuel) [] rest fits lt = refl
fields_skipped (suc fuel) (written name fid v ∷ fs) rest (one_more (range, fit) more) lt =
    let tail = write_fields plain fs ++ rest in
    let e = write_fields-cons plain name fid v fs rest in
    let longer : length
          (plain.write_field_begin name (type_of v) fid ++ (write_value plain v ++ tail))
        < suc fuel =
      subst (λ xs. length xs < suc fuel) e lt in
    let shorter : length tail < fuel = omega (
      arith,
      longer,
      length-append (put_type (type_of v) ∷ put_int fid) (write_value plain v ++ tail),
      length-append (write_value plain v) tail,
    ) in
    let enough : suc (length (write_value plain v ++ tail)) ≤ fuel = omega (
      arith,
      longer,
      length-append (put_type (type_of v) ∷ put_int fid) (write_value plain v ++ tail),
      length-put_int fid,
    ) in
    let passes =
      skip_one-more _ (skip_struct fuel) (λ i j. more_fuel _ fuel i j enough) (type_of v) _ tail
        (value_skipped v tail fit) in
    rw
      (
        e,
        field_back v fid (write_value plain v ++ tail),
        skip_field_at (skip_struct fuel) v fid (write_value plain v ++ tail),
        passes,
      )
      (fields_skipped fuel fs rest more shorter)

field_shrinks :
    (h : FieldHead) (input rest : List ℕ)
    → get_field input ≡ some (h, rest)
    → length rest < length input
field_shrinks h [] rest e = absurd (cc)
field_shrinks h (zero ∷ r) rest e = let same : r ≡ rest = cc in rw (sym same) (omega arith)
field_shrinks h (suc c ∷ []) rest e = absurd (cc)
field_shrinks h (suc c ∷ k ∷ []) rest e = absurd (cc)
field_shrinks h (suc c ∷ k ∷ n ∷ r) rest e = let same : r ≡ rest = cc in rw (sym same) (omega arith)

int_shrinks :
    (n : ℤ) (input rest : List ℕ) → get_int input ≡ some (n, rest) → length rest ≤ length input
int_shrinks n [] rest e = absurd (cc)
int_shrinks n (k ∷ []) rest e = absurd (cc)
int_shrinks n (k ∷ m ∷ r) rest e = let same : r ≡ rest = cc in rw (sym same) (omega arith)

text_shrinks :
    (s input rest : List ℕ) → get_text input ≡ some (s, rest) → length rest ≤ length input
text_shrinks s [] rest e = absurd (cc)
text_shrinks s (n ∷ r) rest e =
    let same : drop n r ≡ rest = cc in rw (sym same) (omega (arith, length-drop n r))

value_shrinks :
    (t : FieldType) (input rest : List ℕ)
    → skip_value t input ≡ some rest
    → length rest ≤ length input
value_shrinks t_stop input rest e = absurd (cc)
value_shrinks t_struct input rest e = absurd (cc)
value_shrinks (t_other n) [] rest e = absurd (cc)
value_shrinks (t_other n) (m ∷ r) rest e = let same : r ≡ rest = cc in rw (sym same) (omega arith)
value_shrinks t_i64 [] rest e = absurd (cc)
value_shrinks t_i64 (k ∷ []) rest e = absurd (cc)
value_shrinks t_i64 (k ∷ n ∷ r) rest e = let same : r ≡ rest = cc in rw (sym same) (omega arith)
value_shrinks t_string [] rest e = absurd (cc)
value_shrinks t_string (n ∷ r) rest e =
    let same : drop n r ≡ rest = cc in rw (sym same) (omega (arith, length-drop n r))

module _ (k : List ℕ → Option (List ℕ))
    (h : (r rest : List ℕ) → k r ≡ some rest → length rest ≤ length r) where
  one_shrinks :
      (t : FieldType) (r rest : List ℕ) → skip_one k t r ≡ some rest → length rest ≤ length r
  one_shrinks t_stop r rest e = value_shrinks t_stop r rest e
  one_shrinks t_i64 r rest e = value_shrinks t_i64 r rest e
  one_shrinks t_string r rest e = value_shrinks t_string r rest e
  one_shrinks t_struct r rest e = h r rest e
  one_shrinks (t_other n) r rest e = value_shrinks (t_other n) r rest e

  then_shrinks :
      (t : FieldType) (r rest : List ℕ)
      → then_skip k (skip_one k t r) ≡ some rest
      → length rest ≤ length r
  then_shrinks t r rest e = elim (Option-cases (skip_one k t r)) [
    | inl nothing ↦
        let none_is : none ≡ some rest = subst (λ o. then_skip k o ≡ some rest) nothing e in
        absurd (cc)
    | inr (r1, found) ↦
        let onward : k r1 ≡ some rest = subst (λ o. then_skip k o ≡ some rest) found e in
        omega (arith, one_shrinks t r r1 found, h r1 rest onward)
  ]

  at_shrinks :
      (t : FieldType) (fid : ℤ) (r rest : List ℕ)
      → skip_at k (some (field t fid, r)) ≡ some rest
      → length rest ≤ length r
  at_shrinks t_stop fid r rest e = let same : r ≡ rest = cc in rw same (omega arith)
  at_shrinks t_i64 fid r rest e = then_shrinks t_i64 r rest e
  at_shrinks t_string fid r rest e = then_shrinks t_string r rest e
  at_shrinks t_struct fid r rest e = then_shrinks t_struct r rest e
  at_shrinks (t_other n) fid r rest e = then_shrinks (t_other n) r rest e

struct_shrinks :
    (fuel : ℕ) (input rest : List ℕ)
    → skip_struct fuel input ≡ some rest
    → length rest ≤ length input
struct_shrinks zero input rest e = absurd (cc)
struct_shrinks (suc fuel) input rest e = elim (Option-cases (get_field input)) [
  | inl nothing ↦
      let none_is : none ≡ some rest =
        subst (λ o. skip_at (skip_struct fuel) o ≡ some rest) nothing e in
      absurd (cc)
  | inr ((field t fid, r), found) ↦
      let onward = subst (λ o. skip_at (skip_struct fuel) o ≡ some rest) found e in
      omega (
        arith,
        field_shrinks (field t fid) input r found,
        at_shrinks (skip_struct fuel) (struct_shrinks fuel) t fid r rest onward,
      )
]

any_shrinks :
    (t : FieldType) (input rest : List ℕ)
    → skip_any t input ≡ some rest
    → length rest ≤ length input
any_shrinks t input rest e = one_shrinks _ (struct_shrinks (suc (length input))) t input rest e

end_shrinks : (input rest : List ℕ) → some input ≡ some rest → length rest ≤ length input
end_shrinks input rest e = let same : input ≡ rest = cc in rw same (omega arith)

struct_skipped :
    (fs : List Field) (rest : List ℕ)
    → AllFit plain fs
    → skip_any t_struct ((write_fields plain fs ++ []) ++ rest) ≡ some rest
struct_skipped fs rest fits =
    rw (append-nil (write_fields plain fs))
      (fields_skipped (suc (length (write_fields plain fs ++ rest))) fs rest fits (omega arith))

pub plain-Shrinks : Shrinks plain
plain-Shrinks = record {
  field_shorter = field_shrinks;
  field_end_shorter = end_shrinks;
  i64_shorter = int_shrinks;
  string_shorter = text_shrinks;
  skip_shorter = any_shrinks;
}

pub plain-Lawful : Lawful plain
unfolding write_struct
plain-Lawful = record {
  reads_message = λ name t seqid rest short range. head_back name t seqid rest;
  reads_message_end = λ rest. refl;
  reads_struct = λ name rest. refl;
  reads_struct_end = λ rest. refl;
  reads_field = λ name v fid rest range. field_back v fid rest;
  reads_field_end = λ rest. refl;
  reads_stop = λ rest. refl;
  reads_i64 = λ n rest range. int_back n rest;
  reads_string = λ s rest short. text_back s rest;
  reads_exception = λ k what rest short. exception_back k what rest;
  skips_value = λ v rest fits. value_skipped v rest fits;
  skips_struct = λ name fs rest fits. struct_skipped fs rest fits;
  shrinks = plain-Shrinks;
}
