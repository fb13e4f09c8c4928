-- ===== src/Proto/Structs/Laws.antt =====
-- The readers of the structs of TestProto.cpp end on every input, and on the bytes of a struct, as
-- any version of the service may write it, find what an independent reading of its fields finds.
use network_demo.Base.{
  ℕ, zero, suc, ◌<◌, ◌≤◌, ◌≡◌, refl, Bool, true, false, ◌&&◌, if◌then◌else◌, List, [], ◌∷◌, ◌++◌,
  length, Option, none, some, inl, inr, sym, Bool-cases, Option-cases, arith,
}
use network_demo.Base.Text.{ℤ}
use network_demo.Proto.Wire.{
  Protocol, Shrinks, Lawful, FieldType, is_stop, FieldHead, field, Read, done, passed, gave,
  read_then, Value, Field, written, type_of, Fits, FieldFits, AllFit, one_more, write_value,
  write_fields, write_struct,
}
use network_demo.Proto.Wire.Laws.{
  ends, passed-ends, gave-ends, read_then-ends, write_fields-cons, write_struct_lem,
  length-field_begin, not_stop,
}
use network_demo.Proto.Structs.{Success, is_zero, success_field, success_fields, success_read}

module _ {ℓ} {A : Type ℓ} (p : Protocol) (l : Shrinks p) (wanted : FieldType → Bool)
    (read : List ℕ → Option (A × List ℕ))
    (shorter : (a : A) (input rest : List ℕ)
      → read input ≡ some (a, rest)
      → length rest ≤ length input) where
  success_field-ends :
      (onward : Success A → List ℕ → Read (Success A)) (s : Success A) (h : FieldHead)
      (rest : List ℕ)
      → ((s1 : Success A) (r : List ℕ) → length r ≤ length rest → ends (onward s1 r) ≡ true)
      → ends (success_field p wanted read onward s h rest) ≡ true
  unfolding success_field ends
  success_field-ends onward s (field ftype fid) rest h = elim (Bool-cases (is_stop ftype)) [
    | inl stop ↦ rw (success_field, stop) refl
    | inr more ↦ elim (Bool-cases (is_zero fid && wanted ftype)) [
      | inl here ↦
          rw (success_field, more, here)
            (gave-ends (read rest) _ (λ v r e.
              passed-ends (p.read_field_end r) _
                (λ r1 e1. h _ r1 (omega (arith, shorter v rest r e, l.field_end_shorter r r1 e1)))))
      | inr other ↦
          rw (success_field, more, other)
            (passed-ends (p.skip ftype rest) _ (λ r e. passed-ends (p.read_field_end r) _ (λ r1 e1.
              h _ r1 (omega (arith, l.skip_shorter ftype rest r e, l.field_end_shorter r r1 e1)))))
    ]
  ]

  success_fields-ends :
      (fuel : ℕ) (s : Success A) (input : List ℕ)
      → length input < fuel
      → ends (success_fields p wanted read fuel s input) ≡ true
  unfolding success_fields
  success_fields-ends zero s input lt = absurd (omega arith)
  success_fields-ends (suc fuel) s input lt = gave-ends (p.read_field_begin input) _ (λ h r e.
      success_field-ends (success_fields p wanted read fuel) s h r (λ s1 r1 le.
        success_fields-ends fuel s1 r1 (omega (arith, le, lt, l.field_shorter h input r e))))

  pub success_read-ends :
      (s : Success A) (input : List ℕ) → ends (success_read p wanted read s input) ≡ true
  unfolding success_read ends
  success_read-ends s input = passed-ends (p.read_struct_begin input) _ (λ r e.
      read_then-ends _ _ (success_fields-ends (suc (length r)) s r (omega arith))
        (λ s1 r1. passed-ends (p.read_struct_end r1) _ (λ r2 e2. refl)))

module _ {ℓ} {A : Type ℓ} where
  -- What the fields of a struct say of `success`, read as a list: the last one with the id 0 and
  -- the type of the method's result.
  unfoldable pub latest : (Value → Option A) → Success A → List Field → Success A
  latest pick s [] = s
  latest pick s (written name fid v ∷ fs) =
      latest pick
        (if is_zero fid
          then (elim (pick v) [ none ↦ s | some a ↦ record { success = a; isset = true } ])
          else s)
        fs

-- How the reader of one method's result agrees with `pick`, on what it wants and on what it does not.
pub record Picks {ℓ} {A : Type ℓ} (p : Protocol) (wanted : FieldType → Bool)
    (read : List ℕ → Option (A × List ℕ)) (pick : Value → Option A) : Type ℓ where
  pub wants :
      (v : Value) (a : A) (rest : List ℕ)
      → pick v ≡ some a
      → Fits p v
      → (wanted (type_of v) ≡ true) × (read (write_value p v ++ rest) ≡ some (a, rest))
  pub refuses : (v : Value) → pick v ≡ none → wanted (type_of v) ≡ false

module _ {ℓ} {A : Type ℓ} (p : Protocol) (l : Lawful p) (wanted : FieldType → Bool)
    (read : List ℕ → Option (A × List ℕ)) (pick : Value → Option A)
    (agrees : Picks p wanted read pick) where
  -- A field that is not wanted is passed over.
  other_field :
      (onward : Success A → List ℕ → Read (Success A)) (s : Success A) (fid : ℤ) (v : Value)
      (rest : List ℕ)
      → Fits p v
      → (is_zero fid && wanted (type_of v)) ≡ false
      → success_field p wanted read onward s
          (field (type_of v) fid)
          (write_value p v ++ (p.write_field_end ++ rest))
        ≡ onward s rest
  unfolding success_field passed
  other_field onward s fid v rest fits e =
      rw
        (
          success_field,
          not_stop v,
          e,
          l.skips_value v (p.write_field_end ++ rest) fits,
          l.reads_field_end rest,
        )
        refl

  wanted_field :
      (onward : Success A → List ℕ → Read (Success A)) (s : Success A) (fid : ℤ) (v : Value) (a : A)
      (rest : List ℕ)
      → Fits p v
      → is_zero fid ≡ true
      → pick v ≡ some a
      → success_field p wanted read onward s
          (field (type_of v) fid)
          (write_value p v ++ (p.write_field_end ++ rest))
        ≡ onward (record { success = a; isset = true }) rest
  unfolding success_field passed gave
  wanted_field onward s fid v a rest fits zero_id picked =
      let both = agrees.wants v a (p.write_field_end ++ rest) picked fits in
      rw (success_field, not_stop v, zero_id, both.0, both.1, l.reads_field_end rest) refl

  one_field :
      (onward : Success A → List ℕ → Read (Success A)) (s : Success A) (name : List ℕ) (fid : ℤ)
      (v : Value) (rest : List ℕ)
      → Fits p v
      → success_field p wanted read onward s
          (field (type_of v) fid)
          (write_value p v ++ (p.write_field_end ++ rest))
        ≡ onward (latest pick s (written name fid v ∷ [])) rest
  unfolding latest
  one_field onward s name fid v rest fits = elim (Bool-cases (is_zero fid)) [
    | inl zero_id ↦ elim (Option-cases (pick v)) [
      | inl e ↦
          let off : (is_zero fid && wanted (type_of v)) ≡ false =
            rw (zero_id, agrees.refuses v e) refl in
          rw (zero_id, e, other_field onward s fid v rest fits off) refl
      | inr (a, e) ↦ rw (wanted_field onward s fid v a rest fits zero_id e, zero_id, e) refl
    ]
    | inr other_id ↦
        let off : (is_zero fid && wanted (type_of v)) ≡ false = rw other_id refl in
        rw (other_id, other_field onward s fid v rest fits off) refl
  ]

  fields_read :
      (fuel : ℕ) (s : Success A) (fs : List Field) (rest : List ℕ)
      → AllFit p fs
      → length (write_fields p fs ++ rest) < fuel
      → success_fields p wanted read fuel s (write_fields p fs ++ rest)
        ≡ done (latest pick s fs) rest
  unfolding success_fields success_field write_fields gave is_stop latest FieldFits
  fields_read zero s fs rest fits lt = absurd (omega arith)
  fields_read (suc fuel) s [] rest fits lt = rw (l.reads_stop rest) refl
  fields_read (suc fuel) s (written name fid v ∷ fs) rest (one_more (range, fit) more) lt =
      let e = write_fields-cons p name fid v fs rest in
      let begin =
        l.reads_field name v fid
          (write_value p v ++ (p.write_field_end ++ (write_fields p fs ++ rest))) range in
      let here =
        one_field (success_fields p wanted read fuel) s name fid v (write_fields p fs ++ rest)
          fit in
      rw (e, begin, here)
        (fields_read fuel (latest pick s (written name fid v ∷ [])) fs rest more (
          length-field_begin p l name v fid p.write_field_end (write_fields p fs ++ rest) fuel range
            (rw (sym e) lt)))

  pub success_read-struct :
      (name : List ℕ) (s : Success A) (fs : List Field) (rest : List ℕ)
      → AllFit p fs
      → success_read p wanted read s (write_struct p name fs ++ rest) ≡ done (latest pick s fs) rest
  unfolding success_read passed read_then
  success_read-struct name s fs rest fits =
      let body = write_fields p fs ++ (p.write_struct_end ++ rest) in
      let fields =
        fields_read (suc (length body)) s fs (p.write_struct_end ++ rest) fits (omega arith) in
      rw
        (write_struct_lem p name fs rest, l.reads_struct name body, fields, l.reads_struct_end rest)
        refl
