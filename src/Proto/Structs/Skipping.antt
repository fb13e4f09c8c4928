-- ===== src/Proto/Structs/Skipping.antt =====
-- The readers of `TestProto_remoteTime_args` and `TestProto_send_args` pass over every field.
use network_demo.Base.{
  ℕ, zero, suc, ◌<◌, ◌≤◌, ◌≡◌, refl, true, List, [], ◌∷◌, ◌++◌, length, inl, inr, sym, Bool-cases,
  arith,
}
use network_demo.Proto.Wire.{
  Protocol, Shrinks, Lawful, FieldHead, is_stop, field, Read, done, passed, gave, read_then, Field,
  written, FieldFits, AllFit, one_more, write_value, write_fields, write_struct,
}
use network_demo.Proto.Wire.Laws.{
  ends, passed-ends, gave-ends, read_then-ends, write_fields-cons, write_struct_lem,
  length-field_begin, not_stop,
}
use network_demo.Proto.Structs.{Args, args, skip_field, skip_fields, args_read}

module _ (p : Protocol) (l : Shrinks p) where
  skip_field-ends :
      (onward : List ℕ → Read Args) (h : FieldHead) (rest : List ℕ)
      → ((r : List ℕ) → length r ≤ length rest → ends (onward r) ≡ true)
      → ends (skip_field p onward h rest) ≡ true
  unfolding skip_field ends
  skip_field-ends onward (field ftype fid) rest h = elim (Bool-cases (is_stop ftype)) [
    | inl stop ↦ rw (skip_field, stop) refl
    | inr more ↦
        rw (skip_field, more)
          (passed-ends (p.skip ftype rest) _ (λ r e. passed-ends (p.read_field_end r) _ (λ r1 e1.
            h r1 (omega (arith, l.skip_shorter ftype rest r e, l.field_end_shorter r r1 e1)))))
  ]

  skip_fields-ends :
      (fuel : ℕ) (input : List ℕ) → length input < fuel → ends (skip_fields p fuel input) ≡ true
  unfolding skip_fields
  skip_fields-ends zero input lt = absurd (omega arith)
  skip_fields-ends (suc fuel) input lt = gave-ends (p.read_field_begin input) _ (λ h r e.
      skip_field-ends (skip_fields p fuel) h r
        (λ r1 le. skip_fields-ends fuel r1 (omega (arith, le, lt, l.field_shorter h input r e))))

  pub args_read-ends : (input : List ℕ) → ends (args_read p input) ≡ true
  unfolding args_read ends
  args_read-ends input = passed-ends (p.read_struct_begin input) _ (λ r e.
      read_then-ends _ _ (skip_fields-ends (suc (length r)) r (omega arith))
        (λ s1 r1. passed-ends (p.read_struct_end r1) _ (λ r2 e2. refl)))

module _ (p : Protocol) (l : Lawful p) where
  skipped :
      (fuel : ℕ) (fs : List Field) (rest : List ℕ)
      → AllFit p fs
      → length (write_fields p fs ++ rest) < fuel
      → skip_fields p fuel (write_fields p fs ++ rest) ≡ done args rest
  unfolding skip_fields skip_field write_fields gave passed is_stop FieldFits
  skipped zero fs rest fits lt = absurd (omega arith)
  skipped (suc fuel) [] rest fits lt = rw (l.reads_stop rest) refl
  skipped (suc fuel) (written name fid v ∷ fs) rest (one_more (range, fit) more) lt =
      let e = write_fields-cons p name fid v fs rest in
      let tail = write_fields p fs ++ rest in
      let begin = l.reads_field name v fid (write_value p v ++ (p.write_field_end ++ tail)) range in
      rw
        (
          e,
          begin,
          not_stop v,
          l.skips_value v (p.write_field_end ++ tail) fit,
          l.reads_field_end tail,
        )
        (skipped fuel fs rest more
          (length-field_begin p l name v fid p.write_field_end tail fuel range (rw (sym e) lt)))

  pub args_read-struct :
      (name : List ℕ) (fs : List Field) (rest : List ℕ)
      → AllFit p fs
      → args_read p (write_struct p name fs ++ rest) ≡ done args rest
  unfolding args_read passed read_then
  args_read-struct name fs rest fits =
      let body = write_fields p fs ++ (p.write_struct_end ++ rest) in
      let fields = skipped (suc (length body)) fs (p.write_struct_end ++ rest) fits (omega arith) in
      rw
        (write_struct_lem p name fs rest, l.reads_struct name body, fields, l.reads_struct_end rest)
        refl
