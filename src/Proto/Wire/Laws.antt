-- ===== src/Proto/Wire/Laws.antt =====
-- Readers that end, and the bytes of a struct part by part.
use mathlib.Core.List.{append_assoc}
use network_demo.Base.{
  ℕ, suc, ◌<◌, ◌≡◌, refl, Bool, true, false, List, [], ◌∷◌, ◌++◌, length, length-append, Option,
  none, some, arith,
}
use network_demo.Base.Text.{ℤ}
use network_demo.Base.Text.Laws.{InRange}
use network_demo.Proto.Wire.{
  Protocol, Lawful, Read, done, failed, endless, passed, gave, read_then, Value, i64, text, nested,
  other, is_stop, Field, written, type_of, write_value, write_field, write_fields, write_struct,
}

-- Whether a reader has ended by itself, with a value or an exception.
unfoldable pub ends {ℓ} : {A : Type ℓ} → Read A → Bool
ends (done a rest) = true
ends failed = true
ends endless = false

pub passed-ends {ℓ} :
    {A : Type ℓ} (o : Option (List ℕ)) (k : List ℕ → Read A)
    → ((r : List ℕ) → o ≡ some r → ends (k r) ≡ true)
    → ends (passed o k) ≡ true
unfolding passed ends
passed-ends none k h = refl
passed-ends (some r) k h = h r refl

pub gave-ends {ℓ ℓ'} :
    {A : Type ℓ} {B : Type ℓ'} (o : Option (A × List ℕ)) (k : A → List ℕ → Read B)
    → ((a : A) (r : List ℕ) → o ≡ some (a, r) → ends (k a r) ≡ true)
    → ends (gave o k) ≡ true
unfolding gave ends
gave-ends none k h = refl
gave-ends (some (a, r)) k h = h a r refl

pub read_then-ends {ℓ ℓ'} :
    {A : Type ℓ} {B : Type ℓ'} (m : Read A) (k : A → List ℕ → Read B)
    → ends m ≡ true
    → ((a : A) (r : List ℕ) → ends (k a r) ≡ true)
    → ends (read_then m k) ≡ true
unfolding read_then ends
read_then-ends (done a r) k e h = h a r
read_then-ends failed k e h = refl
read_then-ends endless k e h = e

pub not_stop : (v : Value) → is_stop (type_of v) ≡ false
unfolding is_stop type_of
not_stop (i64 n) = refl
not_stop (text s) = refl
not_stop (nested bytes) = refl
not_stop (other code bytes) = refl

module _ (p : Protocol) where
  pub write_fields-cons :
      (name : List ℕ) (fid : ℤ) (v : Value) (fs : List Field) (rest : List ℕ)
      → write_fields p (written name fid v ∷ fs) ++ rest
        ≡ p.write_field_begin name (type_of v) fid
          ++ (write_value p v ++ (p.write_field_end ++ (write_fields p fs ++ rest)))
  unfolding write_fields write_field
  write_fields-cons name fid v fs rest = simp append_assoc

  pub write_struct_lem :
      (name : List ℕ) (fs : List Field) (rest : List ℕ)
      → write_struct p name fs ++ rest
        ≡ p.write_struct_begin name ++ (write_fields p fs ++ (p.write_struct_end ++ rest))
  unfolding write_struct
  write_struct_lem name fs rest = simp append_assoc

  -- A field takes at least one byte.
  pub length-field_begin :
      Lawful p
      → (name : List ℕ) (v : Value) (fid : ℤ) (more rest : List ℕ) (fuel : ℕ) → InRange 16 fid
      → length (p.write_field_begin name (type_of v) fid ++ (write_value p v ++ (more ++ rest)))
        < suc fuel
      → length rest < fuel
  length-field_begin l name v fid more rest fuel range h =
      let shorter = l.shrinks.field_shorter _ _ _ (l.reads_field name v fid [] range) in
      omega (
        arith,
        shorter,
        h,
        length-append (p.write_field_begin name (type_of v) fid) [],
        length-append (p.write_field_begin name (type_of v) fid)
            (write_value p v ++ (more ++ rest)),
        length-append (write_value p v) (more ++ rest),
        length-append more rest,
      )
