-- ===== src/Proto/Wire.antt =====
-- The protocol of Thrift as the generated code calls it (src/Example-ThriftRPC/gen-cpp): writing
-- gives the bytes that reach the peer, reading takes them from the front. The documented laws of
-- the library are a record of their own.
pub mod Laws
use network_demo.Base.{
  ℕ, ◌<◌, ◌≤◌, ◌^◌, ◌≡◌, Bool, true, false, List, [], ◌∷◌, ◌++◌, length, Option, none, some,
}
use network_demo.Base.Text.{ℤ, pos}
use network_demo.Base.Text.Laws.{InRange}

pub data FieldType : Type 0 where
  t_stop t_i64 t_string t_struct : FieldType
  t_other : ℕ → FieldType

unfoldable pub is_stop : FieldType → Bool
is_stop t_stop = true
is_stop t_i64 = false
is_stop t_string = false
is_stop t_struct = false
is_stop (t_other n) = false

unfoldable pub is_i64 : FieldType → Bool
is_i64 t_stop = false
is_i64 t_i64 = true
is_i64 t_string = false
is_i64 t_struct = false
is_i64 (t_other n) = false

unfoldable pub is_string : FieldType → Bool
is_string t_stop = false
is_string t_i64 = false
is_string t_string = true
is_string t_struct = false
is_string (t_other n) = false

pub data MessageType : Type 0 where
  t_call t_reply t_exception : MessageType
  m_other : ℕ → MessageType

pub data MessageHead : Type 0 where
  message : (name : List ℕ) (mtype : MessageType) (seqid : ℤ) → MessageHead

-- What `readFieldBegin` finds; the name of a field is read by nobody.
pub data FieldHead : Type 0 where
  field : (ftype : FieldType) (fid : ℤ) → FieldHead

-- `TApplicationException`: its type and its text.
pub data ExceptionType : Type 0 where
  unknown unknown_method missing_result : ExceptionType
  x_other : ℕ → ExceptionType

pub data ApplicationException : Type 0 where
  application : ExceptionType → (what : List ℕ) → ApplicationException

-- `TProtocol`: what a reader gives is the value with the bytes left over, `none` an exception.
pub record Protocol : Type 0 where
  pub write_message_begin : List ℕ → MessageType → ℤ → List ℕ
  pub write_message_end : List ℕ
  pub write_struct_begin : List ℕ → List ℕ
  pub write_struct_end : List ℕ
  pub write_field_begin : List ℕ → FieldType → ℤ → List ℕ
  pub write_field_end : List ℕ
  pub write_field_stop : List ℕ
  pub write_i64 : ℤ → List ℕ
  pub write_string : List ℕ → List ℕ
  pub write_exception : ApplicationException → List ℕ
  pub read_message_begin : List ℕ → Option (MessageHead × List ℕ)
  pub read_message_end : List ℕ → Option (List ℕ)
  pub read_struct_begin : List ℕ → Option (List ℕ)
  pub read_struct_end : List ℕ → Option (List ℕ)
  pub read_field_begin : List ℕ → Option (FieldHead × List ℕ)
  pub read_field_end : List ℕ → Option (List ℕ)
  pub read_i64 : List ℕ → Option (ℤ × List ℕ)
  pub read_string : List ℕ → Option (List ℕ × List ℕ)
  pub read_exception : List ℕ → Option (ApplicationException × List ℕ)
  pub skip : FieldType → List ℕ → Option (List ℕ)

-- How a reader of the generated code ends: a value with the bytes left over, an exception of the
-- library, or the end of the fuel.
pub data Read {ℓ} (A : Type ℓ) : Type ℓ where
  done : A → List ℕ → Read A
  failed endless : Read A

unfoldable pub passed {ℓ} : {A : Type ℓ} → Option (List ℕ) → (List ℕ → Read A) → Read A
passed none k = failed
passed (some rest) k = k rest

unfoldable pub gave {ℓ ℓ'} :
    {A : Type ℓ} {B : Type ℓ'} → Option (A × List ℕ) → (A → List ℕ → Read B) → Read B
gave none k = failed
gave (some (a, rest)) k = k a rest

unfoldable pub read_then {ℓ ℓ'} :
    {A : Type ℓ} {B : Type ℓ'} → Read A → (A → List ℕ → Read B) → Read B
read_then (done a rest) k = k a rest
read_then failed k = failed
read_then endless k = endless

-- The value of a field as some version of the service may write it. The generated code writes numbers
-- and texts; a struct and a value of a type that it does not name are the bytes that they take.
pub data Value : Type 0 where
  i64 : ℤ → Value
  text nested : List ℕ → Value
  other : (code : ℕ) → List ℕ → Value

unfoldable pub type_of : Value → FieldType
type_of (i64 n) = t_i64
type_of (text s) = t_string
type_of (nested bytes) = t_struct
type_of (other code bytes) = t_other code

pub data Field : Type 0 where
  written : (name : List ℕ) (fid : ℤ) → Value → Field

module _ (p : Protocol) where
  -- The lengths and the integers that the protocol has room for; the bytes of another value are those
  -- of one value to the library, which passes over them and no more.
  unfoldable pub Fits : Value → Type 0
  Fits (i64 n) = InRange 64 n
  Fits (text s) = length s < 2 ^ 31
  Fits (nested bytes) = (rest : List ℕ) → p.skip t_struct (bytes ++ rest) ≡ some rest
  Fits (other code bytes) = (rest : List ℕ) → p.skip (t_other code) (bytes ++ rest) ≡ some rest

  unfoldable pub FieldFits : Field → Type 0
  unfolding Fits
  FieldFits (written name fid v) = InRange 16 fid × Fits v

  unfoldable pub write_value : Value → List ℕ
  write_value (i64 n) = p.write_i64 n
  write_value (text s) = p.write_string s
  write_value (nested bytes) = bytes
  write_value (other code bytes) = bytes

  unfoldable pub write_field : Field → List ℕ
  unfolding type_of write_value
  write_field (written name fid v) =
      p.write_field_begin name (type_of v) fid ++ write_value v ++ p.write_field_end

  unfoldable pub write_fields : List Field → List ℕ
  unfolding write_field
  write_fields [] = p.write_field_stop
  write_fields (f ∷ fs) = write_field f ++ write_fields fs

  unfoldable pub write_struct : List ℕ → List Field → List ℕ
  unfolding write_fields
  write_struct name fs = p.write_struct_begin name ++ write_fields fs ++ p.write_struct_end

pub data AllFit (p : Protocol) : List Field → Type 0 where
  none_left : AllFit p []
  one_more : {f : Field} {fs : List Field} → FieldFits p f → AllFit p fs → AllFit p (f ∷ fs)

-- No reader gives back more bytes than it was given, and the head of a field takes at least one.
pub record Shrinks (p : Protocol) : Type 0 where
  pub field_shorter :
      (h : FieldHead) (input rest : List ℕ)
      → p.read_field_begin input ≡ some (h, rest)
      → length rest < length input
  pub field_end_shorter :
      (input rest : List ℕ) → p.read_field_end input ≡ some rest → length rest ≤ length input
  pub i64_shorter :
      (n : ℤ) (input rest : List ℕ) → p.read_i64 input ≡ some (n, rest) → length rest ≤ length input
  pub string_shorter :
      (s input rest : List ℕ) → p.read_string input ≡ some (s, rest) → length rest ≤ length input
  pub skip_shorter :
      (t : FieldType) (input rest : List ℕ)
      → p.skip t input ≡ some rest
      → length rest ≤ length input

-- What the library documents: what is written is read back with the rest untouched, `skip` passes
-- over one value of the type that it is given, and readers take bytes away.
pub record Lawful (p : Protocol) : Type 0 where
  pub reads_message :
      (name : List ℕ) (t : MessageType) (seqid : ℤ) (rest : List ℕ)
      → length name < 2 ^ 31
      → InRange 32 seqid
      → p.read_message_begin (p.write_message_begin name t seqid ++ rest)
        ≡ some (message name t seqid, rest)
  pub reads_message_end :
      (rest : List ℕ) → p.read_message_end (p.write_message_end ++ rest) ≡ some rest
  pub reads_struct :
      (name rest : List ℕ) → p.read_struct_begin (p.write_struct_begin name ++ rest) ≡ some rest
  pub reads_struct_end :
      (rest : List ℕ) → p.read_struct_end (p.write_struct_end ++ rest) ≡ some rest
  pub reads_field :
      (name : List ℕ) (v : Value) (fid : ℤ) (rest : List ℕ)
      → InRange 16 fid
      → p.read_field_begin (p.write_field_begin name (type_of v) fid ++ rest)
        ≡ some (field (type_of v) fid, rest)
  pub reads_field_end : (rest : List ℕ) → p.read_field_end (p.write_field_end ++ rest) ≡ some rest
  pub reads_stop :
      (rest : List ℕ)
      → p.read_field_begin (p.write_field_stop ++ rest) ≡ some (field t_stop (pos 0), rest)
  pub reads_i64 :
      (n : ℤ) (rest : List ℕ) → InRange 64 n → p.read_i64 (p.write_i64 n ++ rest) ≡ some (n, rest)
  pub reads_string :
      (s rest : List ℕ)
      → length s < 2 ^ 31
      → p.read_string (p.write_string s ++ rest) ≡ some (s, rest)
  pub reads_exception :
      (k : ExceptionType) (what rest : List ℕ)
      → length what < 2 ^ 31
      → p.read_exception (p.write_exception (application k what) ++ rest)
        ≡ some (application k what, rest)
  pub skips_value :
      (v : Value) (rest : List ℕ)
      → Fits p v
      → p.skip (type_of v) (write_value p v ++ rest) ≡ some rest
  pub skips_struct :
      (name : List ℕ) (fs : List Field) (rest : List ℕ)
      → AllFit p fs
      → p.skip t_struct (write_struct p name fs ++ rest) ≡ some rest
  pub shrinks : Shrinks p
