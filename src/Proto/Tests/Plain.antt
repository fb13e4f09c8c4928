-- ===== src/Proto/Tests/Plain.antt =====
-- A protocol that has the laws of the library: numbers stand for themselves behind their sign, a
-- text behind its length, and a field behind the code of its type.
pub mod Laws
use network_demo.Base.{ℕ, zero, suc, List, [], ◌∷◌, ◌++◌, length, take, drop, Option, none, some}
use network_demo.Base.Text.{ℤ, pos, negsuc}
use network_demo.Proto.Wire.{
  FieldType, t_stop, t_i64, t_string, t_struct, t_other, MessageType, t_call, t_reply, t_exception,
  m_other, MessageHead, message, FieldHead, field, ExceptionType, unknown, unknown_method,
  missing_result, x_other, ApplicationException, application, Protocol,
}

abbrev pub put_int : ℤ → List ℕ
put_int (pos n) = 0 ∷ n ∷ []
put_int (negsuc n) = 1 ∷ n ∷ []

abbrev pub put_text : List ℕ → List ℕ
put_text s = length s ∷ s

abbrev pub int_of : ℕ → ℕ → ℤ
int_of zero n = pos n
int_of (suc k) n = negsuc n

abbrev pub get_int : List ℕ → Option (ℤ × List ℕ)
get_int [] = none
get_int (k ∷ []) = none
get_int (k ∷ n ∷ rest) = some (int_of k n, rest)

abbrev pub get_text : List ℕ → Option (List ℕ × List ℕ)
get_text [] = none
get_text (n ∷ rest) = some (take n rest, drop n rest)

abbrev pub put_type : FieldType → ℕ
put_type t_stop = 0
put_type t_i64 = 1
put_type t_string = 2
put_type t_struct = 3
put_type (t_other n) = suc (suc (suc (suc n)))

abbrev pub type_at : ℕ → FieldType
type_at zero = t_stop
type_at (suc zero) = t_i64
type_at (suc (suc zero)) = t_string
type_at (suc (suc (suc zero))) = t_struct
type_at (suc (suc (suc (suc n)))) = t_other n

abbrev pub put_kind : MessageType → ℕ
put_kind t_call = 0
put_kind t_reply = 1
put_kind t_exception = 2
put_kind (m_other n) = suc (suc (suc n))

abbrev pub kind_at : ℕ → MessageType
kind_at zero = t_call
kind_at (suc zero) = t_reply
kind_at (suc (suc zero)) = t_exception
kind_at (suc (suc (suc n))) = m_other n

abbrev pub put_reason : ExceptionType → ℕ
put_reason unknown = 0
put_reason unknown_method = 1
put_reason missing_result = 2
put_reason (x_other n) = suc (suc (suc n))

abbrev pub reason_at : ℕ → ExceptionType
reason_at zero = unknown
reason_at (suc zero) = unknown_method
reason_at (suc (suc zero)) = missing_result
reason_at (suc (suc (suc n))) = x_other n

abbrev pub get_field : List ℕ → Option (FieldHead × List ℕ)
get_field [] = none
get_field (zero ∷ rest) = some (field t_stop (pos 0), rest)
get_field (suc c ∷ []) = none
get_field (suc c ∷ k ∷ []) = none
get_field (suc c ∷ k ∷ n ∷ rest) = some (field (type_at (suc c)) (int_of k n), rest)

abbrev pub get_head : List ℕ → Option (MessageHead × List ℕ)
get_head [] = none
get_head (c ∷ []) = none
get_head (c ∷ k ∷ []) = none
get_head (c ∷ k ∷ n ∷ []) = none
get_head (c ∷ k ∷ n ∷ m ∷ rest) = some (message (take m rest) (kind_at c) (int_of k n), drop m rest)

abbrev pub get_exception : List ℕ → Option (ApplicationException × List ℕ)
get_exception [] = none
get_exception (c ∷ []) = none
get_exception (c ∷ n ∷ rest) = some (application (reason_at c) (take n rest), drop n rest)

abbrev pub skip_value : FieldType → List ℕ → Option (List ℕ)
skip_value t_i64 (k ∷ n ∷ rest) = some rest
skip_value t_string (n ∷ rest) = some (drop n rest)
skip_value (t_other n) (m ∷ rest) = some rest
skip_value t input = none

-- A value, with what passes over a struct.
abbrev pub skip_one : (List ℕ → Option (List ℕ)) → FieldType → List ℕ → Option (List ℕ)
skip_one k t_struct input = k input
skip_one k t input = skip_value t input

abbrev pub then_skip : (List ℕ → Option (List ℕ)) → Option (List ℕ) → Option (List ℕ)
then_skip k none = none
then_skip k (some rest) = k rest

abbrev pub skip_at : (List ℕ → Option (List ℕ)) → Option (FieldHead × List ℕ) → Option (List ℕ)
skip_at k none = none
skip_at k (some (field t_stop fid, rest)) = some rest
skip_at k (some (field t fid, rest)) = then_skip k (skip_one k t rest)

abbrev pub skip_struct : ℕ → List ℕ → Option (List ℕ)
skip_struct zero input = none
skip_struct (suc fuel) input = skip_at (skip_struct fuel) (get_field input)

abbrev pub skip_any : FieldType → List ℕ → Option (List ℕ)
skip_any t input = skip_one (skip_struct (suc (length input))) t input

abbrev pub plain : Protocol
plain = record {
  write_message_begin = λ name t seqid. put_kind t ∷ (put_int seqid ++ put_text name);
  write_message_end = [];
  write_struct_begin = λ name. [];
  write_struct_end = [];
  write_field_begin = λ name t fid. put_type t ∷ put_int fid;
  write_field_end = [];
  write_field_stop = 0 ∷ [];
  write_i64 = put_int;
  write_string = put_text;
  write_exception = λ x. elim x [ application k what ↦ put_reason k ∷ put_text what ];
  read_message_begin = get_head;
  read_message_end = some;
  read_struct_begin = some;
  read_struct_end = some;
  read_field_begin = get_field;
  read_field_end = some;
  read_i64 = get_int;
  read_string = get_text;
  read_exception = get_exception;
  skip = skip_any;
}
