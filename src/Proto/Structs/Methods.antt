-- ===== src/Proto/Structs/Methods.antt =====
-- The structs of the two methods: what each of the generated readers and writers does.
use mathlib.Core.List.{append_assoc}
use network_demo.Base.{
  ℕ, ◌<◌, ◌^◌, ◌≡◌, refl, Bool, true, false, if◌then◌else◌, List, [], ◌∷◌, ◌++◌, length, Option,
  none, some, sym, arith,
}
use network_demo.Base.Text.{ℤ, pos, codes}
use network_demo.Base.Text.Laws.{InRange}
use network_demo.Proto.Wire.{
  Protocol, Shrinks, Lawful, FieldType, is_i64, is_string, t_i64, t_string, t_struct, done, Value,
  i64, text, nested, other, Field, written, type_of, Fits, FieldFits, AllFit, none_left, one_more,
  write_value, write_field, write_fields, write_struct,
}
use network_demo.Proto.Wire.Laws.{ends}
use network_demo.Proto.Structs.{
  args, Success, remote_time_result, send_result, remote_time_args_read, send_args_read,
  remote_time_result_read, remote_time_presult_read, send_result_read, send_presult_read,
  remote_time_result_write, send_result_write, is_zero, args_write, success_write,
}
use network_demo.Proto.Structs.Laws.{latest, Picks, success_read-ends, success_read-struct}
use network_demo.Proto.Structs.Skipping.{args_read-ends, args_read-struct}

unfoldable pub as_i64 : Value → Option ℤ
as_i64 (i64 n) = some n
as_i64 (text s) = none
as_i64 (nested bytes) = none
as_i64 (other code bytes) = none

unfoldable pub as_string : Value → Option (List ℕ)
as_string (i64 n) = none
as_string (text s) = some s
as_string (nested bytes) = none
as_string (other code bytes) = none

module _ (p : Protocol) (l : Shrinks p) where
  -- Every reader of a struct ends by itself, with a value or an exception, on any bytes, for a
  -- protocol where the head of a field takes at least one byte and no reader of it gives back more
  -- bytes than it was given.
  pub read-ends :
      (input : List ℕ) (time : Success ℤ) (data_ : Success (List ℕ))
      → (ends (remote_time_args_read p input) ≡ true)
        × (ends (send_args_read p input) ≡ true)
        × (ends (remote_time_result_read p time input) ≡ true)
        × (ends (remote_time_presult_read p time input) ≡ true)
        × (ends (send_result_read p data_ input) ≡ true)
        × (ends (send_presult_read p data_ input) ≡ true)
  unfolding remote_time_args_read send_args_read remote_time_result_read remote_time_presult_read
      send_result_read send_presult_read
  read-ends input time data_ =
      let times = success_read-ends p l is_i64 (p.read_i64) l.i64_shorter time input in
      let texts = success_read-ends p l is_string (p.read_string) l.string_shorter data_ input in
      (args_read-ends p l input, args_read-ends p l input, times, times, texts, texts)

range_zero : InRange 16 (pos 0)
range_zero = omega arith

module _ (p : Protocol) (l : Lawful p) where
  i64_wants :
      (v : Value) (a : ℤ) (rest : List ℕ)
      → as_i64 v ≡ some a
      → Fits p v
      → (is_i64 (type_of v) ≡ true) × (p.read_i64 (write_value p v ++ rest) ≡ some (a, rest))
  unfolding as_i64 is_i64 type_of write_value Fits
  i64_wants (i64 n) a rest e fits =
      let same : n ≡ a = cc in rw (sym same) (refl, l.reads_i64 n rest fits)
  i64_wants (text s) a rest e fits = absurd (cc)
  i64_wants (nested bytes) a rest e fits = absurd (cc)
  i64_wants (other code bytes) a rest e fits = absurd (cc)

  i64_refuses : (v : Value) → as_i64 v ≡ none → is_i64 (type_of v) ≡ false
  unfolding as_i64 is_i64 type_of
  i64_refuses (i64 n) e = absurd (cc)
  i64_refuses (text s) e = refl
  i64_refuses (nested bytes) e = refl
  i64_refuses (other code bytes) e = refl

  string_wants :
      (v : Value) (a rest : List ℕ)
      → as_string v ≡ some a
      → Fits p v
      → (is_string (type_of v) ≡ true) × (p.read_string (write_value p v ++ rest) ≡ some (a, rest))
  unfolding as_string is_string type_of write_value Fits
  string_wants (i64 n) a rest e fits = absurd (cc)
  string_wants (text s) a rest e fits =
      let same : s ≡ a = cc in rw (sym same) (refl, l.reads_string s rest fits)
  string_wants (nested bytes) a rest e fits = absurd (cc)
  string_wants (other code bytes) a rest e fits = absurd (cc)

  string_refuses : (v : Value) → as_string v ≡ none → is_string (type_of v) ≡ false
  unfolding as_string is_string type_of
  string_refuses (i64 n) e = refl
  string_refuses (text s) e = absurd (cc)
  string_refuses (nested bytes) e = refl
  string_refuses (other code bytes) e = refl

  i64-Picks : Picks p is_i64 (p.read_i64) as_i64
  i64-Picks = record { wants = i64_wants; refuses = i64_refuses }

  string-Picks : Picks p is_string (p.read_string) as_string
  string-Picks = record { wants = string_wants; refuses = string_refuses }

  -- On the bytes of a struct with fields of any types and ids, the readers of the two results, as the
  -- client and as the server have them, give the last field with the id 0 and the type of the method's
  -- result, or what the struct had before if there is none, and leave the bytes behind the struct. The
  -- protocol has the documented laws of the library, the ids have 16 bits, the numbers 64, the texts
  -- less than 2^31 bytes, and any other value is one that the library can pass over.
  pub result_read-struct :
      (name : List ℕ) (time : Success ℤ) (data_ : Success (List ℕ)) (fs : List Field)
      (rest : List ℕ)
      → AllFit p fs
      → (remote_time_result_read p time (write_struct p name fs ++ rest)
          ≡ done (latest as_i64 time fs) rest)
        × (remote_time_presult_read p time (write_struct p name fs ++ rest)
            ≡ done (latest as_i64 time fs) rest)
        × (send_result_read p data_ (write_struct p name fs ++ rest)
            ≡ done (latest as_string data_ fs) rest)
        × (send_presult_read p data_ (write_struct p name fs ++ rest)
            ≡ done (latest as_string data_ fs) rest)
  unfolding remote_time_result_read remote_time_presult_read send_result_read send_presult_read
  result_read-struct name time data_ fs rest fits =
      let times =
        success_read-struct p l is_i64 (p.read_i64) as_i64 i64-Picks name time fs rest fits in
      let texts =
        success_read-struct p l is_string (p.read_string) as_string string-Picks name data_ fs rest
          fits in
      (times, times, texts, texts)

  -- The readers of the arguments take a struct with any fields as arguments, and leave the bytes
  -- behind it: a newer version of the service may add fields.
  pub args_read-any_struct :
      (name : List ℕ) (fs : List Field) (rest : List ℕ)
      → AllFit p fs
      → (remote_time_args_read p (write_struct p name fs ++ rest) ≡ done args rest)
        × (send_args_read p (write_struct p name fs ++ rest) ≡ done args rest)
  unfolding remote_time_args_read send_args_read
  args_read-any_struct name fs rest fits =
      let all = args_read-struct p l name fs rest fits in (all, all)

  written_args : (name : List ℕ) → args_write p name ≡ write_struct p name []
  unfolding args_write write_struct write_fields
  written_args name = refl

  written_i64 :
      (name : List ℕ) (n : ℤ)
      → success_write p name t_i64 (p.write_i64) (record { success = n; isset = true })
        ≡ write_struct p name (written (codes "success") (pos 0) (i64 n) ∷ [])
  unfolding success_write write_struct write_fields write_field write_value type_of
  written_i64 name n = simp append_assoc

  written_string :
      (name s : List ℕ)
      → success_write p name t_string (p.write_string) (record { success = s; isset = true })
        ≡ write_struct p name (written (codes "success") (pos 0) (text s) ∷ [])
  unfolding success_write write_struct write_fields write_field write_value type_of
  written_string name s = simp append_assoc

  written_none {ℓ} :
      {A : Type ℓ} (name : List ℕ) (t : FieldType) (write : A → List ℕ) (a : A)
      → success_write p name t write (record { success = a; isset = false })
        ≡ write_struct p name []
  unfolding success_write write_struct write_fields
  written_none name t write a = simp append_assoc

  pub time_back :
      (time : Success ℤ) (n : ℤ) (set : Bool) (rest : List ℕ)
      → InRange 64 n
      → remote_time_presult_read p time
          (remote_time_result_write p (record { success = n; isset = set }) ++ rest)
        ≡ done (if set then record { success = n; isset = true } else time) rest
  unfolding remote_time_result_write success_write write_struct write_fields latest is_zero as_i64
      Fits FieldFits
  time_back time n true rest range =
      let e = written_i64 (codes "TestProto_remoteTime_result") n in
      rw (remote_time_result_write, e)
        ((result_read-struct _ time send_result _ rest (
          one_more {f = written (codes "success") (pos 0) (i64 n)} (range_zero, range)
            none_left)).1)
  time_back time n false rest range =
      rw
        (
          remote_time_result_write,
          written_none (codes "TestProto_remoteTime_result") t_i64 (p.write_i64) n,
        )
        ((result_read-struct _ time send_result [] rest none_left).1)

  pub text_back :
      (data_ : Success (List ℕ)) (s : List ℕ) (set : Bool) (rest : List ℕ)
      → length s < 2 ^ 31
      → send_presult_read p data_
          (send_result_write p (record { success = s; isset = set }) ++ rest)
        ≡ done (if set then record { success = s; isset = true } else data_) rest
  unfolding send_result_write success_write write_struct write_fields latest is_zero as_string Fits
      FieldFits
  text_back data_ s true rest short =
      let e = written_string (codes "TestProto_send_result") s in
      rw (send_result_write, e)
        ((result_read-struct _ remote_time_result data_ _ rest (
          one_more {f = written (codes "success") (pos 0) (text s)} (range_zero, short)
            none_left)).3)
  text_back data_ s false rest short =
      rw
        (
          send_result_write,
          written_none (codes "TestProto_send_result") t_string (p.write_string) s,
        )
        ((result_read-struct _ remote_time_result data_ [] rest none_left).3)

  -- The result of one method is a struct to whoever passes over it.
  pub skip-result_write :
      (n : ℤ) (s rest : List ℕ)
      → InRange 64 n
      → length s < 2 ^ 31
      → (p.skip t_struct (remote_time_result_write p (record { success = n; isset = true }) ++ rest)
          ≡ some rest)
        × (p.skip t_struct (send_result_write p (record { success = s; isset = true }) ++ rest)
            ≡ some rest)
  unfolding remote_time_result_write send_result_write Fits FieldFits
  skip-result_write n s rest range short = (
    rw (remote_time_result_write, written_i64 (codes "TestProto_remoteTime_result") n)
        (l.skips_struct _ _ rest
          (one_more {f = written (codes "success") (pos 0) (i64 n)} (range_zero, range) none_left)),
    rw (send_result_write, written_string (codes "TestProto_send_result") s)
        (l.skips_struct _ _ rest (
          one_more {f = written (codes "success") (pos 0) (text s)} (range_zero, short) none_left)),
  )

  -- The client reads back the result that the server has written: the value when one was set, and
  -- what its own struct held before when none was, for both methods.
  pub presult_read-result_write :
      (time : Success ℤ) (data_ : Success (List ℕ)) (n : ℤ) (s : List ℕ) (set : Bool)
      (rest : List ℕ)
      → InRange 64 n
      → length s < 2 ^ 31
      → (remote_time_presult_read p time
            (remote_time_result_write p (record { success = n; isset = set }) ++ rest)
          ≡ done (if set then record { success = n; isset = true } else time) rest)
        × (send_presult_read p data_
              (send_result_write p (record { success = s; isset = set }) ++ rest)
            ≡ done (if set then record { success = s; isset = true } else data_) rest)
  presult_read-result_write time data_ n s set rest range short =
      (time_back time n set rest range, text_back data_ s set rest short)
