-- ===== src/Proto/Structs.antt =====
-- The argument and result structs of the two methods (gen-cpp/TestProto.cpp and TestProto.h): how
-- they are read and written. The loops over the fields run on fuel, one more than the bytes left.
-- The number of bytes that a reader or writer returns, which no caller looks at, is left out, as is
-- the count of nested structs that the recursion trackers keep.
pub mod Laws
pub mod Skipping
pub mod Methods
use network_demo.Base.{
  ℕ, zero, suc, Bool, true, false, ◌&&◌, if◌then◌else◌, List, [], ◌∷◌, ◌++◌, length, Option, none,
  some,
}
use network_demo.Base.Text.{ℤ, pos, negsuc, codes}
use network_demo.Proto.Wire.{
  Protocol, FieldType, t_i64, t_string, is_stop, is_i64, is_string, FieldHead, field, Read, done,
  failed, endless, passed, gave, read_then,
}

-- `TestProto_remoteTime_args` and `TestProto_send_args` have no members.
pub data Args : Type 0 where
  args : Args

-- `success` and `__isset.success`.
pub record Success {ℓ} (A : Type ℓ) : Type ℓ where
  pub success : A
  pub isset : Bool

-- What the constructors of the two results make.
abbrev pub remote_time_result : Success ℤ
remote_time_result = record { success = pos 0; isset = false }

abbrev pub send_result : Success (List ℕ)
send_result = record { success = []; isset = false }

unfoldable pub is_zero : ℤ → Bool
is_zero (pos zero) = true
is_zero (pos (suc n)) = false
is_zero (negsuc n) = false

module _ (p : Protocol) where
  unfoldable pub skip_field : (List ℕ → Read Args) → FieldHead → List ℕ → Read Args
  skip_field onward (field ftype fid) rest =
      if is_stop ftype
      then done args rest
      else passed (p.skip ftype rest) (λ r. passed (p.read_field_end r) onward)

  unfoldable pub skip_fields : ℕ → List ℕ → Read Args
  unfolding gave skip_field
  skip_fields zero input = endless
  skip_fields (suc fuel) input = gave (p.read_field_begin input) (skip_field (skip_fields fuel))

  unfoldable pub args_read : List ℕ → Read Args
  unfolding passed skip_fields read_then
  args_read input = passed (p.read_struct_begin input) (λ r.
      read_then (skip_fields (suc (length r)) r)
        (λ a rest. passed (p.read_struct_end rest) (done a)))

  unfoldable pub args_write : List ℕ → List ℕ
  args_write name = p.write_struct_begin name ++ p.write_field_stop ++ p.write_struct_end

  pub remote_time_args_read : List ℕ → Read Args
  unfolding args_read
  remote_time_args_read input = args_read input

  pub send_args_read : List ℕ → Read Args
  unfolding args_read
  send_args_read input = args_read input

  pub remote_time_args_write : List ℕ
  unfolding args_write
  remote_time_args_write = args_write (codes "TestProto_remoteTime_args")

  pub send_args_write : List ℕ
  unfolding args_write
  send_args_write = args_write (codes "TestProto_send_args")

  unfoldable pub remote_time_pargs_write : List ℕ
  unfolding args_write
  remote_time_pargs_write = args_write (codes "TestProto_remoteTime_pargs")

  unfoldable pub send_pargs_write : List ℕ
  unfolding args_write
  send_pargs_write = args_write (codes "TestProto_send_pargs")

module _ {ℓ} {A : Type ℓ} (p : Protocol) (wanted : FieldType → Bool)
    (read : List ℕ → Option (A × List ℕ)) where
  unfoldable pub success_field :
      (Success A → List ℕ → Read (Success A)) → Success A → FieldHead → List ℕ → Read (Success A)
  unfolding passed gave
  success_field onward s (field ftype fid) rest =
      if is_stop ftype
      then done s rest
      else if is_zero fid && wanted ftype
      then gave (read rest)
          (λ v r. passed (p.read_field_end r) (onward (record { success = v; isset = true })))
      else passed (p.skip ftype rest) (λ r. passed (p.read_field_end r) (onward s))

  unfoldable pub success_fields : ℕ → Success A → List ℕ → Read (Success A)
  unfolding gave success_field
  success_fields zero s input = endless
  success_fields (suc fuel) s input =
      gave (p.read_field_begin input) (success_field (success_fields fuel) s)

  unfoldable pub success_read : Success A → List ℕ → Read (Success A)
  unfolding passed success_fields read_then
  success_read s input = passed (p.read_struct_begin input) (λ r.
      read_then (success_fields (suc (length r)) s r)
        (λ s1 rest. passed (p.read_struct_end rest) (done s1)))

unfoldable pub success_write {ℓ} :
    {A : Type ℓ} → Protocol → List ℕ → FieldType → (A → List ℕ) → Success A → List ℕ
success_write p name ftype write s =
    p.write_struct_begin name
    ++ (if s.isset
        then p.write_field_begin (codes "success") ftype (pos 0)
          ++ write s.success
          ++ p.write_field_end
        else [])
    ++ p.write_field_stop
    ++ p.write_struct_end

module _ (p : Protocol) where
  pub remote_time_result_read : Success ℤ → List ℕ → Read (Success ℤ)
  unfolding success_read
  remote_time_result_read s input = success_read p is_i64 (p.read_i64) s input

  pub remote_time_presult_read : Success ℤ → List ℕ → Read (Success ℤ)
  unfolding success_read
  remote_time_presult_read s input = success_read p is_i64 (p.read_i64) s input

  pub send_result_read : Success (List ℕ) → List ℕ → Read (Success (List ℕ))
  unfolding success_read
  send_result_read s input = success_read p is_string (p.read_string) s input

  pub send_presult_read : Success (List ℕ) → List ℕ → Read (Success (List ℕ))
  unfolding success_read
  send_presult_read s input = success_read p is_string (p.read_string) s input

  pub remote_time_result_write : Success ℤ → List ℕ
  unfolding success_write
  remote_time_result_write s =
      success_write p (codes "TestProto_remoteTime_result") t_i64 (p.write_i64) s

  pub send_result_write : Success (List ℕ) → List ℕ
  unfolding success_write
  send_result_write s = success_write p (codes "TestProto_send_result") t_string (p.write_string) s
