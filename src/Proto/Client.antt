-- ===== src/Proto/Client.antt =====
-- `TestProtoClient` (gen-cpp/TestProto.cpp): a call is the bytes of its request, and the reading of
-- what comes back. That `flush` hands the request over and `readEnd` ends the reading of a message
-- is the transport's.
use network_demo.Base.{ℕ, Bool, true, false, if◌then◌else◌, List, ◌++◌}
use network_demo.Base.Text.{ℤ, pos, codes, same_text}
use network_demo.Proto.Wire.{
  Protocol, MessageType, t_call, t_reply, t_exception, m_other, MessageHead, message, t_struct,
  ApplicationException, application, missing_result, Read, done, passed, gave, read_then,
}
use network_demo.Proto.Structs.{
  Success, remote_time_pargs_write, send_pargs_write, remote_time_presult_read, send_presult_read,
}

-- What a call returns, or the exception that it throws.
pub data Reply {ℓ} (A : Type ℓ) : Type ℓ where
  returned : A → Reply A
  excepted : ApplicationException → Reply A

unfoldable pub is_reply : MessageType → Bool
is_reply t_call = false
is_reply t_reply = true
is_reply t_exception = false
is_reply (m_other n) = false

unfoldable pub is_exception : MessageType → Bool
is_exception t_call = false
is_exception t_reply = false
is_exception t_exception = true
is_exception (m_other n) = false

abbrev pub remote_time_name : List ℕ
remote_time_name = codes "remoteTime"

abbrev pub send_name : List ℕ
send_name = codes "send"

abbrev pub unknown_result : List ℕ → ApplicationException
unknown_result name = application missing_result (name ++ codes " failed: unknown result")

module _ {ℓ} {A : Type ℓ} (p : Protocol) where
  -- A struct and the end of its message are passed over unless `b`; the function goes on after them.
  unfoldable pub unless_skipped : Bool → (List ℕ → Read A) → List ℕ → Read A
  unfolding passed
  unless_skipped b k input =
      if b then k input else passed (p.skip t_struct input) (λ r. passed (p.read_message_end r) k)

module _ {ℓ} {A : Type ℓ} (p : Protocol) (name : List ℕ) (read : List ℕ → Read (Success A)) where
  unfoldable pub recv_result : List ℕ → Read (Reply A)
  unfolding passed read_then
  recv_result input = read_then (read input) (λ s r.
      passed (p.read_message_end r)
        (done (if s.isset then returned s.success else excepted (unknown_result name))))

  unfoldable pub recv_exception : List ℕ → Read (Reply A)
  unfolding passed gave
  recv_exception input =
      gave (p.read_exception input) (λ x r. passed (p.read_message_end r) (done (excepted x)))

  unfoldable pub recv_message : MessageHead → List ℕ → Read (Reply A)
  unfolding recv_exception unless_skipped recv_result
  recv_message (message fname mtype rseqid) input =
      if is_exception mtype
      then recv_exception input
      else unless_skipped p (is_reply mtype) (unless_skipped p (same_text fname name) recv_result)
          input

  unfoldable pub recv : List ℕ → Read (Reply A)
  unfolding gave recv_message
  recv input = gave (p.read_message_begin input) recv_message

module _ (p : Protocol) where
  unfoldable pub send_remote_time : List ℕ
  send_remote_time =
      p.write_message_begin remote_time_name t_call (pos 0)
      ++ remote_time_pargs_write p
      ++ p.write_message_end

  -- `_return` holds some value before the result is read.
  unfoldable pub recv_remote_time : ℤ → List ℕ → Read (Reply ℤ)
  unfolding recv
  recv_remote_time _return input =
      recv p remote_time_name
        (remote_time_presult_read p (record { success = _return; isset = false })) input

  unfoldable pub send_send : List ℕ
  send_send =
      p.write_message_begin send_name t_call (pos 0) ++ send_pargs_write p ++ p.write_message_end

  unfoldable pub recv_send : List ℕ → List ℕ → Read (Reply (List ℕ))
  unfolding recv
  recv_send _return input =
      recv p send_name (send_presult_read p (record { success = _return; isset = false })) input

  -- The two calls, with what the other side makes of the bytes of a request.
  unfoldable pub remote_time : (List ℕ → List ℕ) → ℤ → Read (Reply ℤ)
  unfolding send_remote_time recv_remote_time
  remote_time peer _return = recv_remote_time _return (peer send_remote_time)

  unfoldable pub send : (List ℕ → List ℕ) → List ℕ → Read (Reply (List ℕ))
  unfolding send_send recv_send
  send peer _return = recv_send _return (peer send_send)
