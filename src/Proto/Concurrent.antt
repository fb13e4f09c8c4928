-- ===== src/Proto/Concurrent.antt =====
-- `TestProtoConcurrentClient` (gen-cpp/TestProto.cpp): callers on threads of their own share one
-- connection, and each takes the reply with its own sequence number. The synchronisation is a
-- library: it gives out the numbers, holds the head of a reply that is another caller's, and lets
-- one caller read at a time. A turn is what a caller does while it may read.
pub mod Laws
pub mod Order
use network_demo.Base.{
  ℕ, Bool, true, false, not, ◌||◌, ◌==◌, if◌then◌else◌, List, [], ◌∷◌, ◌++◌, Option, none, some,
}
use network_demo.Base.Text.{ℤ, pos, negsuc, same_text}
use network_demo.Proto.Wire.{
  Protocol, t_call, MessageHead, message, t_struct, ApplicationException, Read, done, failed,
  endless, passed, gave, read_then,
}
use network_demo.Proto.Structs.{
  Success, remote_time_pargs_write, send_pargs_write, remote_time_presult_read, send_presult_read,
}
use network_demo.Proto.Client.{
  Reply, returned, excepted, is_reply, is_exception, remote_time_name, send_name, unless_skipped,
  unknown_result,
}

unfoldable pub same_int : ℤ → ℤ → Bool
same_int (pos m) (pos n) = m == n
same_int (pos m) (negsuc n) = false
same_int (negsuc m) (pos n) = false
same_int (negsuc m) (negsuc n) = m == n

-- Whether a number has been given out to a caller that has not left, and the numbers without one.
unfoldable pub given : ℤ → List ℤ → Bool
unfolding same_int
given seqid [] = false
given seqid (n ∷ numbers) = same_int seqid n || given seqid numbers

unfoldable pub without : ℤ → List ℤ → List ℤ
unfolding same_int
without seqid [] = []
without seqid (n ∷ numbers) =
    let rest = without seqid numbers in if same_int seqid n then rest else n ∷ rest

-- What the callers share: the bytes not yet read, the head that waits for its caller, the numbers of
-- the callers that have not left, and whether some caller has left without `commit`, which ends the
-- connection.
pub record Sync : Type 0 where
  pub input : List ℕ
  pub pending : Option MessageHead
  pub numbers : List ℤ
  pub bad : Bool

-- How a caller leaves: after `commit`, or without it. `updatePending` throws if the message at hand has
-- the number of no caller.
pub data Got {ℓ} (A : Type ℓ) : Type ℓ where
  committed uncommitted : Reply A → Got A
  invalid_data bad_sequence_id : Got A

-- A turn: the caller waits for work, has its result, leaves with an exception of the library, or
-- has no fuel.
pub data Turned {ℓ} (A : Type ℓ) : Type ℓ where
  waits : Sync → Turned A
  over : Got A → Sync → Turned A
  lost unended : Turned A

unfoldable pub has_committed {ℓ} : {A : Type ℓ} → Got A → Bool
has_committed (committed r) = true
has_committed (uncommitted r) = false
has_committed invalid_data = false
has_committed bad_sequence_id = false

-- The end of the caller's sentry.
unfoldable pub left_by {ℓ} : {A : Type ℓ} → ℤ → List ℤ → Got A → List ℕ → Sync
unfolding has_committed without
left_by seqid numbers g rest = record {
  input = rest;
  pending = none;
  numbers = without seqid numbers;
  bad = not (has_committed g);
}

unfoldable pub leaves {ℓ} : {A : Type ℓ} → ℤ → List ℤ → Read (Got A) → Turned A
unfolding left_by
leaves seqid numbers (done g rest) = over g (left_by seqid numbers g rest)
leaves seqid numbers failed = lost
leaves seqid numbers endless = unended

module _ {ℓ} {A : Type ℓ} (p : Protocol) (name : List ℕ) (read : List ℕ → Read (Success A)) where
  unfoldable pub take_result : List ℕ → Read (Got A)
  unfolding passed read_then
  take_result input = read_then (read input) (λ s r. passed (p.read_message_end r) (
      done (
        if s.isset
        then committed (returned s.success)
        else uncommitted (excepted (unknown_result name)))))

  unfoldable pub take_exception : List ℕ → Read (Got A)
  unfolding passed gave
  take_exception input =
      gave (p.read_exception input)
        (λ x r. passed (p.read_message_end r) (done (committed (excepted x))))

  unfoldable pub refuse : List ℕ → Read (Got A)
  unfolding passed
  refuse input =
      passed (p.skip t_struct input) (λ r. passed (p.read_message_end r) (done invalid_data))

  -- The reply is this caller's.
  unfoldable pub take_message : MessageHead → List ℕ → Read (Got A)
  unfolding take_exception unless_skipped take_result refuse
  take_message (message fname mtype rseqid) input =
      if is_exception mtype
      then take_exception input
      else unless_skipped p (is_reply mtype) (if same_text fname name then take_result else refuse)
          input

  unfoldable pub look : ℤ → List ℤ → MessageHead → List ℕ → Turned A
  unfolding take_message leaves same_int given left_by
  look seqid numbers (message fname mtype rseqid) rest =
      if same_int seqid rseqid
      then leaves seqid numbers (take_message (message fname mtype rseqid) rest)
      else if given rseqid numbers
      then waits (record {
        input = rest;
        pending = some (message fname mtype rseqid);
        numbers = numbers;
        bad = false;
      })
      else over bad_sequence_id (left_by {A = A} seqid numbers bad_sequence_id rest)

  unfoldable pub turn : ℤ → Sync → Turned A
  unfolding look
  turn seqid s = elim (s.pending) [
    | some head ↦ look seqid s.numbers head s.input
    | none ↦ elim (p.read_message_begin s.input) [
      | none ↦ lost
      | some (head, rest) ↦ look seqid s.numbers head rest
    ]
  ]

module _ (p : Protocol) where
  pub send_remote_time : (cseqid : ℤ) → List ℕ
  send_remote_time cseqid =
      p.write_message_begin remote_time_name t_call cseqid
      ++ remote_time_pargs_write p
      ++ p.write_message_end

  pub send_send : (cseqid : ℤ) → List ℕ
  send_send cseqid =
      p.write_message_begin send_name t_call cseqid ++ send_pargs_write p ++ p.write_message_end

  unfoldable pub recv_remote_time : (_return seqid : ℤ) → Sync → Turned ℤ
  unfolding turn
  recv_remote_time _return seqid s =
      turn p remote_time_name
        (remote_time_presult_read p (record { success = _return; isset = false })) seqid s

  unfoldable pub recv_send : (_return : List ℕ) (seqid : ℤ) → Sync → Turned (List ℕ)
  unfolding turn
  recv_send _return seqid s =
      turn p send_name (send_presult_read p (record { success = _return; isset = false })) seqid s

-- A caller of one of the two methods, with its sequence number.
pub data Caller : Type 0 where
  calls_remote_time calls_send : (seqid : ℤ) → Caller

pub data Delivered : Type 0 where
  time_for : (seqid : ℤ) → Got ℤ → Delivered
  text_for : (seqid : ℤ) → Got (List ℕ) → Delivered

module _ {ℓ} {A : Type ℓ} where
  unfoldable pub turned : (Got A → Delivered) → (Sync → List Delivered) → Turned A → List Delivered
  turned deliver onward (waits s) = onward s
  turned deliver onward (over g s) = deliver g ∷ onward s
  turned deliver onward lost = []
  turned deliver onward unended = []

module _ (p : Protocol) where
  -- The callers take turns in the order of the list; on a bad connection nobody goes on.
  unfoldable pub run : List Caller → Sync → List Delivered
  unfolding turned recv_remote_time recv_send
  run [] s = []
  run (calls_remote_time seqid ∷ cs) s =
      let onward = run cs in
      if s.bad then [] else turned (time_for seqid) onward (recv_remote_time p (pos 0) seqid s)
  run (calls_send seqid ∷ cs) s =
      let onward = run cs in
      if s.bad then [] else turned (text_for seqid) onward (recv_send p [] seqid s)
