-- ===== src/Proto/Concurrent/Laws.antt =====
-- Whatever the order in which the callers of `TestProtoConcurrentClient` take their turns, each gets
-- the reply with its own sequence number.
use mathlib.Core.List.{append_assoc}
use network_demo.Base.{
  ℕ, ◌<◌, ◌^◌, ◌≡◌, refl, Bool, true, false, if◌then◌else◌, List, [], ◌∷◌, ◌++◌, length, none, some,
  arith,
}
use network_demo.Base.Text.{ℤ, pos, same_text}
use network_demo.Base.Text.Laws.{InRange}
use network_demo.Proto.Wire.{
  Protocol, Lawful, MessageType, t_reply, t_exception, m_other, Field, AllFit, write_struct,
  message, ExceptionType, application, done, passed, gave, read_then,
}
use network_demo.Proto.Structs.{
  remote_time_result_write, send_result_write, remote_time_presult_read, send_presult_read,
}
use network_demo.Proto.Structs.Methods.{time_back, text_back, skip-result_write}
use network_demo.Proto.Client.{
  returned, excepted, is_reply, is_exception, remote_time_name, send_name, unless_skipped,
}
use network_demo.Proto.Concurrent.{
  same_int, given, without, Sync, Got, has_committed, committed, invalid_data, bad_sequence_id,
  take_result, take_exception, refuse, take_message, Caller, calls_remote_time, calls_send,
  Delivered, time_for, text_for,
}

-- What a server sends: the reply to one of the methods, an exception, or a message of some other kind
-- under the name of a method, behind which the result of the method stands; with the number of the
-- call.
pub data Message : Type 0 where
  time_reply : (seqid n : ℤ) → Message
  text_reply : (seqid : ℤ) (text : List ℕ) → Message
  exception_reply : (seqid : ℤ) (name : List ℕ) (k : ExceptionType) (what : List ℕ) → Message
  late_reply : (seqid n : ℤ) (kind : ℕ) (sname : List ℕ) → List Field → Message

unfoldable pub number : Message → ℤ
number (time_reply seqid n) = seqid
number (text_reply seqid text) = seqid
number (exception_reply seqid name k what) = seqid
number (late_reply seqid n kind sname fs) = seqid

unfoldable pub name_of : Message → List ℕ
name_of (time_reply seqid n) = remote_time_name
name_of (text_reply seqid text) = send_name
name_of (exception_reply seqid name k what) = name
name_of (late_reply seqid n kind sname fs) = remote_time_name

unfoldable pub kind_of : Message → MessageType
kind_of (time_reply seqid n) = t_reply
kind_of (text_reply seqid text) = t_reply
kind_of (exception_reply seqid name k what) = t_exception
kind_of (late_reply seqid n kind sname fs) = m_other kind

unfoldable pub MessageFits : Protocol → Message → Type 0
MessageFits p (time_reply seqid n) = InRange 32 seqid × InRange 64 n
MessageFits p (text_reply seqid text) = InRange 32 seqid × (length text < 2 ^ 31)
MessageFits p (exception_reply seqid name k what) =
    InRange 32 seqid × (length name < 2 ^ 31) × (length what < 2 ^ 31)
MessageFits p (late_reply seqid n kind sname fs) = InRange 32 seqid × InRange 64 n × AllFit p fs

pub data MessagesFit (p : Protocol) : List Message → Type 0 where
  no_more : MessagesFit p []
  one_more :
      {m : Message} {ms : List Message}
      → MessageFits p m
      → MessagesFit p ms
      → MessagesFit p (m ∷ ms)

-- What the caller of `remoteTime` gets from the message with its number, and what that of `send`.
unfoldable pub time_got : Message → Got ℤ
time_got (time_reply seqid n) = committed (returned n)
time_got (text_reply seqid text) = invalid_data
time_got (exception_reply seqid name k what) = committed (excepted (application k what))
time_got (late_reply seqid n kind sname fs) = committed (returned n)

unfoldable pub text_got : Message → Got (List ℕ)
text_got (time_reply seqid n) = invalid_data
text_got (text_reply seqid text) = committed (returned text)
text_got (exception_reply seqid name k what) = committed (excepted (application k what))
text_got (late_reply seqid n kind sname fs) = invalid_data

-- The turns with the messages themselves in place of the bytes and of the head that is held back: a
-- turn of the caller whose number the first message has delivers it; another turn does nothing if some
-- caller that has not left has that number, and ends the connection if not.
unfoldable pub deliver : List Caller → List ℤ → List Message → List Delivered
unfolding same_int number time_got text_got has_committed given without
deliver [] numbers ms = []
deliver (c ∷ cs) numbers [] = []
deliver (calls_remote_time seqid ∷ cs) numbers (m ∷ ms) =
    let waiting = deliver cs numbers (m ∷ ms) in
    let onward = deliver cs (without seqid numbers) ms in
    if same_int seqid (number m)
    then time_for seqid (time_got m) ∷ (if has_committed (time_got m) then onward else [])
    else if given (number m) numbers
    then waiting
    else time_for seqid bad_sequence_id ∷ []
deliver (calls_send seqid ∷ cs) numbers (m ∷ ms) =
    let waiting = deliver cs numbers (m ∷ ms) in
    let onward = deliver cs (without seqid numbers) ms in
    if same_int seqid (number m)
    then text_for seqid (text_got m) ∷ (if has_committed (text_got m) then onward else [])
    else if given (number m) numbers
    then waiting
    else text_for seqid bad_sequence_id ∷ []

module _ (p : Protocol) where
  unfoldable pub body_of : Message → List ℕ
  body_of (time_reply seqid n) = remote_time_result_write p (record { success = n; isset = true })
  body_of (text_reply seqid text) = send_result_write p (record { success = text; isset = true })
  body_of (exception_reply seqid name k what) = p.write_exception (application k what)
  body_of (late_reply seqid n kind sname fs) =
      write_struct p sname fs
      ++ (p.write_message_end ++ remote_time_result_write p (record { success = n; isset = true }))

  unfoldable pub bytes_of : Message → List ℕ
  unfolding body_of name_of kind_of number
  bytes_of m =
      p.write_message_begin (name_of m) (kind_of m) (number m) ++ body_of m ++ p.write_message_end

  unfoldable pub all_bytes : List Message → List ℕ
  unfolding bytes_of
  all_bytes [] = []
  all_bytes (m ∷ ms) = bytes_of m ++ all_bytes ms

  -- The connection with the messages `ms` on it, with the head of the first one read or not.
  unfoldable pub sync_of : (held : Bool) → List ℤ → List Message → Sync
  unfolding all_bytes
  sync_of false numbers ms = record {
    input = all_bytes ms;
    pending = none;
    numbers = numbers;
    bad = false;
  }
  sync_of true numbers [] = record { input = []; pending = none; numbers = numbers; bad = false }
  sync_of true numbers (m ∷ ms) = record {
    input = body_of m ++ (p.write_message_end ++ all_bytes ms);
    pending = some (message (name_of m) (kind_of m) (number m));
    numbers = numbers;
    bad = false;
  }

module _ (p : Protocol) (l : Lawful p) where
  pub time_taken :
      (m : Message) (rest : List ℕ)
      → MessageFits p m
      → take_message p remote_time_name
          (remote_time_presult_read p (record { success = pos 0; isset = false }))
          (message (name_of m) (kind_of m) (number m))
          (body_of p m ++ (p.write_message_end ++ rest))
        ≡ done (time_got m) rest
  unfolding take_message take_result take_exception refuse unless_skipped passed gave read_then
      name_of kind_of number body_of time_got is_exception is_reply MessageFits same_text
  time_taken (time_reply seqid n) rest (range, fits) =
      rw
        (
          time_back p l (record { success = pos 0; isset = false }) n true
              (p.write_message_end ++ rest) fits,
          l.reads_message_end rest,
        )
        refl
  time_taken (text_reply seqid text) rest (range, fits) =
      rw
        (
          (skip-result_write p l (pos 0) text (p.write_message_end ++ rest) (omega arith) fits).1,
          l.reads_message_end rest,
        )
        refl
  time_taken (exception_reply seqid name k what) rest (range, named, fits) =
      rw (l.reads_exception k what (p.write_message_end ++ rest) fits, l.reads_message_end rest)
        refl
  time_taken (late_reply seqid n kind sname fs) rest (range, fits, fields) =
      let result = remote_time_result_write p (record { success = n; isset = true }) in
      let parts : (write_struct p sname fs ++ (p.write_message_end ++ result))
            ++ (p.write_message_end ++ rest)
          ≡ write_struct p sname fs
            ++ (p.write_message_end ++ (result ++ (p.write_message_end ++ rest))) =
        simp append_assoc in
      rw
        (
          parts,
          l.skips_struct sname fs (p.write_message_end ++ (result ++ (p.write_message_end ++ rest)))
              fields,
          l.reads_message_end (result ++ (p.write_message_end ++ rest)),
          time_back p l (record { success = pos 0; isset = false }) n true
              (p.write_message_end ++ rest) fits,
          l.reads_message_end rest,
        )
        refl

  pub text_taken :
      (m : Message) (rest : List ℕ)
      → MessageFits p m
      → take_message p send_name
          (send_presult_read p (record { success = []; isset = false }))
          (message (name_of m) (kind_of m) (number m))
          (body_of p m ++ (p.write_message_end ++ rest))
        ≡ done (text_got m) rest
  unfolding take_message take_result take_exception refuse unless_skipped passed gave read_then
      name_of kind_of number body_of text_got is_exception is_reply MessageFits same_text
  text_taken (time_reply seqid n) rest (range, fits) =
      rw
        (
          (skip-result_write p l n [] (p.write_message_end ++ rest) fits (omega arith)).0,
          l.reads_message_end rest,
        )
        refl
  text_taken (text_reply seqid text) rest (range, fits) =
      rw
        (
          text_back p l (record { success = []; isset = false }) text true
              (p.write_message_end ++ rest) fits,
          l.reads_message_end rest,
        )
        refl
  text_taken (exception_reply seqid name k what) rest (range, named, fits) =
      rw (l.reads_exception k what (p.write_message_end ++ rest) fits, l.reads_message_end rest)
        refl
  text_taken (late_reply seqid n kind sname fs) rest (range, fits, fields) =
      let result = remote_time_result_write p (record { success = n; isset = true }) in
      let parts : (write_struct p sname fs ++ (p.write_message_end ++ result))
            ++ (p.write_message_end ++ rest)
          ≡ write_struct p sname fs
            ++ (p.write_message_end ++ (result ++ (p.write_message_end ++ rest))) =
        simp append_assoc in
      rw
        (
          parts,
          l.skips_struct sname fs (p.write_message_end ++ (result ++ (p.write_message_end ++ rest)))
              fields,
          l.reads_message_end (result ++ (p.write_message_end ++ rest)),
          (skip-result_write p l n [] (p.write_message_end ++ rest) fits (omega arith)).0,
          l.reads_message_end rest,
        )
        refl
