-- ===== src/Proto/Call.antt =====
-- A call of `TestProtoClient` answered by `TestProtoProcessor`: the messages that the one writes
-- are what the other reads.
pub mod Laws
pub mod Handler
use mathlib.Core.List.{append_assoc, append-nil}
use network_demo.Base.{
  ℕ, ◌<◌, ◌^◌, ◌≡◌, refl, ◌∙◌, Bool, true, false, List, [], ◌∷◌, ◌++◌, length, ◌==◌, Option, none,
  some, arith,
}
use network_demo.Base.Text.{ℤ, pos, codes, same_text}
use network_demo.Base.Text.Laws.{InRange}
use network_demo.Proto.Wire.{
  Protocol, Lawful, MessageType, t_call, t_reply, t_exception, message, ExceptionType, unknown,
  ApplicationException, application, Read, done, passed, gave, read_then, Field, AllFit, none_left,
  write_struct,
}
use network_demo.Proto.Structs.{Args, args, Success}
use network_demo.Proto.Client.{
  Reply, returned, excepted, is_reply, is_exception, unless_skipped, recv_result, recv_exception,
  recv_message, recv, remote_time_name, send_name,
}
use network_demo.Proto.Processor.{
  Processor, Processed, answered, broken, unended, exception_message, reply_message, Outcome, gives,
  dispatch_call, throws, handled, process,
}

-- The bytes that reach the client.
unfoldable pub reply_of : Processed → List ℕ
reply_of (answered reply rest told) = reply
reply_of (broken told) = []
reply_of unended = []

-- The library's part of the server: a request goes to `dispatchCall` once its head is read.
unfoldable pub Serves : Protocol → Processor → (List ℕ → List ℕ) → Type 0
Serves p s peer =
    (request name body : List ℕ) (t : MessageType) (seqid : ℤ)
    → p.read_message_begin request ≡ some (message name t seqid, body)
    → peer request ≡ reply_of (dispatch_call p s name seqid body)

-- What the caller sees of what the handler does.
unfoldable pub answer {ℓ} : {A : Type ℓ} → Outcome A → Reply A
answer (gives a) = returned a
answer (throws what) = excepted (application unknown what)

pub same_text_self : (s : List ℕ) → same_text s s ≡ true
unfolding same_text
same_text_self [] = refl
same_text_self (c ∷ s) =
    let e : (c == c) ≡ true = ground arith in rw (same_text, e) (same_text_self s)

module _ (p : Protocol) (l : Lawful p) where
  pub message_lem :
      (name : List ℕ) (t : MessageType) (seqid : ℤ) (body more : List ℕ)
      → length name < 2 ^ 31
      → InRange 32 seqid
      → p.read_message_begin
          ((p.write_message_begin name t seqid ++ body ++ p.write_message_end) ++ more)
        ≡ some (message name t seqid, body ++ (p.write_message_end ++ more))
  message_lem name t seqid body more short range =
      let e : (p.write_message_begin name t seqid ++ body ++ p.write_message_end) ++ more
          ≡ p.write_message_begin name t seqid ++ (body ++ (p.write_message_end ++ more)) =
        simp append_assoc in
      rw e (l.reads_message name t seqid (body ++ (p.write_message_end ++ more)) short range)

  module _ {ℓ} {A : Type ℓ} (name : List ℕ) (read : List ℕ → Read (Success A)) where
    pub recv-returned :
        (seqid : ℤ) (result more : List ℕ) (a : A)
        → length name < 2 ^ 31
        → InRange 32 seqid
        → ((rest : List ℕ)
            → read (result ++ rest) ≡ done (record { success = a; isset = true }) rest)
        → recv p name read (reply_message p name seqid result ++ more) ≡ done (returned a) more
    unfolding recv recv_message is_exception is_reply unless_skipped recv_result passed gave
        read_then reply_message
    recv-returned seqid result more a short range reads =
        rw
          (
            message_lem name t_reply seqid result more short range,
            same_text_self name,
            reads (p.write_message_end ++ more),
            l.reads_message_end more,
          )
          refl

    pub recv-excepted :
        (fname : List ℕ) (seqid : ℤ) (k : ExceptionType) (what more : List ℕ)
        → length fname < 2 ^ 31
        → InRange 32 seqid
        → length what < 2 ^ 31
        → recv p name read (exception_message p fname seqid (application k what) ++ more)
          ≡ done (excepted (application k what)) more
    unfolding recv recv_message is_exception recv_exception passed gave exception_message
    recv-excepted fname seqid k what more short range fits =
        rw
          (
            message_lem fname t_exception seqid (p.write_exception (application k what)) more short
                range,
            l.reads_exception k what (p.write_message_end ++ more) fits,
            l.reads_message_end more,
          )
          refl

    -- A reply to another method is passed over, and the result is read from the bytes behind it.
    pub recv-other_name :
        (fname sname : List ℕ) (seqid : ℤ) (fs : List Field) (more : List ℕ)
        → same_text fname name ≡ false
        → length fname < 2 ^ 31
        → InRange 32 seqid
        → AllFit p fs
        → recv p name read (reply_message p fname seqid (write_struct p sname fs) ++ more)
          ≡ recv_result p name read more
    unfolding recv recv_message is_exception is_reply unless_skipped passed gave reply_message
    recv-other_name fname sname seqid fs more other short range fits =
        rw
          (
            message_lem fname t_reply seqid (write_struct p sname fs) more short range,
            other,
            l.skips_struct sname fs (p.write_message_end ++ more) fits,
            l.reads_message_end more,
          )
          refl

  -- A request with any fields is handled.
  pub process-handled :
      (s : Processor) (name label sname : List ℕ) (seqid : ℤ) (outcome : Outcome (List ℕ))
      (read : List ℕ → Read Args) (fs : List Field) (more : List ℕ)
      → ((rest : List ℕ) → read (write_struct p sname fs ++ rest) ≡ done args rest)
      → process p s name label seqid outcome
          (read (write_struct p sname fs ++ (p.write_message_end ++ more)))
        ≡ handled p s name label seqid outcome more
  unfolding process
  process-handled s name label sname seqid outcome read fs more reads =
      rw (reads (p.write_message_end ++ more), process, l.reads_message_end more) refl
