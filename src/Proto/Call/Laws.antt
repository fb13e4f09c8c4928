-- ===== src/Proto/Call/Laws.antt =====
-- The two calls from the client through the processor and back, and calls of no method.
use mathlib.Core.List.{append-nil}
use network_demo.Base.{
  ℕ, ◌<◌, ◌^◌, ◌≡◌, refl, sym, true, false, List, [], ◌++◌, length, none, some, arith,
}
use network_demo.Base.Text.{ℤ, pos, codes, same_text}
use network_demo.Base.Text.Laws.{InRange}
use network_demo.Proto.Wire.{
  Protocol, Lawful, t_call, message, unknown, unknown_method, application, done, Field, AllFit,
  none_left, write_struct, write_fields,
}
use network_demo.Proto.Structs.{
  args_write, remote_time_pargs_write, send_pargs_write, remote_time_args_read, send_args_read,
  remote_time_result_write, send_result_write, remote_time_presult_read,
}
use network_demo.Proto.Structs.Methods.{args_read-any_struct, time_back, text_back}
use network_demo.Proto.Client.{
  excepted, remote_time_name, send_name, send_remote_time, recv_remote_time, recv_send, send_send,
  recv_result, remote_time, send,
}
use network_demo.Proto.Processor.{
  Processor, answered, exception_message, reply_message, Outcome, gives, throws, handled, find,
  process_map, process_remote_time, process_send, remote_time_outcome, send_outcome, invalid_name,
  not_found, dispatch_call,
}
use network_demo.Proto.Call.{
  reply_of, Serves, answer, message_lem, recv-returned, recv-excepted, recv-other_name,
  process-handled,
}

range_zero : InRange 32 (pos 0)
range_zero = omega arith

-- What a handler may give: an integer of 64 bits, a text that the protocol has room for.
unfoldable pub TimeFits : Outcome ℤ → Type 0
TimeFits (gives n) = InRange 64 n
TimeFits (throws what) = length what < 2 ^ 31

unfoldable pub TextFits : Outcome (List ℕ) → Type 0
TextFits (gives s) = length s < 2 ^ 31
TextFits (throws what) = length what < 2 ^ 31

module _ (p : Protocol) (l : Lawful p) where
  time_answered :
      (s : Processor) (o : Outcome ℤ) (label more : List ℕ) (_return : ℤ)
      → TimeFits o
      → recv_remote_time p _return
          (reply_of (handled p s remote_time_name label (pos 0) (remote_time_outcome p o) more))
        ≡ done (answer o) []
  unfolding recv_remote_time reply_of handled remote_time_outcome answer TimeFits
  time_answered s (gives n) label more _return fits =
      rw
        (sym (
          append-nil (
            reply_message p remote_time_name (pos 0)
              (remote_time_result_write p (record { success = n; isset = true })))))
        (recv-returned p l remote_time_name _ (pos 0) _ [] n (omega arith) range_zero
          (λ rest. time_back p l (record { success = _return; isset = false }) n true rest fits))
  time_answered s (throws what) label more _return fits =
      rw
        (sym (append-nil (exception_message p remote_time_name (pos 0) (application unknown what))))
        (recv-excepted p l remote_time_name _ remote_time_name (pos 0) unknown what [] (omega arith)
          range_zero fits)

  time_request :
      (s : Processor)
      → dispatch_call p s remote_time_name
          (pos 0)
          (write_struct p (codes "TestProto_remoteTime_pargs") [] ++ (p.write_message_end ++ []))
        ≡ handled p s remote_time_name
            (codes "TestProto.remoteTime")
            (pos 0)
            (remote_time_outcome p s.iface_remote_time)
            []
  unfolding dispatch_call find process_remote_time same_text
  time_request s =
      process-handled p l s remote_time_name _ (codes "TestProto_remoteTime_pargs") (pos 0) _
        (remote_time_args_read p) [] []
        (λ rest.
          (args_read-any_struct p l (codes "TestProto_remoteTime_pargs") [] rest none_left).0)

  time_sent :
      p.read_message_begin (send_remote_time p)
      ≡ some (
        message remote_time_name t_call (pos 0),
        write_struct p (codes "TestProto_remoteTime_pargs") [] ++ (p.write_message_end ++ []),
      )
  unfolding send_remote_time remote_time_pargs_write args_write write_struct write_fields
  time_sent =
      let e = sym (append-nil (send_remote_time p)) in
      rw e (
        message_lem p l remote_time_name t_call (pos 0)
          (write_struct p (codes "TestProto_remoteTime_pargs") []) [] (omega arith) range_zero)

  remote_time-answer :
      (s : Processor) (peer : List ℕ → List ℕ) (_return : ℤ)
      → Serves p s peer
      → TimeFits s.iface_remote_time
      → remote_time p peer _return ≡ done (answer s.iface_remote_time) []
  unfolding remote_time Serves
  remote_time-answer s peer _return serves fits =
      rw (serves (send_remote_time p) remote_time_name _ t_call (pos 0) time_sent, time_request s)
        (time_answered s s.iface_remote_time _ [] _return fits)

  text_answered :
      (s : Processor) (o : Outcome (List ℕ)) (label more _return : List ℕ)
      → TextFits o
      → recv_send p _return (reply_of (handled p s send_name label (pos 0) (send_outcome p o) more))
        ≡ done (answer o) []
  unfolding recv_send reply_of handled send_outcome answer TextFits
  text_answered s (gives text) label more _return fits =
      rw
        (sym (
          append-nil (
            reply_message p send_name (pos 0)
              (send_result_write p (record { success = text; isset = true })))))
        (recv-returned p l send_name _ (pos 0) _ [] text (omega arith) range_zero
          (λ rest. text_back p l (record { success = _return; isset = false }) text true rest fits))
  text_answered s (throws what) label more _return fits =
      rw (sym (append-nil (exception_message p send_name (pos 0) (application unknown what)))) (
        recv-excepted p l send_name _ send_name (pos 0) unknown what [] (omega arith) range_zero
          fits)

  text_request :
      (s : Processor)
      → dispatch_call p s send_name
          (pos 0)
          (write_struct p (codes "TestProto_send_pargs") [] ++ (p.write_message_end ++ []))
        ≡ handled p s send_name
            (codes "TestProto.send")
            (pos 0)
            (send_outcome p (s.iface_send []))
            []
  unfolding dispatch_call find process_send same_text
  text_request s =
      process-handled p l s send_name _ (codes "TestProto_send_pargs") (pos 0) _ (send_args_read p)
        [] []
        (λ rest. (args_read-any_struct p l (codes "TestProto_send_pargs") [] rest none_left).1)

  text_sent :
      p.read_message_begin (send_send p)
      ≡ some (
        message send_name t_call (pos 0),
        write_struct p (codes "TestProto_send_pargs") [] ++ (p.write_message_end ++ []),
      )
  unfolding send_send send_pargs_write args_write write_struct write_fields
  text_sent =
      let e = sym (append-nil (send_send p)) in
      rw e (
        message_lem p l send_name t_call (pos 0) (write_struct p (codes "TestProto_send_pargs") [])
          [] (omega arith) range_zero)

  send-answer :
      (s : Processor) (peer : List ℕ → List ℕ) (_return : List ℕ)
      → Serves p s peer
      → TextFits (s.iface_send [])
      → send p peer _return ≡ done (answer (s.iface_send [])) []
  unfolding send Serves
  send-answer s peer _return serves fits =
      rw (serves (send_send p) send_name _ t_call (pos 0) text_sent, text_request s)
        (text_answered s (s.iface_send []) _ [] _return fits)

  -- Each of the two calls ends with what the handler gives, `send` with what the handler makes of an
  -- empty text, whatever was in the place of the result; an exception of the handler reaches the
  -- caller with its text; and nothing is left unread. What the handler gives fits into the message,
  -- and the library's part of the server hands the request to `dispatchCall`.
  pub calls-answer :
      (s : Processor) (peer : List ℕ → List ℕ) (time0 : ℤ) (text0 : List ℕ)
      → Serves p s peer
      → TimeFits s.iface_remote_time
      → TextFits (s.iface_send [])
      → (remote_time p peer time0 ≡ done (answer s.iface_remote_time) [])
        × (send p peer text0 ≡ done (answer (s.iface_send [])) [])
  calls-answer s peer time0 text0 serves time_fits text_fits =
      (remote_time-answer s peer time0 serves time_fits, send-answer s peer text0 serves text_fits)

  -- A call of a method that the service does not have, with fields of any types as its arguments, is
  -- answered with the exception of an unknown method under the caller's name and sequence number, the
  -- input is left at the next message, the handler is not called, and both readers of the client throw
  -- that exception from the answer. The protocol has the documented laws of the library, the name and
  -- the text of the exception have less than 2^31 bytes, the number 32 bits, and the fields fit.
  pub dispatch_call-unknown :
      (s : Processor) (fname sname : List ℕ) (seqid time0 : ℤ) (text0 : List ℕ) (fs : List Field)
      (more later : List ℕ)
      → find fname process_map ≡ none
      → length (codes "Invalid method name: '" ++ fname ++ codes "'") < 2 ^ 31
      → length fname < 2 ^ 31
      → InRange 32 seqid
      → AllFit p fs
      → (dispatch_call p s fname seqid (write_struct p sname fs ++ (p.write_message_end ++ more))
          ≡ answered (exception_message p fname seqid (invalid_name fname)) more [])
        × (recv_remote_time p time0 (exception_message p fname seqid (invalid_name fname) ++ later)
            ≡ done (excepted (invalid_name fname)) later)
        × (recv_send p text0 (exception_message p fname seqid (invalid_name fname) ++ later)
            ≡ done (excepted (invalid_name fname)) later)
  unfolding dispatch_call not_found recv_remote_time recv_send
  dispatch_call-unknown s fname sname seqid time0 text0 fs more later absent short named range
        fits =
      (
        rw
            (
              dispatch_call,
              absent,
              not_found,
              l.skips_struct sname fs (p.write_message_end ++ more) fits,
              l.reads_message_end more,
            )
            refl,
        recv-excepted p l remote_time_name _ fname seqid unknown_method _ later named range short,
        recv-excepted p l send_name _ fname seqid unknown_method _ later named range short,
      )

  -- A reply to some other method does not make `recv_remoteTime` fail: the reply is passed over, and
  -- the result is read from the bytes that come after it, which begin with the head of a message.
  pub recv_remote_time-other_name :
      (fname sname : List ℕ) (seqid _return : ℤ) (fs : List Field) (more : List ℕ)
      → same_text fname remote_time_name ≡ false
      → length fname < 2 ^ 31
      → InRange 32 seqid
      → AllFit p fs
      → recv_remote_time p _return (reply_message p fname seqid (write_struct p sname fs) ++ more)
        ≡ recv_result p remote_time_name
            (remote_time_presult_read p (record { success = _return; isset = false }))
            more
  unfolding recv_remote_time
  recv_remote_time-other_name fname sname seqid _return fs more other named range fits =
      recv-other_name p l remote_time_name _ fname sname seqid fs more other named range fits
