-- ===== src/Proto/Tests.antt =====
-- Runs of the generated code on a protocol of the plainest kind.
mod Plain
use network_demo.Base.{
  ℕ, zero, suc, ◌≡◌, refl, Bool, true, List, [], ◌∷◌, ◌++◌, Option, none, some, arith,
}
use network_demo.Base.Text.{ℤ, pos, codes, same_text}
use network_demo.Proto.Wire
use network_demo.Proto.Wire.{
  Protocol, t_exception, message, unknown, application, Read, done, failed, i64, text, nested,
  other, written, Field, AllFit, none_left, FieldFits, Fits, write_struct,
}
use network_demo.Proto.Wire.Laws.{ends}
use network_demo.Proto.Structs.{
  is_zero, remote_time_result, send_result, remote_time_args_read, send_args_read,
  remote_time_result_read, remote_time_presult_read, send_result_read, send_presult_read,
}
use network_demo.Proto.Structs.Laws.{latest}
use network_demo.Proto.Structs.Methods.{as_i64, as_string, read-ends, result_read-struct}
use network_demo.Proto.Client.{
  returned, excepted, remote_time_name, remote_time, send, recv_remote_time, recv_send, recv_result,
}
use network_demo.Proto.Processor.{
  Processor, answered, gives, throws, exception_message, reply_message, invalid_name, find,
  dispatch_call,
}
use network_demo.Proto.Call.{reply_of, Serves, answer}
use network_demo.Proto.Call.Laws.{TimeFits, TextFits, calls-answer, dispatch_call-unknown}
use network_demo.Proto.Concurrent.{Caller, calls_remote_time, calls_send}
use network_demo.Proto.Concurrent.Laws.{
  Message, time_reply, text_reply, exception_reply, late_reply, one_more,
}
use network_demo.Proto.Tests.Plain.{plain}
use network_demo.Proto.Tests.Plain.Laws.{plain-Shrinks, plain-Lawful}

-- A server that does with a request what the library does.
abbrev peer : Processor → List ℕ → List ℕ
peer s request = elim (plain.read_message_begin request) [
  | none ↦ []
  | some (message name t seqid, body) ↦ reply_of (dispatch_call plain s name seqid body)
]

peer-Serves : (s : Processor) → Serves plain s (peer s)
unfolding Serves
peer-Serves s request name body t seqid e = rw (peer, e) refl

-- A handler with the time 7 whose `send` throws.
abbrev seven : Processor
seven = record {
  iface_remote_time = gives (pos 7);
  iface_send = λ text. throws (codes "EIO");
  has_events = true;
}

calls-answer_example :
    (remote_time plain (peer seven) (pos 5) ≡ done (returned (pos 7)) [])
    × (send plain (peer seven) (codes "old")
        ≡ done (excepted (application unknown (codes "EIO"))) [])
unfolding answer TimeFits TextFits
calls-answer_example =
    calls-answer plain plain-Lawful seven (peer seven) (pos 5) (codes "old") (peer-Serves seven)
      (omega arith) (omega arith)

-- A struct of a newer server: its result, the same id with other types, and a field with another id.
abbrev newer : List Field
newer =
    written (codes "success") (pos 0) (i64 (pos 7))
    ∷ written (codes "success") (pos 0) (text (codes "x"))
    ∷ written (codes "success") (pos 0) (nested (1 ∷ 0 ∷ 2 ∷ 0 ∷ 5 ∷ 0 ∷ []))
    ∷ written (codes "success") (pos 0) (other 2 (1 ∷ []))
    ∷ written (codes "zone") (pos 4) (i64 (pos 1))
    ∷ []

newer-AllFit : AllFit plain newer
unfolding FieldFits Fits
newer-AllFit =
    Wire.one_more {f = written (codes "success") (pos 0) (i64 (pos 7))} (omega arith, omega arith)
      (Wire.one_more {f = written (codes "success") (pos 0) (text (codes "x"))}
        (omega arith, omega arith)
        (Wire.one_more {f = written (codes "success") (pos 0) (nested (1 ∷ 0 ∷ 2 ∷ 0 ∷ 5 ∷ 0 ∷ []))}
          (omega arith, λ rest. refl)
          (Wire.one_more {f = written (codes "success") (pos 0) (other 2 (1 ∷ []))}
            (omega arith, λ rest. refl)
            (Wire.one_more {f = written (codes "zone") (pos 4) (i64 (pos 1))}
              (omega arith, omega arith) none_left))))

dispatch_call-unknown_example :
    (dispatch_call plain seven
        (codes "ping")
        (pos 3)
        (write_struct plain [] newer ++ ([] ++ (9 ∷ [])))
      ≡ answered
          (exception_message plain (codes "ping") (pos 3) (invalid_name (codes "ping")))
          (9 ∷ [])
          [])
    × (recv_remote_time plain
          (pos 0)
          (exception_message plain (codes "ping") (pos 3) (invalid_name (codes "ping")) ++ [])
        ≡ done (excepted (invalid_name (codes "ping"))) [])
    × (recv_send plain
          (codes "old")
          (exception_message plain (codes "ping") (pos 3) (invalid_name (codes "ping")) ++ [])
        ≡ done (excepted (invalid_name (codes "ping"))) [])
unfolding find same_text
dispatch_call-unknown_example =
    dispatch_call-unknown plain plain-Lawful seven (codes "ping") [] (pos 3) (pos 0) (codes "old")
      newer (9 ∷ []) [] refl (omega arith) (omega arith) (omega arith) newer-AllFit

-- Two replies in the order opposite to that of the calls, and a message that is no reply.
abbrev replies : List Message
replies =
    text_reply (pos 2) (codes "hi")
    ∷ time_reply (pos 1) (pos 7)
    ∷ late_reply (pos 3) (pos 8) 0 [] newer
    ∷ []

abbrev callers : List Caller
callers =
    calls_remote_time (pos 1)
    ∷ calls_send (pos 2)
    ∷ calls_remote_time (pos 1)
    ∷ calls_remote_time (pos 3)
    ∷ []

abbrev garbage : List ℕ
garbage = 2 ∷ 0 ∷ 5 ∷ 1 ∷ []

read-ends_example :
    (ends (remote_time_args_read plain garbage) ≡ true)
    × (ends (send_args_read plain garbage) ≡ true)
    × (ends (remote_time_result_read plain remote_time_result garbage) ≡ true)
    × (ends (remote_time_presult_read plain remote_time_result garbage) ≡ true)
    × (ends (send_result_read plain send_result garbage) ≡ true)
    × (ends (send_presult_read plain send_result garbage) ≡ true)
read-ends_example = read-ends plain plain-Shrinks garbage remote_time_result send_result

result_read-struct_example :
    (remote_time_result_read plain remote_time_result (write_struct plain [] newer ++ (3 ∷ []))
      ≡ done (latest as_i64 remote_time_result newer) (3 ∷ []))
    × (remote_time_presult_read plain remote_time_result (write_struct plain [] newer ++ (3 ∷ []))
        ≡ done (latest as_i64 remote_time_result newer) (3 ∷ []))
    × (send_result_read plain send_result (write_struct plain [] newer ++ (3 ∷ []))
        ≡ done (latest as_string send_result newer) (3 ∷ []))
    × (send_presult_read plain send_result (write_struct plain [] newer ++ (3 ∷ []))
        ≡ done (latest as_string send_result newer) (3 ∷ []))
result_read-struct_example =
    result_read-struct plain plain-Lawful [] remote_time_result send_result newer (3 ∷ [])
      newer-AllFit

latest-newer : latest as_i64 remote_time_result newer ≡ record { success = pos 7; isset = true }
unfolding latest as_i64 is_zero
latest-newer = refl
