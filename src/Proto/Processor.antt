-- ===== src/Proto/Processor.antt =====
-- `TestProtoProcessor` (gen-cpp/TestProto.cpp): the dispatch of a call to its method, and the two
-- methods with what the handler does and what an event handler, if one is set, is told.
use network_demo.Base.{ℕ, Bool, true, if◌then◌else◌, List, [], ◌∷◌, ◌++◌, Option, none, some}
use network_demo.Base.Text.{ℤ, codes, same_text}
use network_demo.Proto.Wire.{
  Protocol, t_reply, t_exception, t_struct, ApplicationException, application, unknown,
  unknown_method, Read, done, failed, endless,
}
use network_demo.Proto.Structs.{
  Args, send_result, remote_time_args_read, send_args_read, remote_time_result_write,
  send_result_write,
}
use network_demo.Proto.Client.{remote_time_name, send_name}

-- What the handler gives back, or the `what()` of the `std::exception` that it throws.
pub data Outcome {ℓ} (A : Type ℓ) : Type ℓ where
  gives : A → Outcome A
  throws : (what : List ℕ) → Outcome A

-- The handler behind `iface_`, and whether `eventHandler_` is set.
pub record Processor : Type 0 where
  pub iface_remote_time : Outcome ℤ
  pub iface_send : List ℕ → Outcome (List ℕ)
  pub has_events : Bool

pub data Method : Type 0 where
  process_remote_time_method process_send_method : Method

-- What the event handler is told, with the name of the method.
pub data Event : Type 0 where
  get_context pre_read post_read handler_error pre_write post_write free_context :
      (method : List ℕ) → Event

-- How a call is served: the bytes of the answer and what is left of the input, or the exception of
-- the library that leaves the function, each with what the event handler was told.
pub data Processed : Type 0 where
  answered : (reply : List ℕ) (rest : List ℕ) (told : List Event) → Processed
  broken : (told : List Event) → Processed
  unended : Processed

-- `processMap_`
abbrev pub process_map : List (List ℕ × Method)
process_map = (remote_time_name, process_remote_time_method) ∷ (send_name, process_send_method) ∷ []

unfoldable pub find : List ℕ → List (List ℕ × Method) → Option Method
find name [] = none
find name ((key, m) ∷ entries) = if same_text name key then some m else find name entries

unfoldable pub if_told : Processor → List Event → List Event
if_told s events = if s.has_events then events else []

module _ (p : Protocol) where
  unfoldable pub exception_message : List ℕ → ℤ → ApplicationException → List ℕ
  exception_message name seqid x =
      p.write_message_begin name t_exception seqid ++ p.write_exception x ++ p.write_message_end

  unfoldable pub reply_message : List ℕ → ℤ → List ℕ → List ℕ
  reply_message name seqid result =
      p.write_message_begin name t_reply seqid ++ result ++ p.write_message_end

  -- `result.success` is what the handler has given, and is written as set.
  unfoldable pub remote_time_outcome : Outcome ℤ → Outcome (List ℕ)
  remote_time_outcome (gives n) =
      gives (remote_time_result_write p (record { success = n; isset = true }))
  remote_time_outcome (throws what) = throws what

  unfoldable pub send_outcome : Outcome (List ℕ) → Outcome (List ℕ)
  send_outcome (gives text) = gives (send_result_write p (record { success = text; isset = true }))
  send_outcome (throws what) = throws what

abbrev pub invalid_name : List ℕ → ApplicationException
invalid_name name = application unknown_method (codes "Invalid method name: '" ++ name ++ codes "'")

module _ (p : Protocol) (s : Processor) where
  -- The handler is called, and its outcome answered; `label` is the method for the event handler.
  unfoldable pub handled :
      (name label : List ℕ) → ℤ → Outcome (List ℕ) → (rest : List ℕ) → Processed
  unfolding if_told exception_message reply_message
  handled name label seqid (gives result) rest = answered (reply_message p name seqid result) rest (
      if_told s (
        get_context label
        ∷ pre_read label
        ∷ post_read label
        ∷ pre_write label
        ∷ post_write label
        ∷ free_context label
        ∷ []))
  handled name label seqid (throws what) rest =
      answered (exception_message p name seqid (application unknown what)) rest (
        if_told s (
          get_context label
          ∷ pre_read label
          ∷ post_read label
          ∷ handler_error label
          ∷ free_context label
          ∷ []))

  unfoldable pub unread : List ℕ → Processed
  unfolding if_told
  unread label = broken (if_told s (get_context label ∷ pre_read label ∷ free_context label ∷ []))

  unfoldable pub process : (name label : List ℕ) → ℤ → Outcome (List ℕ) → Read Args → Processed
  unfolding handled unread
  process name label seqid outcome (done a rest) = elim (p.read_message_end rest) [
    | none ↦ unread label
    | some r ↦ handled name label seqid outcome r
  ]
  process name label seqid outcome failed = unread label
  process name label seqid outcome endless = unended

  unfoldable pub process_remote_time : ℤ → List ℕ → Processed
  unfolding process remote_time_outcome
  process_remote_time seqid input =
      process remote_time_name (codes "TestProto.remoteTime") seqid
        (remote_time_outcome p s.iface_remote_time) (remote_time_args_read p input)

  unfoldable pub process_send : ℤ → List ℕ → Processed
  unfolding process send_outcome
  process_send seqid input =
      process send_name (codes "TestProto.send") seqid
        (send_outcome p (s.iface_send send_result.success)) (send_args_read p input)

  unfoldable pub not_found : List ℕ → ℤ → List ℕ → Processed
  unfolding exception_message
  not_found name seqid input = elim (p.skip t_struct input) [
    | none ↦ broken []
    | some r ↦ elim (p.read_message_end r) [
      | none ↦ broken []
      | some rest ↦ answered (exception_message p name seqid (invalid_name name)) rest []
    ]
  ]

  unfoldable pub dispatch_call : (fname : List ℕ) → ℤ → List ℕ → Processed
  unfolding find process_remote_time process_send not_found
  dispatch_call fname seqid input = elim (find fname process_map) [
    | none ↦ not_found fname seqid input
    | some process_remote_time_method ↦ process_remote_time seqid input
    | some process_send_method ↦ process_send seqid input
  ]
