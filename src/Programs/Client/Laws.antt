-- ===== src/Programs/Client/Laws.antt =====
-- What the client program prints, and how its runs end.
use network_demo.Base.{
  ℕ, ◌+◌, ◌-◌, ◌/◌, ◌^◌, ◌≤◌, ◌<◌, ◌≡◌, Bool, false, List, none, some, refl, arith, length, ◌∙◌, ap,
  sym, ◌≢◌,
}
use network_demo.Base.Text.{pos, codes, same_text}
use network_demo.Base.Bytes.{from_little_endian-little_endian}
use network_demo.StopWatch.{Timespec, nanoseconds}
use network_demo.Rpc.Session.{Answer, returned, thrown, Remote, remote_time, send, handler_send}
use network_demo.Rpc.Session.Laws.{Lawful, calls_end, length-handler_send, front-handler_send}
use network_demo.Rpc.Echo.Client.{ClientEnd, brpc_client}
use network_demo.Rpc.Echo.Client.Laws.{is_return, is_return-unready}
use network_demo.Programs.Options.{
  brpc, Result, ok, stopped, ◌and_then◌, set_level, proto_of, number_of, get_proto,
}
use network_demo.Programs.Client.{
  ClientOptions, ClientPlan, client_plan, client_args, latencies, read_stamp, ThriftEnd, TimeReport,
  terminated, data_block, time_block, thrift_client, Outside, brpc_ran, client_main, planned,
  dispatch, time_report,
}

-- If the clocks of both sides agree, the two latencies that the client prints add up to the time
-- from the request to the response, up to the microsecond that rounding can lose.
latencies_bounds :
    (request_time remote_time response_time : ℕ)
    → request_time ≤ remote_time
    → remote_time ≤ response_time
    → response_time < 2 ^ 64
    → let l = latencies request_time remote_time response_time in
      (l.0 + l.1 ≤ (response_time - request_time) / 1000)
      × ((response_time - request_time) / 1000 ≤ l.0 + l.1 + 1)
unfolding latencies
latencies_bounds request_time remote_time response_time lo hi word = (omega arith, omega arith)

-- The client reads from the text that the server has filled the time at which it filled it, and
-- the text has 2^31 - 1 bytes, whatever it held before.
pub read_stamp-handler_send :
    (now : Timespec) (text : List ℕ)
    → (read_stamp (handler_send now text) ≡ some (nanoseconds now))
      × (length (handler_send now text) ≡ 2 ^ 31 - 1)
unfolding read_stamp nanoseconds
read_stamp-handler_send now text =
    let size = length-handler_send now text in
    let word : nanoseconds now < 256 ^ 8 = omega arith in
    (
      rw (size, front-handler_send now text)
          (ap some (from_little_endian-little_endian 8 (nanoseconds now) word)),
      size,
    )

module _ {S : Type 0} (r : Remote S) (is_open : S → Bool) (lawful : Lawful r is_open) where
  -- What is to be said of an end: the transport is closed, unless an exception ends the program.
  abbrev Closes : S × ThriftEnd → Type 0
  Closes out = ((text : List ℕ) → out.1 ≢ terminated text) → is_open out.0 ≡ false

  data_block-Closes :
      (clock : ℕ → Timespec) (first : TimeReport) (q : S × Answer (List ℕ))
      → ((text : List ℕ) → q.1 ≡ returned text → is_open q.0 ≡ false)
      → Closes (data_block clock first q)
  unfolding data_block
  data_block-Closes clock first (s, returned text) h = λ going. h text refl
  data_block-Closes clock first (s, thrown text) h = λ going. absurd (going text refl)

  time_block-Closes : (clock : ℕ → Timespec) (q : S × Answer ℕ) → Closes (time_block r clock q)
  unfolding time_block
  time_block-Closes clock (s, returned remote) =
      data_block-Closes clock (time_report clock remote) (send r s)
        (calls_end r is_open lawful s).1.0
  time_block-Closes clock (s, thrown text) = λ going. absurd (going text refl)

-- Where an `and_then` comes to an end, both parts do.
and_then_ok :
    {A B : Type 0} (x : Result A) (f : A → Result B) (b : B)
    → (x and_then f) ≡ ok b
    → (a : A) × (x ≡ ok a) × (f a ≡ ok b)
unfolding ◌and_then◌
and_then_ok (ok a) f b e = (a, refl, e)
and_then_ok (stopped s) f b e = absurd (cc)

result_or : {A : Type 0} → A → Result A → A
result_or a (ok b) = b
result_or a (stopped s) = a

-- What a plan has of its options.
client_plan_parts :
    (o : ClientOptions) (plan : ClientPlan)
    → client_plan o ≡ ok plan
    → (plan.proto ≡ proto_of o.proto) × (number_of 64 (pos 0) o.request_size ≡ ok plan.request_size)
unfolding client_plan result_or
client_plan_parts o plan e =
    let (level, el, e1) = and_then_ok (set_level o.log_level) _ plan e in
    let (port, ep, e2) = and_then_ok (number_of 32 (pos 38888) o.port) _ plan e1 in
    let (size, es, e3) = and_then_ok (number_of 64 (pos 0) o.request_size) _ plan e2 in
    let (threads, et, e4) = and_then_ok (number_of 32 (pos 1) o.thread_num) _ plan e3 in
    (
      ap (λ x. (result_or plan x).proto) (sym e4),
      es ∙ ap (λ x. ok (result_or plan x).request_size) e4,
    )

-- The protocol bRPC without the option for the size of the requests: whatever the other options
-- and the outside are, the program comes to `bRPCClient`, which does not return.
brpc_without_size :
    {S : Type 0} (outside : Outside S) (o : ClientOptions) (plan : ClientPlan)
    → client_plan o ≡ ok plan
    → o.proto ≡ some (codes "brpc")
    → o.request_size ≡ none
    → (end_ : ClientEnd) × (client_main outside o ≡ brpc_ran end_) × (is_return end_ ≡ false)
unfolding client_main planned dispatch client_args proto_of number_of get_proto same_text result_or
brpc_without_size outside o plan e proto size =
    let parts = client_plan_parts o plan e in
    let is_brpc : plan.proto ≡ brpc = parts.0 ∙ rw proto refl in
    let is_zero : plan.request_size ≡ pos 0 =
      sym (ap (λ x. result_or (pos 0) x) (rw size at parts.1)) in
    let args = client_args plan in
    (
      brpc_client outside.world args outside.globals,
      rw (e, is_brpc) refl,
      is_return-unready outside.world args outside.globals (rw is_zero refl),
    )

-- If the program ends its exchange over Thrift without an exception, it has closed the transport,
-- if the library opens and closes the transport as it says.
pub thrift_client-closes :
    {S : Type 0} (r : Remote S) (is_open : S → Bool)
    → Lawful r is_open
    → (clock : ℕ → Timespec) (s : S)
    → ((text : List ℕ) → (thrift_client r clock s).1 ≢ terminated text)
    → is_open (thrift_client r clock s).0 ≡ false
unfolding thrift_client
thrift_client-closes r is_open lawful clock s going =
    time_block-Closes r is_open lawful clock (remote_time r s) going
