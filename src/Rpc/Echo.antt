-- ===== src/Rpc/Echo.antt =====
-- The bRPC example (src/Example-bRPC/TestRPC.h and echo.proto): the service, its server, and the
-- sender loop of a client thread. bRPC is a library: what its calls answer are arguments.
pub mod Client
pub mod Laws
mod Tests
use network_demo.Base.{
  ℕ, zero, suc, ◌+◌, ◌-◌, ◌^◌, Bool, true, false, ◌||◌, not, ◌==◌, if◌then◌else◌, List, [], ◌∷◌,
  ◌++◌, Option, none, some,
}
use network_demo.Base.Text.{ℤ, negsuc, codes}

-- `iobuf2str`: the blocks `i` to `n - 1` of a buffer are written to the stream.
pub iobuf2str : List (List ℕ) → List ℕ
iobuf2str [] = []
iobuf2str (blk ∷ blocks) = blk ++ iobuf2str blocks

pub record EchoServiceImpl : Type 0 where
  pub attachment : Bool
  pub is_response : Bool

-- `EchoResponse`: its field is required, and stands empty until it is set.
pub record EchoResponse : Type 0 where
  pub message : Option (List ℕ)

-- What the service sees of `brpc::Controller`.
pub record Controller : Type 0 where
  pub request_attachment : List ℕ
  pub response_attachment : List ℕ

-- `EchoServiceImpl::Echo`, up to the return, when the guard runs `done`.
pub echo : EchoServiceImpl → Controller → List ℕ → EchoResponse → Controller × EchoResponse
echo service cntl message response = (
  (if service.attachment
      then record cntl { response_attachment = cntl.response_attachment ++ cntl.request_attachment }
      else cntl),
  (if service.is_response then record { message = some message } else response),
)

pub record ServerOptions : Type 0 where
  pub certificate : List ℕ
  pub private_key : List ℕ
  pub idle_timeout_sec : ℤ
  pub max_concurrency : ℤ
  pub internal_port : ℤ

-- How `startBRPCServer` ends: by `exit(1)`, or when the server is asked to quit.
pub data ServerEnd : Type 0 where
  server_exits : (status : ℕ) → (logged : List ℕ) → ServerEnd
  server_quits : EchoServiceImpl → ServerOptions → ServerEnd

-- `added` and `starts` say whether `AddService` and `Start` return 0.
pub start_brpc_server :
    (starts : ℤ → ServerOptions → Bool) (added : Bool)
    → ℤ
    → (attachment is_response : Bool) (max_concurrency internal_port : ℤ) → ServerEnd
start_brpc_server starts added port attachment is_response max_concurrency internal_port =
    let options : ServerOptions = record {
      certificate = codes "cert.pem";
      private_key = codes "key.pem";
      idle_timeout_sec = negsuc 0;
      max_concurrency = max_concurrency;
      internal_port = internal_port;
    } in
    if not added
    then server_exits 1 (codes "Fail to add service")
    else if not (starts port options)
    then server_exits 1 (codes "Fail to add service")
    else server_quits (record { attachment = attachment; is_response = is_response }) options

-- A request as it leaves the client.
pub record EchoRequest : Type 0 where
  pub message : List ℕ
  pub attachment : List ℕ
  pub log_id : ℕ

-- How a call comes back: with its latency, or failed, and whether the program is then asked to
-- quit.
pub data Reply : Type 0 where
  replied : (latency_us : ℕ) → Reply
  failed : (asked_to_quit : Bool) → Reply

-- What a thread has done: its requests and latencies, the last in front, its errors, and the
-- microseconds that it slept.
pub record Tally : Type 0 where
  pub sent : List EchoRequest
  pub latencies : List ℕ
  pub errors : ℕ
  pub slept : ℕ

abbrev pub no_tally : Tally
no_tally = record { sent = []; latencies = []; errors = 0; slept = 0 }

-- How a thread ends: it returns, `log_id++` overflows, or a `CHECK` fails.
pub data SenderEnd : Type 0 where
  sender_returned : Tally → SenderEnd
  overflows : Tally → SenderEnd
  check_failed : Tally → SenderEnd
  no_fuel : SenderEnd

-- The outside of a thread: whether the program is asked to quit when the loop tests it for the
-- `n`th time, and what comes of the `n`th request.
pub record Outside : Type 0 where
  pub quits : ℕ → Bool
  pub reply : ℕ → Reply

-- One round after its test; `none` is a failed `CHECK`.
received : Bool → Tally → Reply → Tally × Bool
received dont_fail tally (replied latency_us) =
    (record tally { latencies = latency_us ∷ tally.latencies }, true)
received dont_fail tally (failed asked_to_quit) =
    if asked_to_quit || not dont_fail
    then (record tally { errors = suc tally.errors; slept = tally.slept + 50000 }, true)
    else (record tally { errors = suc tally.errors }, false)

pub send_request : List ℕ → List ℕ → ℕ → Tally → Tally
send_request g_request g_attachment log_id tally = record tally {
  sent = record { message = g_request; attachment = g_attachment; log_id = log_id } ∷ tally.sent;
}

-- The loop of `sender`, with a bound on its rounds. `log_id` is an `int`, whose largest value cannot be
-- increased.
pub sender_loop : ℕ → Outside → Bool → List ℕ → List ℕ → ℕ → Tally → SenderEnd
unfolding received send_request
sender_loop zero outside dont_fail g_request g_attachment log_id tally = no_fuel
sender_loop (suc fuel) outside dont_fail g_request g_attachment log_id tally =
    let out =
      received dont_fail (send_request g_request g_attachment log_id tally)
        (outside.reply log_id) in
    let rest = sender_loop fuel outside dont_fail g_request g_attachment (suc log_id) out.0 in
    if outside.quits log_id
    then sender_returned tally
    else if log_id == 2 ^ 31 - 1
    then overflows tally
    else if out.1
    then rest
    else check_failed out.0

pub sender : ℕ → Outside → Bool → List ℕ → List ℕ → SenderEnd
unfolding sender_loop
sender fuel outside dont_fail g_request g_attachment =
    sender_loop fuel outside dont_fail g_request g_attachment 0 no_tally
