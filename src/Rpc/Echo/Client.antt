-- ===== src/Rpc/Echo/Client.antt =====
-- `bRPCClient` (src/Example-bRPC/TestRPC.h): the set-up of the channel, the guards on the sizes, and
-- the sender threads from their start to their end.
pub mod Laws
use network_demo.Base.{
  ℕ, zero, suc, ◌+◌, ◌*◌, ◌/◌, Bool, true, false, not, ◌&&◌, leb, min, if◌then◌else◌, List, [], ◌∷◌,
  ◌++◌, Option, none, some,
}
use network_demo.Base.Text.{ℤ, pos, negsuc, codes, to_string}
use network_demo.Base.Bytes.{resize}

pub record ClientArgs : Type 0 where
  pub server : List ℕ
  pub attachment : List ℕ
  pub protocol : List ℕ
  pub connection_type : List ℕ
  pub load_balancer : List ℕ
  pub timeout_ms : ℕ
  pub max_retry : ℕ
  pub interval_ms : ℕ
  pub enable_ssl : Bool
  pub attachment_size : ℤ
  pub request_size : ℤ
  pub dummy_port : ℤ
  pub use_bthread : Bool
  pub thread_num : ℤ

pub record ChannelOptions : Type 0 where
  pub ssl : Bool
  pub protocol : List ℕ
  pub connection_type : List ℕ
  pub connect_timeout_ms : ℕ
  pub timeout_ms : ℕ
  pub max_retry : ℕ

pub channel_options : ClientArgs → ChannelOptions
channel_options args = record {
  ssl = args.enable_ssl;
  protocol = args.protocol;
  connection_type = args.connection_type;
  connect_timeout_ms = min (args.timeout_ms / 2) 100;
  timeout_ms = args.timeout_ms;
  max_retry = args.max_retry;
}

-- The outside of the client: whether the channel can be set up, whether a string or vector can be
-- resized to so many bytes, whether the `i`th thread starts, and whether the program is asked to quit
-- when the loop that waits for it tests so for the `k`th time; and a bound on the rounds of that loop.
pub record World : Type 0 where
  pub inits : List ℕ → List ℕ → ChannelOptions → Bool
  pub allocates : (bytes : ℕ) → Bool
  pub creates : (use_bthread : Bool) (i : ℕ) → Bool
  pub quits : ℕ → Bool
  pub rounds : ℕ

pub data Event : Type 0 where
  dummy_server : (port : ℕ) → Event
  started joined : (use_bthread : Bool) (i : ℕ) → Event

-- The globals `g_request` and `g_attachment`, and what has been done, the last in front.
pub record Globals : Type 0 where
  pub g_request : List ℕ
  pub g_attachment : List ℕ
  pub events : List Event

-- By `exit(status)` with a message, by the exception of a `resize`, or by the return once the program
-- is asked to quit, after so many seconds; or it waits beyond the bound on the rounds.
pub data ClientEnd : Type 0 where
  client_exits : (status : ℕ) → (logged : List ℕ) → Globals → ClientEnd
  resize_throws still_waits : Globals → ClientEnd
  client_returns : (seconds : ℕ) → Globals → ClientEnd

told : Event → Globals → Globals
told e g = record g { events = e ∷ g.events }

-- The threads from `i` on, `left` of them.
join_threads : (left i : ℕ) → Bool → Globals → Globals
unfolding told
join_threads zero i use_bthread g = g
join_threads (suc left) i use_bthread g =
    join_threads left (suc i) use_bthread (told (joined use_bthread i) g)

-- `none` is a thread that does not start.
start_threads : World → (left i : ℕ) → Bool → Globals → Globals × Bool
unfolding told
start_threads w zero i use_bthread g = (g, true)
start_threads w (suc left) i use_bthread g =
    let rest = start_threads w left (suc i) use_bthread (told (started use_bthread i) g) in
    if w.creates use_bthread i then rest else (g, false)

pub positive : ℤ → Bool
positive (pos zero) = false
positive (pos (suc n)) = true
positive (negsuc n) = false

pub magnitude : ℤ → ℕ
magnitude (pos n) = n
magnitude (negsuc n) = 0

-- `while (!brpc::IsAskedToQuit()) sleep(1);`, with the seconds slept so far; what it logs is left out.
wait_loop : (fuel : ℕ) → (ℕ → Bool) → (seconds : ℕ) → Option ℕ
wait_loop zero quits seconds = none
wait_loop (suc fuel) quits seconds =
    let rest = wait_loop fuel quits (suc seconds) in if quits seconds then some seconds else rest

-- From the `resize` of the vector of threads on, whose ids have 8 bytes. A negative number becomes a
-- `size_t` beyond the largest size of a vector.
run_threads : World → Bool → ℤ → Globals → ClientEnd
unfolding start_threads join_threads wait_loop
run_threads w use_bthread (negsuc n) g = resize_throws g
run_threads w use_bthread (pos n) g =
    let out = start_threads w n 0 use_bthread g in
    if not (w.allocates (n * 8))
    then resize_throws g
    else if not out.1
    then client_exits 1 (codes "Fail to create pthread") out.0
    else elim (wait_loop w.rounds w.quits 0) [
      | none ↦ still_waits out.0
      | some seconds ↦ client_returns seconds (join_threads n 0 use_bthread out.0)
    ]

pub started_dummy : ℤ → Globals → Globals
unfolding told
started_dummy (pos port) g = told (dummy_server port) g
started_dummy (negsuc n) g = g

pub sized : Bool → ℕ → ℕ → List ℕ → List ℕ
unfolding resize
sized positive_ n c text = if positive_ then resize n c text else text

pub brpc_client : World → ClientArgs → Globals → ClientEnd
unfolding channel_options positive magnitude sized run_threads started_dummy
brpc_client w args g =
    let attached = record g {
      g_attachment =
          sized (positive args.attachment_size) (magnitude args.attachment_size) b'a'
            g.g_attachment;
    } in
    let requested = record attached {
      g_request = sized true (magnitude args.request_size) b'r' g.g_request;
    } in
    if not (w.inits args.server args.load_balancer (channel_options args))
    then client_exits 1 (codes "Fail to initialize channel") g
    else if positive args.attachment_size && not (w.allocates (magnitude args.attachment_size))
    then resize_throws g
    else if not (positive args.request_size)
    then client_exits 1 (codes "Bad request_size=" ++ to_string args.request_size) attached
    else if not (w.allocates (magnitude args.request_size))
    then resize_throws attached
    else run_threads w args.use_bthread args.thread_num (started_dummy args.dummy_port requested)
