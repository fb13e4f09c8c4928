-- ===== src/Programs/Client.antt =====
-- `main` of src/Client.cpp. The server, the transport and the clock are the outside.
pub mod Laws
mod Tests
use network_demo.Base.{
  ℕ, ◌+◌, ◌/◌, ◌%◌, ◌^◌, Bool, true, false, leb, if◌then◌else◌, List, [], ◌∷◌, ◌++◌, Option, none,
  some, length,
}
use network_demo.Base.Text.{ℤ, pos, negsuc, codes, to_string}
use network_demo.Base.Words.{sub_size}
use network_demo.Base.Bytes.{from_little_endian, front}
use network_demo.StopWatch.{
  Timespec, nanoseconds, Stopwatch, fresh, start, elapsed_microseconds, elapsed_milliseconds,
}
use network_demo.Rpc.Connect.{Connection, connected, refused, no_fuel, connect}
use network_demo.Rpc.Session.{Answer, returned, thrown, Remote, remote_time, send}
use network_demo.Rpc.Echo.Client.{ClientArgs, World, Globals, ClientEnd, brpc_client}
use network_demo.Programs.Options.{
  Proto, thrift, brpc, Level, Stop, Result, ok, stopped, ◌and_then◌, set_level, proto_of, number_of,
  text_of,
}

-- The options by their long names.
pub record ClientOptions : Type 0 where
  pub log_level : Option (List ℕ)
  pub host : Option (List ℕ)
  pub port : Option (List ℕ)
  pub proto : Option (List ℕ)
  pub attachment : Option (List ℕ)
  pub request_size : Option (List ℕ)
  pub use_bthread : Bool
  pub thread_num : Option (List ℕ)

-- The variables that `main` makes of them.
pub record ClientPlan : Type 0 where
  pub level : Level
  pub proto : Proto
  pub host : List ℕ
  pub port : ℤ
  pub attachment : List ℕ
  pub request_size : ℤ
  pub use_bthread : Bool
  pub thread_num : ℤ

pub client_plan : ClientOptions → Result ClientPlan
unfolding set_level proto_of number_of text_of
client_plan o = set_level o.log_level and_then λ level.
    number_of 32 (pos 38888) o.port and_then λ port.
    number_of 64 (pos 0) o.request_size and_then λ request_size.
    number_of 32 (pos 1) o.thread_num and_then λ thread_num. ok (record {
      level = level;
      proto = proto_of o.proto;
      host = text_of (codes "127.0.0.1") o.host;
      port = port;
      attachment = text_of [] o.attachment;
      request_size = request_size;
      use_bthread = o.use_bthread;
      thread_num = thread_num;
    })

-- The call of `bRPCClient`.
pub client_args : ClientPlan → ClientArgs
client_args plan = record {
  server = plan.host ++ (codes ":" ++ to_string plan.port);
  attachment = plan.attachment;
  protocol = codes "baidu_std";
  connection_type = [];
  load_balancer = [];
  timeout_ms = 100;
  max_retry = 3;
  interval_ms = 1000;
  enable_ssl = false;
  attachment_size = pos 0;
  request_size = plan.request_size;
  dummy_port = negsuc 0;
  use_bthread = plan.use_bthread;
  thread_num = plan.thread_num;
}

-- The two latencies that are printed, in microseconds: `size_t` arithmetic.
pub latencies : (request_time remote_time response_time : ℕ) → ℕ × ℕ
latencies request_time remote_time response_time =
    (sub_size remote_time request_time / 1000, sub_size response_time remote_time / 1000)

-- `*(UInt64 *) data.data()`; `none` where that reads past the text.
pub read_stamp : List ℕ → Option ℕ
unfolding from_little_endian front
read_stamp payload =
    if leb 8 (length payload) then some (from_little_endian (front 8 payload)) else none

pub record TimeReport : Type 0 where
  pub latency : ℕ × ℕ
  pub total_us : ℕ

pub record DataReport : Type 0 where
  pub received_size : ℕ
  pub receive_us : ℕ
  pub latency : ℕ × ℕ
  pub total_ms : ℕ

-- How the exchange ends: with its reports, by an exception that nobody catches, or by the read of
-- a stamp that is not there.
pub data ThriftEnd : Type 0 where
  reported : TimeReport → DataReport → ThriftEnd
  terminated : List ℕ → ThriftEnd
  short_data : ThriftEnd

-- The clock shows `clock i` when it is read for the `i`th time.
time_report : (ℕ → Timespec) → ℕ → TimeReport
unfolding latencies nanoseconds
time_report clock remote = record {
  latency = latencies (nanoseconds (clock 1)) remote (nanoseconds (clock 2));
  total_us = elapsed_microseconds (start fresh (clock 0)) (clock 3);
}

data_report : (ℕ → Timespec) → List ℕ → ℕ → DataReport
unfolding latencies nanoseconds
data_report clock payload remote = record {
  received_size = length payload;
  receive_us = elapsed_microseconds (start fresh (clock 4)) (clock 6);
  latency = latencies (nanoseconds (clock 5)) remote (nanoseconds (clock 7));
  total_ms = elapsed_milliseconds (start fresh (clock 4)) (clock 8);
}

data_end : (ℕ → Timespec) → TimeReport → List ℕ → Option ℕ → ThriftEnd
unfolding data_report
data_end clock first payload none = short_data
data_end clock first payload (some remote) = reported first (data_report clock payload remote)

-- The second block, from the end of `send` on.
data_block {ℓ} : {S : Type ℓ} → (ℕ → Timespec) → TimeReport → S × Answer (List ℕ) → S × ThriftEnd
unfolding data_end read_stamp
data_block clock first (s, returned payload) =
    (s, data_end clock first payload (read_stamp payload))
data_block clock first (s, thrown text) = (s, terminated text)

-- The first block, from the end of `remoteTime` on, and the second.
time_block {ℓ} : {S : Type ℓ} → Remote S → (ℕ → Timespec) → S × Answer ℕ → S × ThriftEnd
unfolding time_report data_block
time_block r clock (s, returned remote) = data_block clock (time_report clock remote) (send r s)
time_block r clock (s, thrown text) = (s, terminated text)

-- `case Proto::Thrift` with a client whose transport is in the state `s`.
pub thrift_client {ℓ} : {S : Type ℓ} → Remote S → (ℕ → Timespec) → S → S × ThriftEnd
unfolding time_block
thrift_client r clock s = time_block r clock (remote_time r s)

-- What a run of the program meets: `dialed` is the transport when it has been opened at last.
pub record Outside {ℓ} (S : Type ℓ) : Type ℓ where
  pub opens : ℕ → Bool
  pub dialed : S
  pub remote : Remote S
  pub clock : ℕ → Timespec
  pub world : World
  pub globals : Globals

pub data ClientRun {ℓ} (S : Type ℓ) : Type ℓ where
  client_stopped : Stop → ClientRun S
  connection_refused : ClientRun S
  thrift_ran : S → ThriftEnd → ClientRun S
  brpc_ran : ClientEnd → ClientRun S

thrift_case {ℓ} : {S : Type ℓ} → Outside S → Connection → ClientRun S
unfolding thrift_client
thrift_case outside (connected failures slept) =
    let out = thrift_client outside.remote outside.clock outside.dialed in thrift_ran out.0 out.1
thrift_case outside (refused retry_times slept) = connection_refused
thrift_case outside no_fuel = connection_refused

dispatch {ℓ} : {S : Type ℓ} → Outside S → ClientPlan → Proto → ClientRun S
unfolding thrift_case client_args
dispatch outside plan thrift = thrift_case outside (connect outside.opens)
dispatch outside plan brpc = brpc_ran (brpc_client outside.world (client_args plan) outside.globals)

planned {ℓ} : {S : Type ℓ} → Outside S → Result ClientPlan → ClientRun S
unfolding dispatch
planned outside (ok plan) = dispatch outside plan plan.proto
planned outside (stopped s) = client_stopped s

pub client_main {ℓ} : {S : Type ℓ} → Outside S → ClientOptions → ClientRun S
unfolding planned client_plan
client_main outside o = planned outside (client_plan o)
