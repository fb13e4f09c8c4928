-- ===== src/Programs/Server.antt =====
-- `main` of src/Server.cpp.
pub mod Laws
mod Tests
use network_demo.Base.{ℕ, Bool, List, Option}
use network_demo.Base.Text.{ℤ, pos, negsuc}
use network_demo.Rpc.Server.{Run, thrift_branch}
use network_demo.Rpc.Echo.{ServerOptions, ServerEnd, start_brpc_server}
use network_demo.Programs.Options.{
  Proto, thrift, brpc, Level, Stop, Result, ok, stopped, ◌and_then◌, set_level, proto_of, number_of,
}

pub record ServerArgs : Type 0 where
  pub log_level : Option (List ℕ)
  pub port : Option (List ℕ)
  pub proto : Option (List ℕ)
  pub attachment : Bool
  pub is_response : Bool
  pub max_c : Option (List ℕ)
  pub internal_port : Option (List ℕ)

pub record ServerPlan : Type 0 where
  pub level : Level
  pub proto : Proto
  pub port : ℤ
  pub attachment : Bool
  pub is_response : Bool
  pub max_concurrency : ℤ
  pub internal_port : ℤ

pub server_plan : ServerArgs → Result ServerPlan
unfolding set_level proto_of number_of
server_plan o = set_level o.log_level and_then λ level.
    number_of 32 (pos 38888) o.port and_then λ port.
    number_of 32 (negsuc 0) o.max_c and_then λ max_concurrency.
    number_of 32 (negsuc 0) o.internal_port and_then λ internal_port. ok (record {
      level = level;
      proto = proto_of o.proto;
      port = port;
      attachment = o.attachment;
      is_response = o.is_response;
      max_concurrency = max_concurrency;
      internal_port = internal_port;
    })

pub data ServerRun : Type 0 where
  server_stopped : Stop → ServerRun
  thrift_served : Run → ServerRun
  brpc_served : ServerEnd → ServerRun

-- `starts` and `added` say whether bRPC's `Start` and `AddService` return 0.
dispatch : (ℤ → ServerOptions → Bool) → Bool → ServerPlan → Proto → ServerRun
dispatch starts added plan thrift = thrift_served thrift_branch
dispatch starts added plan brpc = brpc_served (
    start_brpc_server starts added plan.port plan.attachment plan.is_response plan.max_concurrency
      plan.internal_port)

planned : (ℤ → ServerOptions → Bool) → Bool → Result ServerPlan → ServerRun
unfolding dispatch
planned starts added (ok plan) = dispatch starts added plan plan.proto
planned starts added (stopped s) = server_stopped s

pub server_main : (ℤ → ServerOptions → Bool) → Bool → ServerArgs → ServerRun
unfolding planned server_plan
server_main starts added o = planned starts added (server_plan o)
