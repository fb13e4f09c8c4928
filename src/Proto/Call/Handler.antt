-- ===== src/Proto/Call/Handler.antt =====
-- The handler of TestRPC.h behind the generated code.
use network_demo.Base.{ℕ, ◌-◌, ◌^◌, Bool, ltb, if◌then◌else◌}
use network_demo.Base.Text.{ℤ, pos, negsuc}
use network_demo.StopWatch.{Timespec}
use network_demo.Rpc.Session.{handler_remote_time, handler_send}
use network_demo.Proto.Processor.{Processor, gives}

-- A `uint64_t` as the `int64_t` that `remoteTime` returns.
unfoldable pub to_int64 : ℕ → ℤ
to_int64 n = if ltb n (2 ^ 63) then pos n else negsuc (2 ^ 64 - 1 - n)

-- `TestProtoHandler` when `remoteTime` finds the first time, and `send` the second.
pub test_proto_handler : Timespec → Timespec → Bool → Processor
unfolding to_int64
test_proto_handler now later has_events = record {
  iface_remote_time = gives (to_int64 (handler_remote_time now));
  iface_send = λ text. gives (handler_send later text);
  has_events = has_events;
}
