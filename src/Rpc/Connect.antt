-- ===== src/Rpc/Connect.antt =====
-- The constructor of `IRPCClient` (src/Example-ThriftRPC/IRPC.h): it tries to open the transport
-- until that succeeds, 1000 times at most.
pub mod Laws
mod Tests
use network_demo.Base.{ℕ, zero, suc, ◌+◌, Bool, ◌==◌, if◌then◌else◌}

abbrev pub retry_limit : ℕ
retry_limit = 1000

-- `RETRY_CONNECT_TIME_OUT`, in milliseconds.
abbrev pub retry_connect_time_out : ℕ
retry_connect_time_out = 100

-- How the constructor ends: with an open transport after some failures, or by the exception; each
-- with the milliseconds that it has slept.
pub data Connection : Type 0 where
  connected : (failures slept : ℕ) → Connection
  refused : (retry_times slept : ℕ) → Connection
  no_fuel : Connection

-- The `while` loop, with a bound on its rounds. `opens k` says whether the open after `k` failures
-- succeeds. A round that ends normally sleeps, also the last one.
pub connect_loop : ℕ → (ℕ → Bool) → ℕ → ℕ → Connection
connect_loop zero opens retry_times slept = no_fuel
connect_loop (suc fuel) opens retry_times slept =
    let rest = connect_loop fuel opens (suc retry_times) (slept + retry_connect_time_out) in
    if opens retry_times
    then connected retry_times (slept + retry_connect_time_out)
    else if retry_limit == suc retry_times
    then refused (suc retry_times) slept
    else rest

pub connect : (ℕ → Bool) → Connection
unfolding connect_loop
connect opens = connect_loop retry_limit opens 0 0
