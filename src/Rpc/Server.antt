-- ===== src/Rpc/Server.antt =====
-- `IRPCServer` (src/Example-ThriftRPC/IRPC.h) and its use by src/Server.cpp. Thrift's
-- `TThreadedServer` and its thread are libraries: what their calls throw are arguments, and what
-- they do to the server's socket is told to a log.
pub mod Laws
mod Tests
use network_demo.Base.{Bool, true, false, if◌then◌else◌, ℕ, List, [], ◌∷◌, ◌++◌, Option, none, some}
use network_demo.Base.Text.{codes}

-- Calls of the library in their order. A call through an empty pointer is a fault.
pub data Effect : Type 0 where
  server_serves server_stops thread_joined : Effect
  thread_starts : (has_server : Bool) → Effect

-- The two pointers: whether `server` is set, and whether `thread` is.
pub record RpcServer : Type 0 where
  pub server : Bool
  pub thread : Bool
  pub effects : List Effect

-- How a member function ends.
pub data Run : Type 0 where
  done : RpcServer → Run
  threw : List ℕ → RpcServer → Run
  fault : RpcServer → Run

-- A value of the base class, and one that the constructor of `TestProtoRPCServer` has made.
abbrev pub empty_server : RpcServer
empty_server = record { server = false; thread = false; effects = [] }

pub made : RpcServer
made = record { server = true; thread = false; effects = [] }

after : Effect → RpcServer → RpcServer
after e s = record s { effects = e ∷ s.effects }

pub serve : Option (List ℕ) → RpcServer → Run
unfolding after
serve outcome s =
    if s.server
    then (elim outcome [
      | none ↦ done (after server_serves s)
      | some what ↦ threw (codes "Could not establish RPC server: " ++ what) (after server_serves s)
    ])
    else fault s

pub leave : RpcServer → RpcServer
leave s = record s { server = false }

pub stop : RpcServer → Run
unfolding after leave
stop s =
    if s.server
    then (if s.thread
        then done (leave (after thread_joined (after server_stops s)))
        else done (after server_stops s))
    else fault s

pub async_run : RpcServer → RpcServer
unfolding after
async_run s = record (after (thread_starts s.server) s) { thread = true }

-- `~IRPCServer`
pub destroy : RpcServer → Run
unfolding stop
destroy s = stop s

-- The calls that the owner of a server makes; `serve` with what the library throws.
pub data Call : Type 0 where
  call_serve : Option (List ℕ) → Call
  call_stop call_leave call_async_run : Call

pub call : Call → RpcServer → Run
unfolding serve stop leave async_run
call (call_serve outcome) s = serve outcome s
call call_stop s = stop s
call call_leave s = done (leave s)
call call_async_run s = done (async_run s)

-- The end of the scope: the destructor runs, also when an exception passes.
pub end_scope : Run → Run
unfolding destroy
end_scope (done s) = destroy s
end_scope (threw what s) = elim (destroy s) [
  | done s1 ↦ threw what s1
  | threw what1 s1 ↦ threw what1 s1
  | fault s1 ↦ fault s1
]
end_scope (fault s) = fault s

calls_then : (RpcServer → Run) → Run → Run
calls_then rest (done s) = rest s
calls_then rest (threw what s) = threw what s
calls_then rest (fault s) = fault s

pub calls : List Call → RpcServer → Run
unfolding call calls_then
calls [] s = done s
calls (c ∷ cs) s = calls_then (calls cs) (call c s)

-- A server from its constructor to its destructor.
pub life : List Call → Run
unfolding calls end_scope made
life cs = end_scope (calls cs made)

-- `case Proto::Thrift` of src/Server.cpp.
pub thrift_branch : Run
unfolding life
thrift_branch = life (call_async_run ∷ [])
