-- ===== src/Rpc/Server/Laws.antt =====
-- When the life of a server comes to a call through the empty pointer.
use network_demo.Base.{Bool, true, false, List, [], ◌∷◌, none, some, ◌≡◌, refl}
use network_demo.Rpc.Server.{
  Effect, RpcServer, Run, done, threw, fault, made, after, serve, leave, stop, async_run, destroy,
  Call, call_serve, call_stop, call_leave, call_async_run, call, calls_then, calls, end_scope, life,
  thrift_branch, server_serves, server_stops, thread_joined, thread_starts,
}

abbrev pub is_fault : Run → Bool
is_fault (done s) = false
is_fault (threw what s) = false
is_fault (fault s) = true

-- Whether calls, with a thread or without, empty the pointer before the scope ends: `leave` does,
-- and so does a `stop` once there is a thread. An exception ends the calls.
abbrev pub empties : Bool → List Call → Bool
empties thread [] = false
empties thread (call_serve none ∷ cs) = empties thread cs
empties thread (call_serve (some what) ∷ cs) = false
empties thread (call_leave ∷ cs) = true
empties thread (call_async_run ∷ cs) = empties true cs
empties false (call_stop ∷ cs) = empties false cs
empties true (call_stop ∷ cs) = true

abbrev state : Bool → Bool → List Effect → RpcServer
state has_server thread es = record { server = has_server; thread = thread; effects = es }

-- Without a server every continuation faults.
emptied :
    (cs : List Call) (thread : Bool) (es : List Effect)
    → is_fault (end_scope (calls cs (state false thread es))) ≡ true
unfolding calls call calls_then end_scope destroy stop serve leave async_run after
emptied [] thread es = refl
emptied (call_serve outcome ∷ cs) thread es = refl
emptied (call_leave ∷ cs) thread es = emptied cs thread es
emptied (call_async_run ∷ cs) thread es = emptied cs true (thread_starts false ∷ es)
emptied (call_stop ∷ cs) thread es = refl

is_fault-calls :
    (cs : List Call) (thread : Bool) (es : List Effect)
    → is_fault (end_scope (calls cs (state true thread es))) ≡ empties thread cs
unfolding calls call calls_then end_scope destroy stop serve leave async_run after
is_fault-calls [] false es = refl
is_fault-calls [] true es = refl
is_fault-calls (call_serve none ∷ cs) thread es = is_fault-calls cs thread (server_serves ∷ es)
is_fault-calls (call_serve (some what) ∷ cs) false es = refl
is_fault-calls (call_serve (some what) ∷ cs) true es = refl
is_fault-calls (call_leave ∷ cs) thread es = emptied cs thread es
is_fault-calls (call_async_run ∷ cs) thread es = is_fault-calls cs true (thread_starts true ∷ es)
is_fault-calls (call_stop ∷ cs) false es = is_fault-calls cs false (server_stops ∷ es)
is_fault-calls (call_stop ∷ cs) true es = emptied cs true (thread_joined ∷ server_stops ∷ es)

-- The life of a server, to its destructor, comes to a call through the empty pointer exactly if
-- the calls empty it: by `leave`, or by a `stop` after an `asyncRun`.
pub life_faults : (cs : List Call) → is_fault (life cs) ≡ empties false cs
unfolding life made
life_faults cs = is_fault-calls cs false []

-- The server program joins its thread at once, after it has told the server to stop.
pub thrift_branch_lem :
    thrift_branch
    ≡ done (record {
      server = false;
      thread = true;
      effects = thread_joined ∷ server_stops ∷ thread_starts true ∷ [];
    })
unfolding thrift_branch life calls call calls_then end_scope destroy stop async_run after made leave
thrift_branch_lem = refl
