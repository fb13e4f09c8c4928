-- ===== src/Programs/Server/Laws.antt =====
-- What the server program does over Thrift.
use network_demo.Base.{Bool, true, false, [], ◌∷◌, ◌≡◌, ap}
use network_demo.Base.Text.{ℤ}
use network_demo.Rpc.Server.{done, server_stops, thread_joined, thread_starts}
use network_demo.Rpc.Server.Laws.{thrift_branch_lem}
use network_demo.Rpc.Echo.{ServerOptions}
use network_demo.Programs.Options.{thrift, ok}
use network_demo.Programs.Server.{
  ServerArgs, ServerPlan, server_plan, thrift_served, server_main, planned, dispatch,
}

-- Over Thrift, whatever the options are, the program tells its server to stop as the first thing
-- after it has started the thread of the server, and then waits for that thread.
server_main-stops :
    (starts : ℤ → ServerOptions → Bool) (added : Bool) (o : ServerArgs) (plan : ServerPlan)
    → server_plan o ≡ ok plan
    → plan.proto ≡ thrift
    → server_main starts added o
      ≡ thrift_served (
          done (record {
            server = false;
            thread = true;
            effects = thread_joined ∷ server_stops ∷ thread_starts true ∷ [];
          }))
unfolding server_main planned dispatch
server_main-stops starts added o plan e p = rw (e, p) (ap thrift_served thrift_branch_lem)
