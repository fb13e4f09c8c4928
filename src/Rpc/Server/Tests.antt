-- ===== src/Rpc/Server/Tests.antt =====
-- A server that is stopped by hand, and the one of the server program.
use network_demo.Base.{false, [], ◌∷◌, ◌≡◌}
use network_demo.Rpc.Server.{call_stop, call_async_run, life}
use network_demo.Rpc.Server.Laws.{is_fault, empties, life_faults}

life_faults_example :
    is_fault (life (call_async_run ∷ call_stop ∷ []))
    ≡ empties false (call_async_run ∷ call_stop ∷ [])
life_faults_example = life_faults (call_async_run ∷ call_stop ∷ [])
