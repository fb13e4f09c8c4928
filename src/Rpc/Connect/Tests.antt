-- ===== src/Rpc/Connect/Tests.antt =====
-- A server that answers at the third open.
use network_demo.Base.{ℕ, ◌+◌, ◌*◌, ◌<◌, ◌≡◌, ◌⊎◌, Bool, false, leb, refl}
use network_demo.Rpc.Connect.{connected, refused, connect, connect_loop}
use network_demo.Rpc.Connect.Laws.{IsFirst, connect_lem}

abbrev third : ℕ → Bool
third k = leb 2 k

connect-third : connect third ≡ connected 2 300
unfolding connect connect_loop
connect-third = refl

connect_lem_example :
    ((n : ℕ) × (n < 1000) × IsFirst third n × (connect third ≡ connected n (100 * (n + 1))))
    ⊎ (((m : ℕ) → m < 1000 → third m ≡ false) × (connect third ≡ refused 1000 (100 * 999)))
connect_lem_example = connect_lem third
