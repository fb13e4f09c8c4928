-- ===== src/Rpc/Echo/Tests.antt =====
-- A service, a sender with one reply and one error, and a client with two threads.
use network_demo.Base.{ℕ, zero, suc, ◌≡◌, true, false, ltb, leb, [], ◌∷◌, ◌++◌, none, refl, arith}
use network_demo.Base.Text.{ℤ, pos, negsuc, codes}
use network_demo.Rpc.Echo.{
  echo, iobuf2str, Reply, replied, failed, Tally, sender_returned, Outside, sender,
}
use network_demo.Rpc.Echo.Laws.{Tallied, sender_lem}
use network_demo.Rpc.Echo.Client.{
  ClientArgs, World, Globals, client_returns, started, joined, brpc_client,
}
use network_demo.Rpc.Echo.Client.Laws.{is_return, ready, prepared, of_threads, brpc_client_lem}

-- Without `is_response` the required field of the answer stays empty.
echo_silent :
    (echo
      (record { attachment = true; is_response = false })
      (record { request_attachment = codes "ab"; response_attachment = [] })
      (codes "hello")
      (record { message = none })).1
    ≡ record { message = none }
unfolding echo
echo_silent = refl

iobuf2str_two : iobuf2str (codes "ab" ∷ codes "c" ∷ []) ≡ codes "abc"
unfolding iobuf2str
iobuf2str_two = refl

reply_at : ℕ → Reply
reply_at zero = replied 120
reply_at (suc n) = failed false

abbrev outside : Outside
outside = record { quits = leb 2; reply = reply_at }

sender_lem_example :
    (t : Tally) × (sender 5 outside false (codes "rr") [] ≡ sender_returned t)
    × Tallied (codes "rr") [] 2 t
sender_lem_example =
    sender_lem 2 5 outside (codes "rr") [] (omega arith) (omega arith) refl (λ i lt. ground arith)

abbrev args : ℤ → ClientArgs
args request_size = record {
  server = codes "127.0.0.1:38888";
  attachment = [];
  protocol = codes "baidu_std";
  connection_type = [];
  load_balancer = [];
  timeout_ms = 100;
  max_retry = 3;
  interval_ms = 1000;
  enable_ssl = false;
  attachment_size = pos 0;
  request_size = request_size;
  dummy_port = negsuc 0;
  use_bthread = false;
  thread_num = pos 2;
}

abbrev world : World
world = record {
  inits = λ server lb options. true;
  allocates = λ bytes. ltb bytes 1000;
  creates = λ use_bthread i. ltb i 4;
  quits = leb 3;
  rounds = 10;
}

abbrev globals : Globals
globals = record { g_request = []; g_attachment = []; events = [] }

brpc_client_lem_example :
    (is_return (brpc_client world (args (pos 3)) globals) ≡ ready world (args (pos 3)))
    × ((n : ℕ)
        → ready world (args (pos 3)) ≡ true
        → (args (pos 3)).thread_num ≡ pos n
        → brpc_client world (args (pos 3)) globals
          ≡ client_returns 3 (record (prepared (args (pos 3)) globals) {
            events =
                of_threads (λ i. joined false i) n
                ++ (of_threads (λ i. started false i) n
                    ++ (prepared (args (pos 3)) globals).events);
          }))
brpc_client_lem_example =
    brpc_client_lem world (args (pos 3)) globals 3 (omega arith) refl (λ i lt. ground arith)
