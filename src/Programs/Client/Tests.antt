-- ===== src/Programs/Client/Tests.antt =====
-- The client with its options, and over a transport that is its own open flag.
use network_demo.Base.{ℕ, ◌-◌, ◌^◌, ◌≡◌, ◌≢◌, Bool, true, false, List, [], none, some, refl, length}
use network_demo.Base.Text.{
  pos, codes, same_text, parse_integer, signed, skip_spaces, digits, to_integer,
}
use network_demo.StopWatch.{Timespec, nanoseconds}
use network_demo.Rpc.Session.{
  returned, Remote, handler_send, remote_time, send, opened, asked, closed,
}
use network_demo.Rpc.Session.Laws.{Lawful}
use network_demo.Programs.Options.{
  brpc, info, ok, ◌and_then◌, set_level, proto_of, number_of, text_of, get_proto,
}
use network_demo.Programs.Client.{
  ClientOptions, ClientPlan, client_plan, Outside, read_stamp, thrift_client, time_block,
  data_block, data_end, terminated,
}
use network_demo.Programs.Client.Laws.{read_stamp-handler_send, thrift_client-closes}

abbrev noon : Timespec
noon = record { tv_sec = 43200; tv_nsec = 7 }

read_stamp-handler_send_example :
    (read_stamp (handler_send noon (codes "old")) ≡ some (nanoseconds noon))
    × (length (handler_send noon (codes "old")) ≡ 2 ^ 31 - 1)
read_stamp-handler_send_example = read_stamp-handler_send noon (codes "old")

abbrev flag : Remote Bool
flag = record {
  open_ = λ s. (true, none);
  close = λ s. (false, none);
  ask_time = λ s. (s, returned 7);
  ask_data = λ s. (s, returned (codes "12345678"));
}

abbrev is_open : Bool → Bool
is_open s = s

flag-Lawful : Lawful flag is_open
flag-Lawful = record {
  open_opens = λ s e. refl;
  close_closes = λ s e. refl;
  ask_time_keeps = λ s. refl;
  ask_data_keeps = λ s. refl;
}

abbrev options : ClientOptions
options = record {
  log_level = none;
  host = none;
  port = some (codes "8000");
  proto = some (codes "brpc");
  attachment = none;
  request_size = none;
  use_bthread = true;
  thread_num = none;
}

abbrev plan : ClientPlan
plan = record {
  level = info;
  proto = brpc;
  host = codes "127.0.0.1";
  port = pos 8000;
  attachment = [];
  request_size = pos 0;
  use_bthread = true;
  thread_num = pos 1;
}

client_plan-options : client_plan options ≡ ok plan
unfolding client_plan ◌and_then◌ set_level proto_of number_of text_of get_proto same_text
    parse_integer signed skip_spaces digits to_integer
client_plan-options = refl

abbrev outside : Outside Bool
outside = record {
  opens = λ k. true;
  dialed = true;
  remote = flag;
  clock = λ i. noon;
  world = record {
    inits = λ server lb o. true;
    creates = λ use_bthread i. true;
    allocates = λ bytes. true;
    quits = λ k. true;
    rounds = 1;
  };
  globals = record { g_request = []; g_attachment = []; events = [] };
}

-- The exchange comes to its end.
thrift_client_ends : (text : List ℕ) → (thrift_client flag (λ i. noon) true).1 ≢ terminated text
unfolding thrift_client time_block data_block data_end read_stamp remote_time send opened asked
    closed
thrift_client_ends text e = cc

thrift_client-closes_example : is_open (thrift_client flag (λ i. noon) true).0 ≡ false
thrift_client-closes_example =
    thrift_client-closes flag is_open flag-Lawful (λ i. noon) true thrift_client_ends
