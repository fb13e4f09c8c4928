-- ===== src/Rpc/Session/Tests.antt =====
-- A client over a transport that is its own open flag.
use network_demo.Base.{ℕ, Bool, true, false, List, none, ◌≡◌, refl}
use network_demo.Base.Text.{codes}
use network_demo.Rpc.Session.{
  returned, thrown, Remote, remote_time, send, remote_time_error, send_error, closed, asked, opened,
}
use network_demo.Rpc.Session.Laws.{Lawful, Ends, calls_end}

-- A server that tells the time and then breaks.
abbrev flag : Remote Bool
flag = record {
  open_ = λ s. (true, none);
  close = λ s. (false, none);
  ask_time = λ s. (s, returned 7);
  ask_data = λ s. (s, thrown (codes "EAGAIN"));
}

abbrev is_open : Bool → Bool
is_open s = s

flag-Lawful : Lawful flag is_open
flag-Lawful = record {
  open_opens = λ s e. refl;
  close_closes = λ s e. refl;
  ask_time_keeps = λ s. refl;
  ask_data_keeps = λ s. refl;
}

remote_time-flag : remote_time flag true ≡ (false, returned 7)
unfolding remote_time opened asked closed
remote_time-flag = refl

send-flag :
    send flag false ≡ (true, thrown (codes "[Example-ThriftRPC] send(String&) Error: EAGAIN"))
unfolding send opened asked closed
send-flag = refl

calls_end_example :
    Ends flag is_open ℕ remote_time_error (λ s1. flag.ask_time s1) true (remote_time flag true)
    × Ends flag is_open (List ℕ) send_error (λ s1. flag.ask_data s1) true (send flag true)
calls_end_example = calls_end flag is_open flag-Lawful true
