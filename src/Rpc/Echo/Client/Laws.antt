-- ===== src/Rpc/Echo/Client/Laws.antt =====
-- When `bRPCClient` comes to its return, and what it has done by then.
use network_demo.Base.{
  and_split, ℕ, zero, suc, ◌+◌, ◌*◌, ◌<◌, ◌≡◌, Bool, true, false, not, some, ◌&&◌, List, [], ◌∷◌,
  ◌++◌, refl, arith, ap, ◌∙◌, Bool-cases, inl, inr, sym,
}
use network_demo.Base.Text.{ℤ, pos, negsuc}
use network_demo.Base.Bytes.{resize}
use network_demo.Rpc.Echo.Client.{
  ClientArgs, World, Event, started, joined, Globals, ClientEnd, client_exits, resize_throws,
  still_waits, client_returns, wait_loop, channel_options, told, join_threads, start_threads,
  positive, magnitude, run_threads, started_dummy, sized, brpc_client,
}

and_true : (b : Bool) → (b && true) ≡ b
and_true true = refl
and_true false = refl

and_assoc : (a b c : Bool) → ((a && b) && c) ≡ (a && (b && c))
and_assoc true b c = refl
and_assoc false b c = refl

-- Whether the first `n` hold.
abbrev pub every : (ℕ → Bool) → ℕ → Bool
every test zero = true
every test (suc n) = every test n && test n

-- The events of the threads 0 to `n - 1`, the last in front.
abbrev pub of_threads : (ℕ → Event) → ℕ → List Event
of_threads event zero = []
of_threads event (suc n) = event n ∷ of_threads event n

-- There is room for all threads, they can be started, and there is not a negative number of them.
abbrev pub startable : World → Bool → ℤ → Bool
startable w use_bthread (pos n) = w.allocates (n * 8) && every (λ i. w.creates use_bthread i) n
startable w use_bthread (negsuc n) = false

abbrev pub is_positive : ℤ → Bool
is_positive (pos zero) = false
is_positive (pos (suc n)) = true
is_positive (negsuc n) = false

-- The attachment can be resized, if it is.
abbrev pub attachable : World → ℤ → Bool
attachable w size = not (is_positive size && not (w.allocates (magnitude size)))

abbrev pub ready : World → ClientArgs → Bool
ready w args =
    w.inits args.server args.load_balancer (channel_options args)
    && (attachable w args.attachment_size
        && (is_positive args.request_size
            && (w.allocates (magnitude args.request_size)
                && startable w args.use_bthread args.thread_num)))

abbrev pub is_return : ClientEnd → Bool
is_return (client_exits status logged g) = false
is_return (resize_throws g) = false
is_return (still_waits g) = false
is_return (client_returns seconds g) = true

every_from : (ℕ → Bool) → (left i : ℕ) → Bool
every_from test zero i = true
every_from test (suc left) i = test i && every_from test left (suc i)

every-split :
    (test : ℕ → Bool) (left i : ℕ)
    → every test (i + left) ≡ (every test i && every_from test left i)
unfolding every_from
every-split test zero i = let e : i + zero ≡ i = omega arith in rw e (sym (and_true (every test i)))
every-split test (suc left) i =
    let e : i + suc left ≡ suc i + left = omega arith in
    rw e (
      every-split test left (suc i)
      ∙ and_assoc (every test i) (test i) (every_from test left (suc i)))

start_threads_all :
    (w : World) (left i : ℕ) (use_bthread : Bool) (g : Globals)
    → (start_threads w left i use_bthread g).1 ≡ every_from (λ j. w.creates use_bthread j) left i
unfolding start_threads every_from
start_threads_all w zero i use_bthread g = refl
start_threads_all w (suc left) i use_bthread g = elim (Bool-cases (w.creates use_bthread i)) [
  | inl on ↦ rw on (start_threads_all w left (suc i) use_bthread (told (started use_bthread i) g))
  | inr off ↦ rw off refl
]

-- Some text and events on the globals.
abbrev with_events : Globals → List Event → Globals
with_events g es = record g { events = es }

start_threads_events :
    (w : World) (left i : ℕ) (use_bthread : Bool) (g : Globals) (base : List Event)
    → every_from (λ j. w.creates use_bthread j) left i ≡ true
    → (start_threads w left i use_bthread
        (with_events g (of_threads (λ j. started use_bthread j) i ++ base))).0
      ≡ with_events g (of_threads (λ j. started use_bthread j) (i + left) ++ base)
unfolding start_threads every_from told
start_threads_events w zero i use_bthread g base all =
    let e : i + zero ≡ i = omega arith in rw e refl
start_threads_events w (suc left) i use_bthread g base all =
    let e : i + suc left ≡ suc i + left = omega arith in
    let both =
      and_split (w.creates use_bthread i) (every_from (λ j. w.creates use_bthread j) left (suc i))
        all in
    rw (both.0, e) (start_threads_events w left (suc i) use_bthread g base both.1)

join_threads_events :
    (left i : ℕ) (use_bthread : Bool) (g : Globals) (base : List Event)
    → join_threads left i use_bthread
        (with_events g (of_threads (λ j. joined use_bthread j) i ++ base))
      ≡ with_events g (of_threads (λ j. joined use_bthread j) (i + left) ++ base)
unfolding join_threads told
join_threads_events zero i use_bthread g base = let e : i + zero ≡ i = omega arith in rw e refl
join_threads_events (suc left) i use_bthread g base =
    let e : i + suc left ≡ suc i + left = omega arith in
    rw e (join_threads_events left (suc i) use_bthread g base)

every_from_0 : (test : ℕ → Bool) (n : ℕ) → every_from test n 0 ≡ every test n
every_from_0 test n = let e : 0 + n ≡ n = omega arith in sym (every-split test n 0) ∙ rw e refl

-- The globals when the threads are about to start.
abbrev pub prepared : ClientArgs → Globals → Globals
prepared args g = started_dummy args.dummy_port (record g {
  g_attachment =
      sized (positive args.attachment_size) (magnitude args.attachment_size) b'a' g.g_attachment;
  g_request = resize (magnitude args.request_size) b'r' g.g_request;
})

positive_lem : (z : ℤ) → positive z ≡ is_positive z
unfolding positive
positive_lem (pos zero) = refl
positive_lem (pos (suc n)) = refl
positive_lem (negsuc n) = refl

denied : (b : Bool) → not b ≡ true → b ≡ false
denied true e = absurd (cc)
denied false e = refl

undenied : (b : Bool) → not b ≡ false → b ≡ true
undenied true e = refl
undenied false e = absurd (cc)

-- The loop comes to the first test at which the program is asked to quit.
wait_loop_lem :
    (left fuel k n : ℕ) (quits : ℕ → Bool)
    → k + left ≡ n
    → left < fuel
    → quits n ≡ true
    → ((i : ℕ) → i < n → quits i ≡ false)
    → wait_loop fuel quits k ≡ some n
unfolding wait_loop
wait_loop_lem left zero k n quits sum lt q before = absurd (omega arith)
wait_loop_lem zero (suc fuel) k n quits sum lt q before =
    let e : n ≡ k = omega arith in rw (rw e at q) (ap some (sym e))
wait_loop_lem (suc left) (suc fuel) k n quits sum lt q before =
    rw (before k (omega arith))
      (wait_loop_lem left fuel (suc k) n quits (omega arith) (omega arith) q before)

run_threads_all :
    (w : World) (use_bthread : Bool) (n seconds : ℕ) (g : Globals)
    → w.allocates (n * 8) ≡ true
    → every (λ i. w.creates use_bthread i) n ≡ true
    → wait_loop w.rounds w.quits 0 ≡ some seconds
    → run_threads w use_bthread (pos n) g
      ≡ client_returns seconds (
          with_events g (
            of_threads (λ j. joined use_bthread j) n
            ++ (of_threads (λ j. started use_bthread j) n ++ g.events)))
unfolding run_threads
run_threads_all w use_bthread n seconds g room all waited =
    let all0 = every_from_0 (λ i. w.creates use_bthread i) n ∙ all in
    let e : 0 + n ≡ n = omega arith in
    let starts = start_threads_events w n 0 use_bthread g g.events all0 in
    let joins =
      join_threads_events n 0 use_bthread g
        (of_threads (λ j. started use_bthread j) n ++ g.events) in
    rw (room, start_threads_all w n 0 use_bthread g, all0, waited)
      (ap (client_returns seconds)
        (ap (λ x. join_threads n 0 use_bthread x) (rw e at starts) ∙ rw e at joins))

run_threads_return :
    (w : World) (use_bthread : Bool) (z : ℤ) (seconds : ℕ) (g : Globals)
    → wait_loop w.rounds w.quits 0 ≡ some seconds
    → is_return (run_threads w use_bthread z g) ≡ startable w use_bthread z
unfolding run_threads
run_threads_return w use_bthread (negsuc n) seconds g waited = refl
run_threads_return w use_bthread (pos n) seconds g waited =
    let starts =
      start_threads_all w n 0 use_bthread g ∙ every_from_0 (λ i. w.creates use_bthread i) n in
    elim (Bool-cases (w.allocates (n * 8))) [
      | inr full ↦ rw full refl
      | inl room ↦ elim (Bool-cases (every (λ i. w.creates use_bthread i) n)) [
        | inl all ↦ rw (room, starts, all, waited) refl
        | inr some_off ↦ rw (room, starts, some_off) refl
      ]
    ]

module _ (w : World) (args : ClientArgs) (g : Globals) where
  -- Without a positive size it does not return.
  pub is_return-unready :
      is_positive args.request_size ≡ false → is_return (brpc_client w args g) ≡ false
  unfolding brpc_client
  is_return-unready bad =
      elim (Bool-cases (w.inits args.server args.load_balancer (channel_options args))) [
        | inr off ↦ rw off refl
        | inl on ↦ elim (Bool-cases (attachable w args.attachment_size)) [
          | inr full ↦ rw (on, positive_lem args.attachment_size, undenied _ full) refl
          | inl room ↦
              rw
                (
                  on,
                  positive_lem args.attachment_size,
                  denied _ room,
                  positive_lem args.request_size,
                  bad,
                )
                refl
        ]
      ]

  module _ (seconds : ℕ) (waited : wait_loop w.rounds w.quits 0 ≡ some seconds) where
    is_return-brpc_client : is_return (brpc_client w args g) ≡ ready w args
    unfolding brpc_client
    is_return-brpc_client =
        elim (Bool-cases (w.inits args.server args.load_balancer (channel_options args))) [
          | inr off ↦ rw off refl
          | inl on ↦ elim (Bool-cases (attachable w args.attachment_size)) [
            | inr full ↦ rw (on, positive_lem args.attachment_size, undenied _ full) refl
            | inl room ↦
                rw
                  (
                    on,
                    positive_lem args.attachment_size,
                    denied _ room,
                    positive_lem args.request_size,
                  )
                  (elim (Bool-cases (is_positive args.request_size)) [
                    | inr bad ↦ rw bad refl
                    | inl good ↦ elim (Bool-cases (w.allocates (magnitude args.request_size))) [
                      | inr full ↦ rw (good, full) refl
                      | inl fits ↦
                          rw (good, fits)
                            (run_threads_return w args.use_bthread args.thread_num seconds
                              (prepared args g) waited)
                    ]
                  ])
          ]
        ]

    brpc_client-ready :
        (n : ℕ)
        → ready w args ≡ true
        → args.thread_num ≡ pos n
        → brpc_client w args g
          ≡ client_returns seconds (record (prepared args g) {
            events =
                of_threads (λ i. joined args.use_bthread i) n
                ++ (of_threads (λ i. started args.use_bthread i) n ++ (prepared args g).events);
          })
    unfolding brpc_client
    brpc_client-ready n all e =
        let starts = startable w args.use_bthread args.thread_num in
        let sized_ = w.allocates (magnitude args.request_size) in
        let good_ = is_positive args.request_size in
        let (on, all1) =
          and_split (w.inits args.server args.load_balancer (channel_options args))
            (attachable w args.attachment_size && (good_ && (sized_ && starts))) all in
        let (room, all2) =
          and_split (attachable w args.attachment_size) (good_ && (sized_ && starts)) all1 in
        let (good, all3) = and_split good_ (sized_ && starts) all2 in
        let (fits, all4) = and_split sized_ starts all3 in
        let (held, every_one) =
          and_split (w.allocates (n * 8)) (every (λ i. w.creates args.use_bthread i) n)
            (rw e at all4) in
        rw
          (
            on,
            positive_lem args.attachment_size,
            denied _ room,
            positive_lem args.request_size,
            good,
            fits,
            e,
          )
          (run_threads_all w args.use_bthread n seconds (prepared args g) held every_one waited)

  -- Where the program is asked to quit first at the test `seconds` of the loop that waits for it,
  -- `bRPCClient` returns exactly if the channel is set up, the request size is positive, the number of
  -- threads is not negative, the strings and the vector of threads can be resized and every thread can
  -- be started; otherwise it exits or throws. When it returns, it has slept so many seconds, the
  -- request and the attachment are filled, and every thread from 0 on was started once, in order, and
  -- then joined once, in order.
  pub brpc_client_lem :
      (seconds : ℕ)
      → seconds < w.rounds
      → w.quits seconds ≡ true
      → ((i : ℕ) → i < seconds → w.quits i ≡ false)
      → (is_return (brpc_client w args g) ≡ ready w args)
        × ((n : ℕ)
            → ready w args ≡ true
            → args.thread_num ≡ pos n
            → brpc_client w args g
              ≡ client_returns seconds (record (prepared args g) {
                events =
                    of_threads (λ i. joined args.use_bthread i) n
                    ++ (of_threads (λ i. started args.use_bthread i) n ++ (prepared args g).events);
              }))
  brpc_client_lem seconds lt asked before =
      let waited = wait_loop_lem seconds w.rounds 0 seconds w.quits (omega arith) lt asked before in
      (is_return-brpc_client seconds waited, λ n all e. brpc_client-ready seconds waited n all e)
