-- ===== src/Rpc/Echo/Laws.antt =====
-- What a sender thread has done when it returns.
use network_demo.Base.{
  ℕ, zero, suc, ◌+◌, ◌*◌, ◌≤◌, ◌<◌, ◌≡◌, Bool, true, false, ◌==◌, ◌-◌, ◌^◌, List, [], ◌∷◌, refl,
  arith, length,
}
use network_demo.Rpc.Echo.{
  EchoRequest, Reply, replied, failed, Tally, no_tally, sender_returned, Outside, received,
  send_request, sender_loop, sender,
}

-- The requests 0 to `n - 1`, the last in front.
pub requests : List ℕ → List ℕ → ℕ → List EchoRequest
requests message attachment zero = []
requests message attachment (suc n) =
    record { message = message; attachment = attachment; log_id = n }
    ∷ requests message attachment n

-- What holds after `n` rounds.
pub record Tallied (message attachment : List ℕ) (n : ℕ) (t : Tally) : Type 0 where
  pub all_sent : t.sent ≡ requests message attachment n
  pub all_back : t.errors + length t.latencies ≡ n
  pub all_slept : t.slept ≡ 50000 * t.errors

abbrev one_round : List ℕ → List ℕ → ℕ → Tally → Reply → Tally × Bool
one_round message attachment n t r = received false (send_request message attachment n t) r

received-go_on :
    (message attachment : List ℕ) (n : ℕ) (t : Tally) (r : Reply)
    → (one_round message attachment n t r).1 ≡ true
unfolding received send_request
received-go_on message attachment n t (replied latency_us) = refl
received-go_on message attachment n t (failed true) = refl
received-go_on message attachment n t (failed false) = refl

received-Tallied :
    (message attachment : List ℕ) (n : ℕ) (t : Tally) (r : Reply)
    → Tallied message attachment n t
    → Tallied message attachment (suc n) (one_round message attachment n t r).0
unfolding received send_request requests
received-Tallied message attachment n t (replied latency_us) inv = record {
  all_sent = rw inv.all_sent refl;
  all_back = omega (arith, inv.all_back);
  all_slept = inv.all_slept;
}
received-Tallied message attachment n t (failed true) inv = record {
  all_sent = rw inv.all_sent refl;
  all_back = omega (arith, inv.all_back);
  all_slept = omega (arith, inv.all_slept);
}
received-Tallied message attachment n t (failed false) inv = record {
  all_sent = rw inv.all_sent refl;
  all_back = omega (arith, inv.all_back);
  all_slept = omega (arith, inv.all_slept);
}

-- The result after `left` more rounds.
sender_loop-Tallied :
    (left fuel : ℕ) (outside : Outside) (message attachment : List ℕ) (k n : ℕ) (t : Tally)
    → k + left ≡ n
    → left < fuel
    → n < 2 ^ 31
    → outside.quits n ≡ true
    → ((i : ℕ) → k ≤ i → i < n → outside.quits i ≡ false)
    → Tallied message attachment k t
    → (t' : Tally) × (sender_loop fuel outside false message attachment k t ≡ sender_returned t')
      × Tallied message attachment n t'
unfolding sender_loop
sender_loop-Tallied left zero outside message attachment k n t sum lt small q before inv =
    absurd (omega arith)
sender_loop-Tallied zero (suc fuel) outside message attachment k n t sum lt small q before inv =
    let e : n ≡ k = omega arith in (t, rw (rw e at q) refl, rw e inv)
sender_loop-Tallied (suc left) (suc fuel) outside message attachment k n t sum lt small q before
      inv =
    let r = outside.reply k in
    let (t', ends, inv') =
      sender_loop-Tallied left fuel outside message attachment (suc k) n
        (one_round message attachment k t r).0 (omega arith) (omega arith) small q
        (λ i lo hi. before i (omega arith) hi) (received-Tallied message attachment k t r inv) in
    let on = received-go_on message attachment k t r in
    let room : (k == 2 ^ 31 - 1) ≡ false = ground arith in
    (t', rw (before k (omega arith) (omega arith), room, on) ends, inv')

-- A sender that is first asked to quit when it tests for the `n`th time returns: it has sent the
-- requests with the numbers 0 to `n - 1`, each has come back or is counted as an error, and it has
-- slept 50 ms for each error: for `n` below 2^31, as `log_id` is an `int`, and with `dont_fail` false,
-- as the program has it, which never sets it.
pub sender_lem :
    (n fuel : ℕ) (outside : Outside) (message attachment : List ℕ)
    → n < fuel
    → n < 2 ^ 31
    → outside.quits n ≡ true
    → ((i : ℕ) → i < n → outside.quits i ≡ false)
    → (t : Tally) × (sender fuel outside false message attachment ≡ sender_returned t)
      × Tallied message attachment n t
unfolding sender requests
sender_lem n fuel outside message attachment lt small q before =
    sender_loop-Tallied n fuel outside message attachment 0 n no_tally (omega arith) lt small q
      (λ i lo hi. before i hi) (record { all_sent = refl; all_back = refl; all_slept = refl })
