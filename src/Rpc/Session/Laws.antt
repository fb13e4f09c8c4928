-- ===== src/Rpc/Session/Laws.antt =====
-- How a call over the transport ends, and what the server's text holds.
use network_demo.Base.{
  ℕ, ◌-◌, ◌≤◌, ◌^◌, ◌≡◌, Bool, true, false, List, ◌++◌, Option, none, some, refl, arith, ◌∙◌, ap,
  sym, length,
}
use network_demo.Base.Bytes.{
  resize, little_endian, overwrite, front, length-resize, length-little_endian, length-overwrite,
  front-overwrite,
}
use network_demo.StopWatch.{Timespec, nanoseconds}
use network_demo.Rpc.Session.{
  handler_send, data_size, Answer, returned, thrown, Remote, remote_time, send, remote_time_error,
  send_error, closed, asked, opened,
}

-- What the libraries document: `open` opens the transport or throws, `close` closes it, and a
-- request leaves it as it is.
pub record Lawful {ℓ} {S : Type ℓ} (r : Remote S) (is_open : S → Bool) : Type ℓ where
  pub open_opens : (s : S) → (r.open_ s).1 ≡ none → is_open (r.open_ s).0 ≡ true
  pub close_closes : (s : S) → (r.close s).1 ≡ none → is_open (r.close s).0 ≡ false
  pub ask_time_keeps : (s : S) → is_open (r.ask_time s).0 ≡ is_open s
  pub ask_data_keeps : (s : S) → is_open (r.ask_data s).0 ≡ is_open s

module _ {ℓ} {S : Type ℓ} (r : Remote S) (is_open : S → Bool) where
  -- A call that returns has closed the transport; a call that throws adds its own name to a text;
  -- and where the request itself throws, the transport stays open and that text is thrown.
  abbrev pub Ends : (A : Type ℓ) → List ℕ → (S → S × Answer A) → S → S × Answer A → Type ℓ
  Ends A error ask s out =
      ((a : A) → out.1 ≡ returned a → is_open out.0 ≡ false)
      × ((text : List ℕ) → out.1 ≡ thrown text → (what : List ℕ) × (text ≡ error ++ what))
      × ((r.open_ s).1 ≡ none
          → (what : List ℕ) → (ask (r.open_ s).0).1 ≡ thrown what
          → (is_open out.0 ≡ true) × (out.1 ≡ thrown (error ++ what)))

  -- Its first two parts.
  abbrev Post : (A : Type ℓ) → List ℕ → S × Answer A → Type ℓ
  Post A error out =
      ((a : A) → out.1 ≡ returned a → is_open out.0 ≡ false)
      × ((text : List ℕ) → out.1 ≡ thrown text → (what : List ℕ) × (text ≡ error ++ what))

  thrown_Post :
      (A : Type ℓ) (error : List ℕ) (s : S) (what : List ℕ)
      → Post A error (s, thrown (error ++ what))
  thrown_Post A error s what = (λ a e. absurd (cc), λ text e. (what, cc))

  module _ (lawful : Lawful r is_open) {A : Type ℓ} (error : List ℕ) where
    closed-Post :
        (a : A) (p : S × Option (List ℕ))
        → (p.1 ≡ none → is_open p.0 ≡ false)
        → Post A error (closed error a p)
    unfolding closed
    closed-Post a (s, none) h = (λ x e. h refl, λ text e. absurd (cc))
    closed-Post a (s, some what) h = thrown_Post A error s what

    asked-Post : (q : S × Answer A) → Post A error (asked r error q)
    unfolding asked
    asked-Post (s, returned a) = closed-Post a (r.close s) (lawful.close_closes s)
    asked-Post (s, thrown what) = thrown_Post A error s what

    opened-Post :
        (ask : S → S × Answer A) (o : S × Option (List ℕ)) → Post A error (opened r error ask o)
    unfolding opened
    opened-Post ask (s, none) = asked-Post (ask s)
    opened-Post ask (s, some what) = thrown_Post A error s what

    asked_thrown :
        (q : S × Answer A) (what : List ℕ)
        → is_open q.0 ≡ true
        → q.1 ≡ thrown what
        → (is_open (asked r error q).0 ≡ true) × ((asked r error q).1 ≡ thrown (error ++ what))
    unfolding asked
    asked_thrown (s, returned a) what open_ e = absurd (cc)
    asked_thrown (s, thrown text) what open_ e = (open_, cc)

    opened_thrown :
        (ask : S → S × Answer A) (o : S × Option (List ℕ)) (what : List ℕ)
        → is_open (ask o.0).0 ≡ is_open o.0
        → (o.1 ≡ none → is_open o.0 ≡ true)
        → o.1 ≡ none
        → (ask o.0).1 ≡ thrown what
        → (is_open (opened r error ask o).0 ≡ true)
          × ((opened r error ask o).1 ≡ thrown (error ++ what))
    unfolding opened
    opened_thrown ask (s, none) what keeps opens ok e =
        asked_thrown (ask s) what (keeps ∙ opens refl) e
    opened_thrown ask (s, some text) what keeps opens ok e = absurd (cc)

    opened-Ends :
        (ask : S → S × Answer A)
        → ((s : S) → is_open (ask s).0 ≡ is_open s)
        → (s : S) → Ends A error ask s (opened r error ask (r.open_ s))
    opened-Ends ask keeps s =
        let post = opened-Post ask (r.open_ s) in
        (
          post.0,
          post.1,
          λ ok what e.
              opened_thrown ask (r.open_ s) what (keeps (r.open_ s).0) (lawful.open_opens s) ok e,
        )

-- A call of `remoteTime` or `send` that returns has closed the transport; one that throws adds its
-- name to the text of the library; and where the request throws, the transport stays open, if the
-- library opens and closes the transport as it says.
pub calls_end :
    {S : Type 0} (r : Remote S) (is_open : S → Bool)
    → Lawful r is_open
    → (s : S)
    → Ends r is_open ℕ remote_time_error (λ s1. r.ask_time s1) s (remote_time r s)
      × Ends r is_open (List ℕ) send_error (λ s1. r.ask_data s1) s (send r s)
unfolding remote_time send
calls_end r is_open lawful s = (
  opened-Ends r is_open lawful remote_time_error (λ s1. r.ask_time s1) lawful.ask_time_keeps s,
  opened-Ends r is_open lawful send_error (λ s1. r.ask_data s1) lawful.ask_data_keeps s,
)

pub length-handler_send :
    (now : Timespec) (text : List ℕ) → length (handler_send now text) ≡ 2 ^ 31 - 1
unfolding handler_send
length-handler_send now text =
    length-overwrite (little_endian 8 (nanoseconds now)) (resize data_size 0 text)
    ∙ length-resize data_size 0 text

pub front-handler_send :
    (now : Timespec) (text : List ℕ)
    → front 8 (handler_send now text) ≡ little_endian 8 (nanoseconds now)
unfolding handler_send
front-handler_send now text =
    let stamp = little_endian 8 (nanoseconds now) in
    let eight : length stamp ≡ 8 = length-little_endian 8 (nanoseconds now) in
    let size : length (resize data_size 0 text) ≡ data_size = length-resize data_size 0 text in
    let fits : length stamp ≤ length (resize data_size 0 text) = omega (arith, eight, size) in
    ap (λ n. front n (overwrite stamp (resize data_size 0 text))) (sym eight)
    ∙ front-overwrite stamp (resize data_size 0 text) fits
