-- ===== src/Proto/Handlers/Laws.antt =====
-- Two groups of handlers in one `TestProtoMultiface`.
use network_demo.Base.{ℕ, ◌≡◌, refl, List, [], ◌∷◌, ◌++◌, Option, none, some, ◌⊎◌, inl, inr, sym}
use network_demo.Proto.Processor.{Outcome, gives, throws}
use network_demo.Proto.Handlers.{Iface, multi_send}

Outcome-cases :
    (o : Outcome (List ℕ))
    → ((text : List ℕ) × (o ≡ gives text)) ⊎ ((what : List ℕ) × (o ≡ throws what))
Outcome-cases (gives text) = inl (text, refl)
Outcome-cases (throws what) = inr (what, refl)

module _ {ℓ} {S : Type ℓ} where
  -- What follows a group of handlers: the next group, if no handler of the first has thrown.
  unfoldable pub next_send :
      (List ℕ → S → Option (S × Outcome (List ℕ)))
      → Option (S × Outcome (List ℕ))
      → Option (S × Outcome (List ℕ))
  next_send onward none = none
  next_send onward (some (s, gives text)) = onward text s
  next_send onward (some (s, throws what)) = some (s, throws what)

  next_send_lem :
      (onward : List ℕ → S → Option (S × Outcome (List ℕ))) (out : S × Outcome (List ℕ))
      → next_send onward (some out)
        ≡ elim (out.1) [ gives text ↦ onward text out.0 | throws what ↦ some (out.0, throws what) ]
  unfolding next_send
  next_send_lem onward (s, gives text) = refl
  next_send_lem onward (s, throws what) = refl

  -- `send` of two groups of handlers is `send` of the first and then, on the text and the state that
  -- it leaves, `send` of the second.
  multi_send-append :
      (i : Iface S) (is : List (Iface S)) (j : Iface S) (js : List (Iface S)) (text : List ℕ)
      (s : S)
      → multi_send ((i ∷ is) ++ (j ∷ js)) text s
        ≡ next_send (multi_send (j ∷ js)) (multi_send (i ∷ is) text s)
  unfolding multi_send next_send
  multi_send-append i [] j js text s = sym (next_send_lem (multi_send (j ∷ js)) (i.send text s))
  multi_send-append i (k ∷ is) j js text s = elim (Outcome-cases (i.send text s).1) [
    | inl (t, e) ↦ rw (multi_send, e) (multi_send-append k is j js t (i.send text s).0)
    | inr (what, e) ↦ rw (multi_send, e) refl
  ]
