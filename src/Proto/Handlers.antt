-- ===== src/Proto/Handlers.antt =====
-- The handlers that come with the generated code (gen-cpp/TestProto.h): one that does nothing, and
-- one that passes each call on to several others.
pub mod Laws
use network_demo.Base.{ℕ, zero, suc, List, [], ◌∷◌, Option, none, some}
use network_demo.Base.Text.{ℤ, pos}
use network_demo.Proto.Processor.{Outcome, gives, throws}

-- A handler on a state `S`. `send` changes the text that it is given.
pub record Iface {ℓ} (S : Type ℓ) : Type ℓ where
  pub remote_time : S → S × Outcome ℤ
  pub send : List ℕ → S → S × Outcome (List ℕ)

abbrev pub null_iface {ℓ} : {S : Type ℓ} → Iface S
null_iface = record {
  remote_time = λ s. (s, gives (pos 0));
  send = λ _return s. (s, gives _return);
}

module _ {ℓ} {S : Type ℓ} where
  -- `none` is the access out of bounds when there are no handlers: `sz - 1` is then the largest size.
  unfoldable pub multi_remote_time : List (Iface S) → S → Option (S × Outcome ℤ)
  multi_remote_time [] s = none
  multi_remote_time (i ∷ []) s = some (i.remote_time s)
  multi_remote_time (i ∷ j ∷ rest) s =
      let out = i.remote_time s in
      elim (out.1) [
        | gives n ↦ multi_remote_time (j ∷ rest) out.0
        | throws what ↦ some (out.0, throws what)
      ]

  unfoldable pub multi_send : List (Iface S) → List ℕ → S → Option (S × Outcome (List ℕ))
  multi_send [] _return s = none
  multi_send (i ∷ []) _return s = some (i.send _return s)
  multi_send (i ∷ j ∷ rest) _return s =
      let out = i.send _return s in
      elim (out.1) [
        | gives text ↦ multi_send (j ∷ rest) text out.0
        | throws what ↦ some (out.0, throws what)
      ]
