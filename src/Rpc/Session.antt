-- ===== src/Rpc/Session.antt =====
-- The calls of `TestProtoRPCClient` and the answers of `TestProtoHandler`
-- (src/Example-ThriftRPC/TestRPC.h). Transport and generated client are libraries: a record of
-- operations on their state.
pub mod Laws
mod Tests
use network_demo.Base.{ℕ, zero, suc, ◌-◌, ◌/◌, ◌%◌, ◌^◌, List, [], ◌∷◌, ◌++◌, Option, none, some}
use network_demo.Base.Text.{codes}
use network_demo.Base.Bytes.{resize, little_endian, overwrite}
use network_demo.StopWatch.{Timespec, nanoseconds}

-- What a call gives back, or the text that it throws.
pub data Answer {ℓ} (A : Type ℓ) : Type ℓ where
  returned : A → Answer A
  thrown : List ℕ → Answer A

-- The transport and the generated client on a state `S`; `none` is an operation that ends, `some`
-- has the `what()` of the `TException`.
pub record Remote {ℓ} (S : Type ℓ) : Type ℓ where
  pub open_ : S → S × Option (List ℕ)
  pub close : S → S × Option (List ℕ)
  pub ask_time : S → S × Answer ℕ
  pub ask_data : S → S × Answer (List ℕ)

abbrev pub remote_time_error : List ℕ
remote_time_error = codes "[Example-ThriftRPC] remoteTime() Error: "

abbrev pub send_error : List ℕ
send_error = codes "[Example-ThriftRPC] send(String&) Error: "

-- `catch (TException &tx)`: the text thrown again has a prefix.
unfoldable pub closed {ℓ ℓ'} :
    {S : Type ℓ} {A : Type ℓ'} → List ℕ → A → S × Option (List ℕ) → S × Answer A
closed error a (s, none) = (s, returned a)
closed error a (s, some what) = (s, thrown (error ++ what))

unfoldable pub asked {ℓ ℓ'} :
    {S : Type ℓ} {A : Type ℓ'} → Remote S → List ℕ → S × Answer A → S × Answer A
unfolding closed
asked r error (s, returned a) = closed error a (r.close s)
asked r error (s, thrown what) = (s, thrown (error ++ what))

unfoldable pub opened {ℓ ℓ'} :
    {S : Type ℓ} {A : Type ℓ'}
    → Remote S
    → List ℕ
    → (S → S × Answer A)
    → S × Option (List ℕ)
    → S × Answer A
unfolding asked
opened r error ask (s, none) = asked r error (ask s)
opened r error ask (s, some what) = (s, thrown (error ++ what))

module _ {ℓ} {S : Type ℓ} (r : Remote S) where
  unfoldable pub remote_time : S → S × Answer ℕ
  unfolding opened
  remote_time s = opened r remote_time_error (λ s1. r.ask_time s1) (r.open_ s)

  unfoldable pub send : S → S × Answer (List ℕ)
  unfolding opened
  send s = opened r send_error (λ s1. r.ask_data s1) (r.open_ s)

abbrev pub data_size : ℕ
data_size = 2 ^ 31 - 1

-- `TestProtoHandler::remoteTime`
pub handler_remote_time : Timespec → ℕ
unfolding nanoseconds
handler_remote_time now = nanoseconds now

-- `TestProtoHandler::send` on the text that it is to fill.
pub handler_send : Timespec → List ℕ → List ℕ
unfolding nanoseconds
handler_send now _return =
    overwrite (little_endian 8 (nanoseconds now)) (resize data_size 0 _return)
