-- ===== src/Gang/Dedup.antt =====
-- utils/Gang.h: `GangUtil::dedup`, two parallel loops over the same array. In the first one the
-- calls race for `index[key]` by `CAS`: a call is at its test, at its `CAS` or back, and the steps of
-- the calls interleave in the order of a list. In the second one a call writes only what no other
-- call tests true, so it is one step.
pub mod First
pub mod Second
mod Tests
use network_demo.Base.{ℕ, suc, ◌-◌, ◌^◌, Bool, true, false, ltb, ◌==◌, if◌then◌else◌, List, [], ◌∷◌}
use network_demo.Base.Family.{update}

-- `std::numeric_limits<size_t>::max()`
abbrev pub free : ℕ
free = 2 ^ 64 - 1

-- Where the call for an index stands in the first loop.
pub data Pc : Type 0 where
  testing swapping back : Pc

-- The keys and the flags `index`; the places above `n` are not used.
pub record Flags : Type 0 where
  pub index : ℕ → ℕ
  pub pc : ℕ → Pc

-- The test of a key; `sentinel` is the greatest value of its type.
pub test : ℕ → ℕ → (ℕ → ℕ) → Pc
test sentinel key index =
    if key == sentinel then back else if index key == free then swapping else back

-- `CAS(&index[key], free, i)`
pub claim : (ℕ → ℕ) → ℕ → ℕ → ℕ → ℕ
claim index key i = if index key == free then update index key i else index

pub claim_step : ℕ → (ℕ → ℕ) → ℕ → Flags → Pc → Flags
unfolding test claim
claim_step sentinel keys i f testing = record f {
  pc = update f.pc i (test sentinel (keys i) f.index);
}
claim_step sentinel keys i f swapping = record {
  index = claim f.index (keys i) i;
  pc = update f.pc i back;
}
claim_step sentinel keys i f back = f

-- The first loop over `n` keys.
pub claim_all : ℕ → ℕ → (ℕ → ℕ) → Flags → List ℕ → Flags
unfolding claim_step
claim_all sentinel n keys f [] = f
claim_all sentinel n keys f (i ∷ schedule) =
    claim_all sentinel n keys (if ltb i n then claim_step sentinel keys i f (f.pc i) else f)
      schedule

-- The array, the flags, and the calls of the second loop that have been made.
pub record Marks : Type 0 where
  pub keys : ℕ → ℕ
  pub index : ℕ → ℕ
  pub called : ℕ → Bool

-- A call of the second loop: the winner resets its flag, the others are marked.
pub settle : ℕ → ℕ → Marks → Marks
settle sentinel i m =
    if m.keys i == sentinel
    then record m { called = update m.called i true }
    else if m.index (m.keys i) == i
    then record m { index = update m.index (m.keys i) free; called = update m.called i true }
    else record m { keys = update m.keys i sentinel; called = update m.called i true }

-- The second loop; each call is made once.
pub settle_all : ℕ → ℕ → Marks → List ℕ → Marks
unfolding settle
settle_all sentinel n m [] = m
settle_all sentinel n m (i ∷ schedule) =
    settle_all sentinel n (if ltb i n then (if m.called i then m else settle sentinel i m) else m)
      schedule

pub dedup : ℕ → ℕ → (ℕ → ℕ) → (ℕ → ℕ) → List ℕ → List ℕ → Marks
unfolding claim_all settle_all
dedup sentinel n keys index first second =
    let f = claim_all sentinel n keys (record { index = index; pc = λ i. testing }) first in
    settle_all sentinel n (record { keys = keys; index = f.index; called = λ i. false }) second
