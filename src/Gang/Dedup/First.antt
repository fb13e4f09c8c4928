-- ===== src/Gang/Dedup/First.antt =====
-- The first loop of `dedup` gives every key one of the places where it stands.
use network_demo.Base.{
  ℕ, ◌≡◌, ◌≢◌, ◌<◌, ◌⊎◌, inl, inr, true, ltb, ltb→lt, ◌==◌, List, [], ◌∷◌, refl, sym, ◌∙◌, arith,
  ℕ_discrete, Bool-cases,
}
use network_demo.Base.Family.{update_self, update_ne}
use network_demo.Gang.Dedup.{
  free, Pc, testing, swapping, back, Flags, test, claim, claim_step, claim_all,
}

testing_back : testing ≢ back
testing_back e = cc

testing_swapping : testing ≢ swapping
testing_swapping e = cc

swapping_back : swapping ≢ back
swapping_back e = cc

back_swapping : back ≢ swapping
back_swapping e = cc

-- A flag is free, or it is a place of its key.
abbrev pub Owned : ℕ → (ℕ → ℕ) → (ℕ → ℕ) → Type 0
Owned n keys index = (k : ℕ) → (index k ≡ free) ⊎ ((index k < n) × (keys (index k) ≡ k))

pub record Claimed (sentinel n : ℕ) (keys : ℕ → ℕ) (f : Flags) : Type 0 where
  pub owned : Owned n keys f.index
  pub taken : (i : ℕ) → i < n → f.pc i ≡ back → keys i ≢ sentinel → f.index (keys i) ≢ free
  pub not_sentinel : (i : ℕ) → i < n → f.pc i ≡ swapping → keys i ≢ sentinel

module _ (sentinel n : ℕ) (keys : ℕ → ℕ) (small : n < free) where
  claim-Owned :
      (index : ℕ → ℕ) (i : ℕ) → i < n → Owned n keys index → Owned n keys (claim index (keys i) i)
  unfolding claim
  claim-Owned index i lt owned k = elim (ℕ_discrete k (keys i)) [
    | yes e ↦ ground (arith, owned k)
    | no ne ↦ ground (arith, owned k)
  ]

  claim_keeps : (index : ℕ → ℕ) (key i k : ℕ) → index k ≢ free → claim index key i k ≡ index k
  unfolding claim
  claim_keeps index key i k taken = ground arith

  claim_takes : (index : ℕ → ℕ) (key i : ℕ) → i < n → claim index key i key ≢ free
  unfolding claim
  claim_takes index key i lt = ground arith

  test_back :
      (index : ℕ → ℕ) (key : ℕ) → test sentinel key index ≡ back → key ≢ sentinel → index key ≢ free
  unfolding test
  test_back index key e fresh = elim (Bool-cases (key == sentinel)) [
    | inl same ↦ absurd (fresh (ground arith))
    | inr other ↦ elim (Bool-cases (index key == free)) [
      | inl open_ ↦ absurd (swapping_back (rw (test, other, open_) at e))
      | inr taken ↦ ground arith
    ]
  ]

  test_swapping : (index : ℕ → ℕ) (key : ℕ) → test sentinel key index ≡ swapping → key ≢ sentinel
  unfolding test
  test_swapping index key e same =
      let hit : (key == sentinel) ≡ true = ground arith in back_swapping (rw (test, hit) at e)

  claim_step-Claimed :
      (i : ℕ) (f : Flags) (p : Pc)
      → i < n
      → f.pc i ≡ p
      → Claimed sentinel n keys f
      → Claimed sentinel n keys (claim_step sentinel keys i f p)
  unfolding claim_step
  claim_step-Claimed i f testing lt here inv = record {
    owned = inv.owned;
    taken = λ j below done fresh. elim (ℕ_discrete j i) [
      | yes e ↦ rw e (
          test_back f.index (keys i)
            (sym (update_self f.pc i (test sentinel (keys i) f.index)) ∙ (rw e at done))
            (rw e at fresh))
      | no ne ↦
          inv.taken j below (rw (update_ne f.pc i (test sentinel (keys i) f.index) j ne) at done)
            fresh
    ];
    not_sentinel = λ j below going. elim (ℕ_discrete j i) [
      | yes e ↦ rw e (
          test_swapping f.index (keys i)
            (sym (update_self f.pc i (test sentinel (keys i) f.index)) ∙ (rw e at going)))
      | no ne ↦
          inv.not_sentinel j below
            (rw (update_ne f.pc i (test sentinel (keys i) f.index) j ne) at going)
    ];
  }
  claim_step-Claimed i f swapping lt here inv = record {
    owned = claim-Owned f.index i lt inv.owned;
    taken = λ j below done fresh. elim (ℕ_discrete j i) [
      | yes e ↦ rw e (claim_takes f.index (keys i) i lt)
      | no ne ↦
          (let before = inv.taken j below (rw (update_ne f.pc i back j ne) at done) fresh in
            λ freed. before (sym (claim_keeps f.index (keys i) i (keys j) before) ∙ freed))
    ];
    not_sentinel = λ j below going. elim (ℕ_discrete j i) [
      | yes e ↦ absurd (back_swapping (sym (update_self f.pc i back) ∙ (rw e at going)))
      | no ne ↦ inv.not_sentinel j below (rw (update_ne f.pc i back j ne) at going)
    ];
  }
  claim_step-Claimed i f back lt here inv = inv

  pub claim_all-Claimed :
      (schedule : List ℕ) (f : Flags)
      → Claimed sentinel n keys f
      → Claimed sentinel n keys (claim_all sentinel n keys f schedule)
  unfolding claim_all
  claim_all-Claimed [] f inv = inv
  claim_all-Claimed (i ∷ schedule) f inv = elim (Bool-cases (ltb i n)) [
    | inl e ↦
        rw (claim_all, e)
          (claim_all-Claimed schedule (claim_step sentinel keys i f (f.pc i))
            (claim_step-Claimed i f (f.pc i) (ltb→lt i n e) refl inv))
    | inr e ↦ rw (claim_all, e) (claim_all-Claimed schedule f inv)
  ]

  -- Before any call all flags are free.
  pub start-Claimed :
      (index : ℕ → ℕ)
      → ((k : ℕ) → index k ≡ free)
      → Claimed sentinel n keys (record { index = index; pc = λ i. testing })
  start-Claimed index open_ = record {
    owned = λ k. inl (open_ k);
    taken = λ i lt done. absurd (testing_back done);
    not_sentinel = λ i lt going. absurd (testing_swapping going);
  }
