-- ===== src/Gang/Dedup/Second.antt =====
-- The second loop of `dedup` keeps each key at one place and frees the flags.
use network_demo.Base.{
  ℕ, ◌≡◌, ◌≢◌, ◌<◌, ◌⊎◌, inl, inr, true, false, ltb, ltb→lt, ◌==◌, List, [], ◌∷◌, refl, sym, ap,
  ◌∙◌, arith, ℕ_discrete, Bool-cases,
}
use network_demo.Base.Family.{update, update_self, update_ne}
use network_demo.Gang.Dedup.{free, testing, back, claim_all, Marks, settle, settle_all, dedup}
use network_demo.Gang.Dedup.First.{Claimed, claim_all-Claimed, start-Claimed, Owned}

true-false : true ≢ false
true-false e = cc

-- After the first loop `winner k` is the place that a key `k` keeps.
module _ (sentinel n : ℕ) (keys winner : ℕ → ℕ) (small : n < free) where
  -- The place `i` of the array, in front of its call and after it.
  pub record Settled (m : Marks) : Type 0 where
    -- A place whose call is not made is as it was.
    pub waits : (i : ℕ) → i < n → m.called i ≡ false → m.keys i ≡ keys i
    -- A place whose call is made holds its key if it has won it.
    pub wins : (i : ℕ) → i < n → m.called i ≡ true → winner (keys i) ≡ i → m.keys i ≡ keys i
    pub loses : (i : ℕ) → i < n → m.called i ≡ true → winner (keys i) ≢ i → m.keys i ≡ sentinel
    -- A flag is held until its winner is called.
    pub held :
        (k : ℕ)
        → k ≢ sentinel
        → ((winner k ≡ free) × (m.index k ≡ free))
          ⊎ ((winner k < n) × (m.called (winner k) ≡ false) × (m.index k ≡ winner k))
          ⊎ ((winner k < n) × (m.called (winner k) ≡ true) × (m.index k ≡ free))

  Settled-call :
      (m : Marks) (i : ℕ) (ks ix : ℕ → ℕ)
      → i < n
      → Settled m
      → ((j : ℕ) → j ≢ i → ks j ≡ m.keys j)
      → (winner (keys i) ≡ i → ks i ≡ keys i)
      → (winner (keys i) ≢ i → ks i ≡ sentinel)
      → ((k : ℕ) → k ≢ sentinel → winner k ≢ i → ix k ≡ m.index k)
      → ((k : ℕ) → k ≢ sentinel → winner k ≡ i → ix k ≡ free)
      → Settled (record { keys = ks; index = ix; called = update m.called i true })
  Settled-call m i ks ix lt inv same won lost other freed = record {
    waits = λ j below idle. elim (ℕ_discrete j i) [
      | yes e ↦ absurd (true-false (sym (update_self m.called i true) ∙ (rw e at idle)))
      | no ne ↦ same j ne ∙ inv.waits j below (sym (update_ne m.called i true j ne) ∙ idle)
    ];
    wins = λ j below done mine. elim (ℕ_discrete j i) [
      | yes e ↦ rw e (won (rw e at mine))
      | no ne ↦ same j ne ∙ inv.wins j below (sym (update_ne m.called i true j ne) ∙ done) mine
    ];
    loses = λ j below done not_mine. elim (ℕ_discrete j i) [
      | yes e ↦ rw e (lost (rw e at not_mine))
      | no ne ↦ same j ne ∙ inv.loses j below (sym (update_ne m.called i true j ne) ∙ done) not_mine
    ];
    held = λ k key. elim (ℕ_discrete (winner k) i) [
      | yes e ↦ inr (inr (rw e lt, rw e (update_self m.called i true), freed k key e))
      | no ne ↦ rw (update_ne m.called i true (winner k) ne, other k key ne) (inv.held k key)
    ];
  }

  module _ (owned : Owned n keys winner) where
    winner_key : (k i : ℕ) → i < n → winner k ≡ i → keys i ≡ k
    winner_key k i lt e = elim (owned k) [
      | inl open_ ↦ absurd (omega arith)
      | inr (below, at_home) ↦ rw⁻¹ e at_home
    ]

    module _ (m : Marks) (i : ℕ) (lt : i < n) (idle : m.called i ≡ false) (inv : Settled m) where
      here : m.keys i ≡ keys i
      here = inv.waits i lt idle

      -- The flag shows whether the place has won.
      flag_of_winner : keys i ≢ sentinel → winner (keys i) ≡ i → m.index (keys i) ≡ i
      flag_of_winner key mine = elim (inv.held (keys i) key) [
        | inl (open_, at_flag) ↦ absurd (omega arith)
        | inr (inl (below, going, at_flag)) ↦ at_flag ∙ mine
        | inr (inr (below, done, at_flag)) ↦ absurd (true-false (sym done ∙ (rw mine idle)))
      ]

      winner_of_flag : keys i ≢ sentinel → m.index (keys i) ≡ i → winner (keys i) ≡ i
      winner_of_flag key flag = elim (inv.held (keys i) key) [
        | inl (open_, at_flag) ↦ absurd (omega arith)
        | inr (inl (below, going, at_flag)) ↦ sym at_flag ∙ flag
        | inr (inr (below, done, at_flag)) ↦ absurd (omega arith)
      ]

      settle-Settled : Settled (settle sentinel i m)
      unfolding settle
      settle-Settled = elim (Bool-cases (keys i == sentinel)) [
        | inl none_here ↦
            let key : keys i ≡ sentinel = ground arith in
            rw (settle, here, none_here)
              (Settled-call m i m.keys m.index lt inv (λ j ne. refl) (λ mine. here)
                (λ not_mine. here ∙ key) (λ k other ne. refl)
                (λ k other mine. absurd (other (sym (winner_key k i lt mine) ∙ key))))
        | inr some_here ↦
            let key : keys i ≢ sentinel = ground arith in
            elim (Bool-cases (m.index (keys i) == i)) [
              | inl flag ↦
                  let mine : winner (keys i) ≡ i = winner_of_flag key (ground arith) in
                  rw (settle, here, some_here, flag)
                    (Settled-call m i m.keys (update m.index (keys i) free) lt inv (λ j ne. refl)
                      (λ yes_. here) (λ not_mine. absurd (not_mine mine))
                      (λ k other ne. update_ne m.index (keys i) free k (λ e. ne (rw e mine)))
                      (λ k other won.
                        rw (sym (winner_key k i lt won)) (update_self m.index (keys i) free)))
              | inr no_flag ↦
                  let no_win : winner (keys i) ≢ i =
                    λ won. let at_flag = flag_of_winner key won in ground (arith, at_flag) in
                  rw (settle, here, some_here, no_flag)
                    (Settled-call m i (update m.keys i sentinel) m.index lt inv
                      (λ j ne. update_ne m.keys i sentinel j ne) (λ won. absurd (no_win won))
                      (λ lost. update_self m.keys i sentinel) (λ k other ne. refl)
                      (λ k other won. absurd (no_win (rw (winner_key k i lt won) won))))
            ]
      ]

    settle_all-Settled :
        (schedule : List ℕ) (m : Marks) → Settled m → Settled (settle_all sentinel n m schedule)
    unfolding settle_all
    settle_all-Settled [] m inv = inv
    settle_all-Settled (i ∷ schedule) m inv = elim (Bool-cases (ltb i n)) [
      | inr e ↦ rw (settle_all, e) (settle_all-Settled schedule m inv)
      | inl e ↦ elim (Bool-cases (m.called i)) [
        | inl done ↦ rw (settle_all, e, done) (settle_all-Settled schedule m inv)
        | inr idle ↦
            rw (settle_all, e, idle)
              (settle_all-Settled schedule (settle sentinel i m)
                (settle-Settled m i (ltb→lt i n e) idle inv))
      ]
    ]

    unsettled : Settled (record { keys = keys; index = winner; called = λ i. false })
    unsettled = record {
      waits = λ i lt idle. refl;
      wins = λ i lt done mine. refl;
      loses = λ i lt done not_mine. absurd (true-false (sym done));
      held = λ k key. elim (owned k) [
        | inl open_ ↦ inl (open_, open_)
        | inr (below, at_home) ↦ inr (inl (below, refl, refl))
      ];
    }

    -- The array and the flags when all calls have been made.
    module _ (m : Marks) (all : (i : ℕ) → i < n → m.called i ≡ true) (inv : Settled m) where
      flags_free : (k : ℕ) → k ≢ sentinel → m.index k ≡ free
      flags_free k key = elim (inv.held k key) [
        | inl (open_, at_flag) ↦ at_flag
        | inr (inl (below, going, at_flag)) ↦
            absurd (true-false (sym (all (winner k) below) ∙ going))
        | inr (inr (below, done, at_flag)) ↦ at_flag
      ]

      kept_or_marked : (i : ℕ) → i < n → (m.keys i ≡ keys i) ⊎ (m.keys i ≡ sentinel)
      kept_or_marked i lt = elim (ℕ_discrete (winner (keys i)) i) [
        | yes won ↦ inl (inv.wins i lt (all i lt) won)
        | no lost ↦ inr (inv.loses i lt (all i lt) lost)
      ]

      kept_place : (i : ℕ) → i < n → m.keys i ≢ sentinel → winner (m.keys i) ≡ i
      kept_place i lt key = elim (ℕ_discrete (winner (keys i)) i) [
        | yes won ↦ rw (inv.wins i lt (all i lt) won) won
        | no lost ↦ absurd (key (inv.loses i lt (all i lt) lost))
      ]

      one_place :
          (i : ℕ)
          → i < n
          → keys i ≢ sentinel
          → winner (keys i) ≢ free
          → (j : ℕ) × (j < n)
            × (m.keys j ≡ keys i)
            × ((i' : ℕ) → i' < n → m.keys i' ≡ keys i → i' ≡ j)
      one_place i lt key taken = elim (owned (keys i)) [
        | inl open_ ↦ absurd (taken open_)
        | inr (below, at_home) ↦
            let j = winner (keys i) in
            let mine : winner (keys j) ≡ j = rw at_home refl in
            (
              j,
              below,
              inv.wins j below (all j below) mine ∙ at_home,
              λ i' lt' e. sym (kept_place i' lt' (λ same. key (sym e ∙ same))) ∙ ap winner e,
            )
      ]

-- When all calls of both loops have been made, in any order of their steps, and all flags were free
-- before: they are free again, each place holds its key or the sentinel, and each key that stood
-- somewhere stands at exactly one place, for fewer places than the greatest `size_t`.
pub dedup_lem :
    (sentinel n : ℕ) (keys index : ℕ → ℕ) (first second : List ℕ)
    → n < free
    → ((k : ℕ) → index k ≡ free)
    → ((i : ℕ)
        → i < n
        → (claim_all sentinel n keys (record { index = index; pc = λ j. testing }) first).pc i
          ≡ back)
    → ((i : ℕ) → i < n → (dedup sentinel n keys index first second).called i ≡ true)
    → let m = dedup sentinel n keys index first second in
      ((k : ℕ) → k ≢ sentinel → m.index k ≡ free)
      × ((i : ℕ) → i < n → (m.keys i ≡ keys i) ⊎ (m.keys i ≡ sentinel))
      × ((i : ℕ)
          → i < n
          → keys i ≢ sentinel
          → (j : ℕ) × (j < n)
            × (m.keys j ≡ keys i)
            × ((i' : ℕ) → i' < n → m.keys i' ≡ keys i → i' ≡ j))
unfolding dedup
dedup_lem sentinel n keys index first second small open_ first_done second_done =
    let f = claim_all sentinel n keys (record { index = index; pc = λ j. testing }) first in
    let claimed : Claimed sentinel n keys f =
      claim_all-Claimed sentinel n keys small first (record { index = index; pc = λ j. testing })
        (start-Claimed sentinel n keys small index open_) in
    let m =
      settle_all sentinel n (record { keys = keys; index = f.index; called = λ j. false }) second in
    let inv : Settled sentinel n keys f.index small m =
      settle_all-Settled sentinel n keys f.index small claimed.owned second
        (record { keys = keys; index = f.index; called = λ j. false })
        (unsettled sentinel n keys f.index small claimed.owned) in
    (
      flags_free sentinel n keys f.index small claimed.owned m second_done inv,
      kept_or_marked sentinel n keys f.index small claimed.owned m second_done inv,
      λ i lt key.
          one_place sentinel n keys f.index small claimed.owned m second_done inv i lt key
            (claimed.taken i lt (first_done i lt) key),
    )
