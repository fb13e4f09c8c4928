-- ===== src/Gang/Dedup/Tests.antt =====
-- Three places, two of them with the same key; both of these pass the test before one claims.
use network_demo.Base.{ℕ, zero, suc, ◌≡◌, ◌≢◌, ◌<◌, ◌⊎◌, true, List, [], ◌∷◌, refl, arith}
use network_demo.Gang.Dedup.{
  free, testing, back, claim_all, claim_step, test, claim, settle, settle_all, dedup,
}
use network_demo.Gang.Dedup.Second.{dedup_lem}

abbrev keys : ℕ → ℕ
keys zero = 7
keys (suc zero) = 4
keys (suc (suc i)) = 7

abbrev first : List ℕ
first = 0 ∷ 2 ∷ 2 ∷ 0 ∷ 1 ∷ 1 ∷ []

abbrev second : List ℕ
second = 0 ∷ 1 ∷ 2 ∷ []

first_kept : (dedup 255 3 keys (λ k. free) first second).keys 0 ≡ 255
unfolding dedup claim_all claim_step test claim settle_all settle
first_kept = refl

first_done :
    (i : ℕ)
    → i < 3
    → (claim_all 255 3 keys (record { index = λ k. free; pc = λ j. testing }) first).pc i ≡ back
unfolding claim_all claim_step test claim
first_done zero lt = refl
first_done (suc zero) lt = refl
first_done (suc (suc zero)) lt = refl
first_done (suc (suc (suc i))) lt = absurd (omega arith)

second_done : (i : ℕ) → i < 3 → (dedup 255 3 keys (λ k. free) first second).called i ≡ true
unfolding dedup claim_all claim_step test claim settle_all settle
second_done zero lt = refl
second_done (suc zero) lt = refl
second_done (suc (suc zero)) lt = refl
second_done (suc (suc (suc i))) lt = absurd (omega arith)

dedup_lem_example :
    ((k : ℕ) → k ≢ 255 → (dedup 255 3 keys (λ k1. free) first second).index k ≡ free)
    × ((i : ℕ)
        → i < 3
        → ((dedup 255 3 keys (λ k. free) first second).keys i ≡ keys i)
          ⊎ ((dedup 255 3 keys (λ k. free) first second).keys i ≡ 255))
    × ((i : ℕ)
        → i < 3
        → keys i ≢ 255
        → (j : ℕ) × (j < 3)
          × ((dedup 255 3 keys (λ k. free) first second).keys j ≡ keys i)
          × ((i' : ℕ)
              → i' < 3
              → (dedup 255 3 keys (λ k. free) first second).keys i' ≡ keys i
              → i' ≡ j))
dedup_lem_example =
    dedup_lem 255 3 keys (λ k. free) first second (omega arith) (λ k. refl) first_done second_done
