-- ===== src/Rpc/Connect/Laws.antt =====
-- The constructor ends, at the first open that succeeds or after 1000 that fail.
use network_demo.Base.{
  ℕ, zero, suc, ◌+◌, ◌*◌, ◌≤◌, ◌<◌, ◌≡◌, ◌⊎◌, inl, inr, Bool, true, false, ◌==◌, arith, refl,
  Bool-cases, ℕ_discrete,
}
use network_demo.Rpc.Connect.{Connection, connected, refused, connect_loop, connect}

-- The `n`th open is the first that succeeds.
abbrev pub IsFirst : (ℕ → Bool) → ℕ → Type 0
IsFirst opens n = (opens n ≡ true) × ((m : ℕ) → m < n → opens m ≡ false)

-- What is to be said of a run that has failed `k` times.
abbrev Ends : (ℕ → Bool) → ℕ → Connection → Type 0
Ends opens k c =
    ((n : ℕ) × (n < 1000)
      × ((opens n ≡ true) × ((m : ℕ) → k ≤ m → m < n → opens m ≡ false))
      × (c ≡ connected n (100 * (n + 1))))
    ⊎ (((m : ℕ) → k ≤ m → m < 1000 → opens m ≡ false) × (c ≡ refused 1000 (100 * 999)))

with_k :
    (opens : ℕ → Bool) (k : ℕ)
    → opens k ≡ false
    → (n : ℕ) → ((m : ℕ) → suc k ≤ m → m < n → opens m ≡ false)
    → (m : ℕ) → k ≤ m
    → m < n
    → opens m ≡ false
with_k opens k shut n later m lo hi = elim (ℕ_discrete m k) [
  | yes e ↦ rw e shut
  | no ne ↦ later m (omega arith) hi
]

Ends-earlier :
    (opens : ℕ → Bool) (k : ℕ) (c : Connection)
    → opens k ≡ false
    → Ends opens (suc k) c
    → Ends opens k c
Ends-earlier opens k c shut (inl (n, lt, first, e)) =
    inl (n, lt, (first.0, λ m lo hi. with_k opens k shut n first.1 m lo hi), e)
Ends-earlier opens k c shut (inr (none_open, e)) = inr (with_k opens k shut 1000 none_open, e)

connect_loop-Ends :
    (fuel : ℕ) (opens : ℕ → Bool) (k : ℕ)
    → k + fuel ≡ 1000
    → 0 < fuel
    → Ends opens k (connect_loop fuel opens k (100 * k))
unfolding connect_loop
connect_loop-Ends zero opens k e pos = absurd (omega arith)
connect_loop-Ends (suc fuel) opens k e pos = elim (Bool-cases (opens k)) [
  | inl open_ ↦
      let slept : 100 * k + 100 ≡ 100 * (k + 1) = omega arith in
      rw (connect_loop, open_, slept)
        (inl (k, omega arith, (open_, λ m lo hi. absurd (omega arith)), refl))
  | inr shut ↦ elim (Bool-cases (1000 == suc k)) [
    | inl last ↦
        let k999 : k ≡ 999 = ground arith in
        let all : (m : ℕ) → k ≤ m → m < 1000 → opens m ≡ false =
          λ m lo hi. let same : m ≡ k = omega arith in rw same shut in
        rw (connect_loop, shut, last) (inr (all, rw k999 refl))
    | inr more ↦
        let slept : 100 * k + 100 ≡ 100 * suc k = omega arith in
        let ne : fuel + suc k ≡ 1000 = omega arith in
        rw (connect_loop, shut, more, slept)
          (Ends-earlier opens k _ shut
            (connect_loop-Ends fuel opens (suc k) (omega arith) (ground arith)))
  ]
]

-- The constructor ends: with an open transport after the first open of 1000 that succeeds, or with
-- the exception if none does; it sleeps 100 ms after each open but the last that fails.
pub connect_lem :
    (opens : ℕ → Bool)
    → ((n : ℕ) × (n < 1000) × IsFirst opens n × (connect opens ≡ connected n (100 * (n + 1))))
      ⊎ (((m : ℕ) → m < 1000 → opens m ≡ false) × (connect opens ≡ refused 1000 (100 * 999)))
unfolding connect
connect_lem opens = elim (connect_loop-Ends 1000 opens 0 refl (omega arith)) [
  | inl (n, lt, first, e) ↦ inl (n, lt, (first.0, λ m hi. first.1 m (omega arith) hi), e)
  | inr (none_open, e) ↦ inr (λ m hi. none_open m (omega arith) hi, e)
]
