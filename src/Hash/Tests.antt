-- ===== src/Hash/Tests.antt =====
-- The table and two updates.
use network_demo.Base.{ℕ, ◌<◌, ◌^◌, ◌-◌, ◌≡◌, some, refl, length}
use network_demo.Hash.{rtab, hash_loop, hash_update}
use network_demo.Hash.Laws.{hash_update-permutes}

length-rtab : length rtab ≡ 256
unfolding rtab
length-rtab = refl

-- The greatest `i` wraps to 0, and nothing is mixed in.
hash_update_last : hash_update 5 (2 ^ 64 - 1) ≡ some 5
unfolding hash_update hash_loop
hash_update_last = refl

hash_update-permutes_example :
    ((h : ℕ) → h < 2 ^ 64 → (v : ℕ) × (hash_update h 7 ≡ some v) × (v < 2 ^ 64))
    × ((h h' : ℕ) → h < 2 ^ 64 → h' < 2 ^ 64 → hash_update h 7 ≡ hash_update h' 7 → h ≡ h')
hash_update-permutes_example = hash_update-permutes 7
