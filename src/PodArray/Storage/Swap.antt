-- ===== src/PodArray/Storage/Swap.antt =====
-- `PODArray::swap`, which the move constructor and the move assignment call.
use network_demo.Base.{ℕ, ◌==◌, ◌≡◌, ◌⊎◌, inl, inr, true, false, refl, arith, sym, ap₂, ◌∙◌}
use network_demo.PodArray.Storage.{Pod, is_initialized, swap}

-- An array as the constructors leave it before its first block.
pub record AllNull (null : ℕ) (a : Pod) : Type 0 where
  pub at_start : a.c_start ≡ null
  pub at_end : a.c_end ≡ null
  pub at_storage : a.c_end_of_storage ≡ null

AllNull-not_initialized : (null : ℕ) (a : Pod) → AllNull null a → is_initialized null a ≡ false
unfolding is_initialized
AllNull-not_initialized null a h =
    let test : (a.c_start == null) ≡ true = ground (arith, h.at_start) in rw test refl

pointers_ext :
    (a b : Pod)
    → a.c_start ≡ b.c_start
    → a.c_end ≡ b.c_end
    → a.c_end_of_storage ≡ b.c_end_of_storage
    → record a { socket_id = b.socket_id } ≡ b
pointers_ext a b start end storage i = record {
  c_start = start i;
  c_end = end i;
  c_end_of_storage = storage i;
  socket_id = b.socket_id;
}

same_pointers :
    (null : ℕ) (a b : Pod)
    → AllNull null a
    → AllNull null b
    → record a { socket_id = b.socket_id } ≡ b
same_pointers null a b h k =
    pointers_ext a b (h.at_start ∙ sym k.at_start) (h.at_end ∙ sym k.at_end)
      (h.at_storage ∙ sym k.at_storage)

-- `swap` exchanges two arrays, their sockets included, if each has a block or no pointer set.
swap_lem :
    (null : ℕ) (a b : Pod)
    → (is_initialized null a ≡ true) ⊎ AllNull null a
    → (is_initialized null b ≡ true) ⊎ AllNull null b
    → swap null a b ≡ (b, a)
unfolding swap
swap_lem null a b (inl h) k = rw h refl
swap_lem null a b (inr h) (inl k) = rw (AllNull-not_initialized null a h, k) refl
swap_lem null a b (inr h) (inr k) =
    rw (AllNull-not_initialized null a h, AllNull-not_initialized null b k)
      (ap₂ (λ (x y : Pod). (x, y)) (same_pointers null a b h k) (same_pointers null b a k h))
