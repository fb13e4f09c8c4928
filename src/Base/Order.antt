-- ===== src/Base/Order.antt =====
-- Products at variables, which the linear tactics do not read.
use Prim.Native.Nat.{ℕ, suc, ◌+◌, ◌*◌, ◌≤◌}
use mathlib.Core.Path.{◌≡◌}
use native.Mathlib.Omega.{arith}

pub mul_mono : (k : ℕ) {x y : ℕ} → x ≤ y → x * k ≤ y * k
mul_mono k h = grind arith

pub suc_mul : (a k : ℕ) → suc a * k ≡ a * k + k
suc_mul a k = grind arith
