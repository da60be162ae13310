-- ===== src/Common/Powers.antt =====
-- Powers of two, for shifts and doubling delays.
use Prim.Native.Nat.{ℕ, zero, suc, ◌+◌, ◌*◌, ◌^◌, ◌≤◌}
use mathlib.Core.Path.{◌≡◌}
use native.Mathlib.Nat.{add-zero, add-suc, pow-suc, pow-le-pow_right}
use native.Mathlib.Omega.{arith}

pub pow2_pos : (n : ℕ) → 1 ≤ 2 ^ n
pow2_pos zero = omega arith
pow2_pos (suc n) = omega (arith, pow2_pos n, pow-suc 2 n)

pub pow2-add : (a b : ℕ) → 2 ^ (a + b) ≡ 2 ^ a * 2 ^ b
pow2-add a zero = rw add-zero (omega arith)
pow2-add a (suc b) = rw (add-suc, pow-suc 2 (a + b), pow-suc 2 b, pow2-add a b) (omega arith)

pub pow2_mono : {a b : ℕ} → a ≤ b → 2 ^ a ≤ 2 ^ b
pow2_mono h = pow-le-pow_right (omega arith) h

pub double_pow : (d n : ℕ) → (d + d) * 2 ^ n ≡ d * 2 ^ suc n
double_pow d n = rw (pow-suc 2 n) (omega arith)

pub le-mul_pow : (d n m : ℕ) → m ≤ d → m ≤ d * 2 ^ n
le-mul_pow d n m h = grind (arith, pow2_pos n)
