-- ===== src/Mfa/Bits.antt =====
-- The bits of a mask: `mask & (1 << i)` as a test, and `mask | (1 << i)`.
use Prim.Native.Nat.{ℕ, zero, suc, ◌+◌, ◌*◌, ◌/◌, ◌%◌}
use mathlib.Core.Path.{◌≡◌}
use mathlib.Core.Bool.{Bool, true}
use native.Mathlib.Omega.{arith}
use django_allauth.Prelude.{nat_eqb, if◌then◌else◌}

unfoldable pub test_bit : ℕ → ℕ → Bool
test_bit mask zero = nat_eqb (mask % 2) 1
test_bit mask (suc i) = test_bit (mask / 2) i

unfoldable pub set_bit : ℕ → ℕ → ℕ
set_bit mask zero = mask / 2 * 2 + 1
set_bit mask (suc i) = set_bit (mask / 2) i * 2 + mask % 2

half_of : (n m : ℕ) → (n * 2 + m % 2) / 2 ≡ n
half_of n m = omega arith

half_odd : (n : ℕ) → (n * 2 + 1) / 2 ≡ n
half_odd n = omega arith

pub test_bit-set_bit :
    (mask i j : ℕ) → test_bit (set_bit mask i) j ≡ (if nat_eqb i j then true else test_bit mask j)
unfolding test_bit set_bit
test_bit-set_bit mask zero zero = ground arith
test_bit-set_bit mask zero (suc j) = ground (arith, half_odd (mask / 2))
test_bit-set_bit mask (suc i) zero = ground arith
test_bit-set_bit mask (suc i) (suc j) =
    ground (arith, half_of (set_bit (mask / 2) i) mask, test_bit-set_bit (mask / 2) i j)
