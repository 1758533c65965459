-- ===== src/Prelude/Fields.antt =====
-- `&` with a low mask is a remainder, and `|` of fields that do not overlap is a sum.
use Prim.Native.Nat.{ℕ, zero, suc, ◌+◌, ◌*◌, ◌-◌, ◌/◌, ◌%◌, ◌^◌, ◌≤◌, ◌<◌, bit_and, bit_or}
use mathlib.Core.Path.{◌≡◌, refl, ap}
use native.Mathlib.Nat.{pow-succ', one-le-pow}
use native.Mathlib.Omega.{arith}
use bsl45_misc_tools.Prelude.Bits.{and-halves, or-halves}
use bsl45_misc_tools.Prelude.Xor.{mod_double}

and-zero_below : (n a : ℕ) → a ≤ n → bit_and a 0 ≡ 0
and-zero_below zero zero p = refl
and-zero_below zero (suc a) p = absurd (omega arith)
and-zero_below (suc n) a p = omega (arith, and-halves a 0, and-zero_below n (a / 2) (omega arith))

or-zero_below : (n a : ℕ) → a ≤ n → bit_or a 0 ≡ a
or-zero_below zero zero p = refl
or-zero_below zero (suc a) p = absurd (omega arith)
or-zero_below (suc n) a p = omega (arith, or-halves a 0, or-zero_below n (a / 2) (omega arith))

pub bit_and_mask : (k a : ℕ) → bit_and a (2 ^ k - 1) ≡ a % 2 ^ k
bit_and_mask zero a = omega (arith, and-zero_below a a (omega arith))
bit_and_mask (suc k) a = ground (
  arith,
  and-halves a (2 ^ suc k - 1),
  pow-succ' 2 k,
  one-le-pow k 2,
  mod_double a (2 ^ k),
  bit_and_mask k (a / 2),
)

pub or_fields : (k q r : ℕ) → r < 2 ^ k → bit_or (q * 2 ^ k) r ≡ q * 2 ^ k + r
or_fields zero q r h = ground (arith, or-zero_below q q)
or_fields (suc k) q r h = ground (
  arith,
  or-halves (q * 2 ^ suc k) r,
  ap (λ (t : ℕ). q * t) (pow-succ' 2 k),
  pow-succ' 2 k,
  or_fields k q (r / 2),
)
