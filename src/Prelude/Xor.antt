-- ===== src/Prelude/Xor.antt =====
-- `^` on numbers of any width is a group of exponent two, and commutes with shifts and low masks.
use Prim.Native.Nat.{ℕ, zero, suc, ◌+◌, ◌*◌, ◌/◌, ◌%◌, ◌^◌, ◌≤◌, ◌<◌, bit_xor}
use mathlib.Core.Path.{◌≡◌, refl, ◌∙◌, ap}
use native.Mathlib.Nat.{pow-succ', one-le-pow}
use native.Mathlib.Omega.{arith}
use bsl45_misc_tools.Prelude.Bits.{xor-halves}

pub xor-half : (a b : ℕ) → bit_xor a b / 2 ≡ bit_xor (a / 2) (b / 2)
xor-half a b = omega (arith, xor-halves a b)

-- Induction on a bound of all arguments: each step halves them.
comm_below : (n a b : ℕ) → a ≤ n → b ≤ n → bit_xor a b ≡ bit_xor b a
comm_below zero zero zero p q = refl
comm_below zero zero (suc b) p q = absurd (omega arith)
comm_below zero (suc a) b p q = absurd (omega arith)
comm_below (suc n) a b p q = omega (
  arith,
  xor-halves a b,
  xor-halves b a,
  comm_below n (a / 2) (b / 2) (omega arith) (omega arith),
)

pub xor_comm : (a b : ℕ) → bit_xor a b ≡ bit_xor b a
xor_comm a b = comm_below (a + b) a b (omega arith) (omega arith)

xor-zero_below : (n a : ℕ) → a ≤ n → bit_xor a 0 ≡ a
xor-zero_below zero zero p = refl
xor-zero_below zero (suc a) p = absurd (omega arith)
xor-zero_below (suc n) a p = omega (arith, xor-halves a 0, xor-zero_below n (a / 2) (omega arith))

pub xor-zero : (a : ℕ) → bit_xor a 0 ≡ a
xor-zero a = xor-zero_below a a (omega arith)

pub zero-xor : (a : ℕ) → bit_xor 0 a ≡ a
zero-xor a = xor_comm 0 a ∙ xor-zero a

xor_self_below : (n a : ℕ) → a ≤ n → bit_xor a a ≡ 0
xor_self_below zero zero p = refl
xor_self_below zero (suc a) p = absurd (omega arith)
xor_self_below (suc n) a p = omega (arith, xor-halves a a, xor_self_below n (a / 2) (omega arith))

pub xor_self : (a : ℕ) → bit_xor a a ≡ 0
xor_self a = xor_self_below a a (omega arith)

assoc_below :
    (n a b c : ℕ) → a ≤ n → b ≤ n → c ≤ n → bit_xor (bit_xor a b) c ≡ bit_xor a (bit_xor b c)
assoc_below zero zero zero zero p q r = refl
assoc_below zero zero zero (suc c) p q r = absurd (omega arith)
assoc_below zero zero (suc b) c p q r = absurd (omega arith)
assoc_below zero (suc a) b c p q r = absurd (omega arith)
assoc_below (suc n) a b c p q r = ground (
  arith,
  xor-halves (bit_xor a b) c,
  xor-halves a (bit_xor b c),
  xor-half a b,
  xor-half b c,
  xor-halves a b,
  xor-halves b c,
  assoc_below n (a / 2) (b / 2) (c / 2),
)

pub xor_assoc : (a b c : ℕ) → bit_xor (bit_xor a b) c ≡ bit_xor a (bit_xor b c)
xor_assoc a b c = assoc_below (a + b + c) a b c (omega arith) (omega arith) (omega arith)

-- Two sums of pairs can be regrouped.
pub xor_swap :
    (a b c d : ℕ) → bit_xor (bit_xor a b) (bit_xor c d) ≡ bit_xor (bit_xor a c) (bit_xor b d)
xor_swap a b c d = cc (
  xor_assoc a b (bit_xor c d),
  xor_assoc b c d,
  xor_comm b c,
  xor_assoc c b d,
  xor_assoc a c (bit_xor b d),
)

pub mod_double : (a p : ℕ) → 0 < p → a % (2 * p) ≡ a / 2 % p * 2 + a % 2
mod_double a p h = grind arith

xor-div_16 : (a b : ℕ) → bit_xor a b / 16 ≡ bit_xor (a / 16) (b / 16)
xor-div_16 a b = ground (
  arith,
  xor-half a b,
  xor-half (a / 2) (b / 2),
  xor-half (a / 4) (b / 4),
  xor-half (a / 8) (b / 8),
)

pub xor-div_256 : (a b : ℕ) → bit_xor a b / 256 ≡ bit_xor (a / 256) (b / 256)
xor-div_256 a b = ground (arith, xor-div_16 a b, xor-div_16 (a / 16) (b / 16))

-- A law of the low `k` bits, from that of the low `k - 1` bits of the halves.
mod_step :
    (p a b : ℕ)
    → 0 < p
    → bit_xor (a / 2) (b / 2) % p ≡ bit_xor (a / 2 % p) (b / 2 % p)
    → bit_xor a b % (2 * p) ≡ bit_xor (a % (2 * p)) (b % (2 * p))
mod_step p a b h e = ground (
  arith,
  mod_double a p h,
  mod_double b p h,
  mod_double (bit_xor a b) p h,
  xor-halves a b,
  xor-halves (a % (2 * p)) (b % (2 * p)),
)

pub xor-mod-pow : (k a b : ℕ) → bit_xor a b % 2 ^ k ≡ bit_xor (a % 2 ^ k) (b % 2 ^ k)
xor-mod-pow zero a b = ground (arith, xor-zero 0)
xor-mod-pow (suc k) a b =
    rw (pow-succ' 2 k)
      (mod_step (2 ^ k) a b (one-le-pow k 2 (omega arith)) (xor-mod-pow k (a / 2) (b / 2)))

-- Two fields that do not overlap are joined by `^` as by a sum.
pub xor_fields : (k q r : ℕ) → r < 2 ^ k → bit_xor (q * 2 ^ k) r ≡ q * 2 ^ k + r
xor_fields zero q r h = ground (arith, xor-zero q)
xor_fields (suc k) q r h = ground (
  arith,
  xor-halves (q * 2 ^ suc k) r,
  ap (λ (t : ℕ). q * t) (pow-succ' 2 k),
  pow-succ' 2 k,
  xor_fields k q (r / 2),
)
