-- ===== src/Prelude/Bits.antt =====
-- Laws of `&`, `|` and `^` at variables, by the digit recursion that the native operations mean.
use Prim.Native.Nat.{
  ℕ, zero, suc, ◌+◌, ◌*◌, ◌/◌, ◌%◌, ◌≤◌, ◌<◌, min, max, bit_and, bit_or, bit_xor, digits, bitwise,
  differ, bit_and-bitwise, bit_or-bitwise, bit_xor-bitwise,
}
use mathlib.Core.Path.{◌≡◌, refl}
use native.Mathlib.Omega.{arith}

-- The digit of `^` is the sum without its carry.
differ-carry : (u v : ℕ) → u < 2 → v < 2 → differ u v ≡ (u + v) % 2
differ-carry zero zero hu hv = refl
differ-carry (suc zero) zero hu hv = refl
differ-carry zero (suc zero) hu hv = refl
differ-carry (suc zero) (suc zero) hu hv = refl
differ-carry zero (suc (suc v)) hu hv = absurd (omega arith)
differ-carry (suc zero) (suc (suc v)) hu hv = absurd (omega arith)
differ-carry (suc (suc u)) v hu hv = absurd (omega arith)

module _ (left_over : ℕ → ℕ) (digit : ℕ → ℕ → ℕ) where
  -- Two supplies of fuel that both reach the first number give the same digits.
  same_digits :
      (fuel more x y : ℕ)
      → x ≤ fuel
      → x ≤ more
      → digits left_over digit fuel x y ≡ digits left_over digit more x y
  same_digits zero zero x y hf hm = refl
  same_digits zero (suc more) (suc x) y hf hm = absurd (omega arith)
  same_digits zero (suc more) zero y hf hm = refl
  same_digits (suc fuel) zero (suc x) y hf hm = absurd (omega arith)
  same_digits (suc fuel) zero zero y hf hm = refl
  same_digits (suc fuel) (suc more) zero y hf hm = refl
  same_digits (suc fuel) (suc more) (suc x) y hf hm =
      let halves = same_digits fuel more (suc x / 2) (y / 2) (omega arith) (omega arith) in
      rw halves

  one_digit :
      (x y : ℕ)
      → bitwise left_over digit (suc x) y
        ≡ bitwise left_over digit (suc x / 2) (y / 2) * 2 + digit (suc x % 2) (y % 2)
  one_digit x y =
      let halves = same_digits x (suc x / 2) (suc x / 2) (y / 2) (omega arith) (omega arith) in
      rw halves

-- The lowest digit of each operation.
pub and-halves : (x y : ℕ) → bit_and x y ≡ bit_and (x / 2) (y / 2) * 2 + min (x % 2) (y % 2)
and-halves zero y = simp bit_and-bitwise (omega arith)
and-halves (suc x) y = simp bit_and-bitwise (one_digit (λ w. 0) min x y)

pub or-halves : (x y : ℕ) → bit_or x y ≡ bit_or (x / 2) (y / 2) * 2 + max (x % 2) (y % 2)
or-halves zero y = simp bit_or-bitwise (omega arith)
or-halves (suc x) y = simp bit_or-bitwise (one_digit (λ w. w) max x y)

pub xor-halves : (x y : ℕ) → bit_xor x y ≡ bit_xor (x / 2) (y / 2) * 2 + (x + y) % 2
xor-halves zero y = simp bit_xor-bitwise (omega arith)
xor-halves (suc x) y =
    let e = differ-carry (suc x % 2) (y % 2) (omega arith) (omega arith) in
    simp bit_xor-bitwise (omega (arith, one_digit (λ w. w) differ x y, e))
