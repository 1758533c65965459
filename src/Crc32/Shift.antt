-- ===== src/Crc32/Shift.antt =====
-- The shift of a byte through the register is linear, and splits a word into its bytes.
use bsl45_misc_tools.Prelude.{
  ℕ, zero, suc, ◌+◌, ◌*◌, ◌/◌, ◌%◌, ◌^◌, ◌<◌, ◌≡◌, refl, ◌∙◌, ap, ap₂, arith, bit_xor, ◌==◌,
  if◌then◌else◌, xor_assoc, xor_comm, xor_swap, xor_self, xor-zero, xor_fields, xor-halves,
  xor-mod-pow, xor-half,
}
use native.Mathlib.Nat.{mod-eq_of_lt, mod-lt, pow-suc, add_comm}
use bsl45_misc_tools.Crc32.Spec.{shift_bit, shift_byte, times}

pub times-xor :
    (f : ℕ → ℕ)
    → ((a b : ℕ) → f (bit_xor a b) ≡ bit_xor (f a) (f b))
    → (n a b : ℕ) → times n f (bit_xor a b) ≡ bit_xor (times n f a) (times n f b)
times-xor f h zero a b = refl
times-xor f h (suc n) a b = rw (h a b) (times-xor f h n (f a) (f b))

pub xor-lt : (k a b : ℕ) → a < 2 ^ k → b < 2 ^ k → bit_xor a b < 2 ^ k
xor-lt k a b p q = omega (arith, stays, mod-lt (bit_xor a b) {m = 2 ^ k} (omega arith))
  where
    stays : bit_xor a b % 2 ^ k ≡ bit_xor a b
    stays = xor-mod-pow k a b ∙ ap₂ bit_xor (mod-eq_of_lt p) (mod-eq_of_lt q)

module _ (poly : ℕ) where
  -- What the lowest bit adds.
  abbrev feedback : ℕ → ℕ
  feedback x = if x % 2 == 1 then poly else 0

  feedback-xor : (a b : ℕ) → feedback (bit_xor a b) ≡ bit_xor (feedback a) (feedback b)
  feedback-xor a b =
      ground (arith, xor-halves a b, xor_self poly, xor-zero poly, xor_comm 0 poly, xor-zero 0)

  shift_bit-xor :
      (a b : ℕ) → shift_bit poly (bit_xor a b) ≡ bit_xor (shift_bit poly a) (shift_bit poly b)
  unfolding shift_bit
  shift_bit-xor a b =
      ap₂ bit_xor (xor-half a b) (feedback-xor a b)
      ∙ xor_swap (a / 2) (b / 2) (feedback a) (feedback b)

  shift_bit-double : (y : ℕ) → shift_bit poly (y * 2) ≡ y
  unfolding shift_bit
  shift_bit-double y = ground (arith, xor-zero y)

  -- Bits that are not set are shifted out with no effect.
  times-double : (n y : ℕ) → times n (shift_bit poly) (y * 2 ^ n) ≡ y
  times-double zero y = omega arith
  times-double (suc n) y =
      ap (times n (shift_bit poly)) (ap (shift_bit poly) widen ∙ shift_bit-double (y * 2 ^ n))
      ∙ times-double n y
    where
      widen : y * 2 ^ suc n ≡ y * 2 ^ n * 2
      widen = omega (arith, ap (λ (t : ℕ). y * t) (pow-suc 2 n))

  pub shift_byte-xor :
      (a b : ℕ) → shift_byte poly (bit_xor a b) ≡ bit_xor (shift_byte poly a) (shift_byte poly b)
  unfolding shift_byte
  shift_byte-xor = times-xor (shift_bit poly) shift_bit-xor 8

  pub shift_byte-byte : (y : ℕ) → shift_byte poly (y * 256) ≡ y
  unfolding shift_byte
  shift_byte-byte y = times-double 8 y

  -- The lowest byte leaves the register first.
  pub shift_byte_split : (x : ℕ) → shift_byte poly x ≡ bit_xor (shift_byte poly (x % 256)) (x / 256)
  shift_byte_split x =
      ap (shift_byte poly) (omega (arith, xor_fields 8 (x / 256) (x % 256) (omega arith)))
      ∙ shift_byte-xor (x / 256 * 256) (x % 256)
      ∙ xor_comm (shift_byte poly (x / 256 * 256)) (shift_byte poly (x % 256))
      ∙ ap (bit_xor (shift_byte poly (x % 256))) (shift_byte-byte (x / 256))

  -- So do the lowest bytes one after another.
  pub times_split :
      (n x : ℕ)
      → times (suc n) (shift_byte poly) x
        ≡ bit_xor (times (suc n) (shift_byte poly) (x % 256)) (times n (shift_byte poly) (x / 256))
  times_split n x =
      ap (times n (shift_byte poly)) (shift_byte_split x)
      ∙ times-xor (shift_byte poly) shift_byte-xor n (shift_byte poly (x % 256)) (x / 256)

  -- A word enters the register as its bytes do one by one.
  pub shift_byte-word :
      (crc b y : ℕ)
      → b < 256
      → shift_byte poly (bit_xor crc (b + y * 256)) ≡ bit_xor (shift_byte poly (bit_xor crc b)) y
  shift_byte-word crc b y h =
      ap (shift_byte poly) joined
      ∙ shift_byte-xor (bit_xor crc b) (y * 256)
      ∙ ap (bit_xor (shift_byte poly (bit_xor crc b))) (shift_byte-byte y)
    where
      joined : bit_xor crc (b + y * 256) ≡ bit_xor (bit_xor crc b) (y * 256)
      joined = cc (
        xor_fields 8 y b h,
        add_comm b (y * 256),
        xor_comm (y * 256) b,
        xor_assoc crc b (y * 256),
      )

  -- The register stays as wide as the polynomial.
  shift_bit-lt : poly < 2 ^ 32 → (x : ℕ) → x < 2 ^ 32 → shift_bit poly x < 2 ^ 32
  unfolding shift_bit
  shift_bit-lt p x h = xor-lt 32 (x / 2) (feedback x) (omega arith) (ground arith)

  times-lt : poly < 2 ^ 32 → (n x : ℕ) → x < 2 ^ 32 → times n (shift_bit poly) x < 2 ^ 32
  times-lt p zero x h = h
  times-lt p (suc n) x h = times-lt p n (shift_bit poly x) (shift_bit-lt p x h)

  pub shift_byte-lt : poly < 2 ^ 32 → (x : ℕ) → x < 2 ^ 32 → shift_byte poly x < 2 ^ 32
  unfolding shift_byte
  shift_byte-lt p x h = times-lt p 8 x h
