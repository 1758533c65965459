-- ===== src/Crc32/Spec.antt =====
-- What a reflected CRC is, a bit at a time: the register is divided by the polynomial.
use bsl45_misc_tools.Prelude.{ℕ, zero, suc, ◌/◌, ◌%◌, List, [], ◌∷◌, bit_xor, ◌==◌, if◌then◌else◌}

-- The reflected polynomials of `crc32` and of `crc32c`.
abbrev pub poly_ieee : ℕ
poly_ieee = 0xedb88320

abbrev pub poly_castagnoli : ℕ
poly_castagnoli = 0x82f63b78

-- One bit leaves the register; if it is set, the polynomial is subtracted.
unfoldable pub shift_bit : ℕ → ℕ → ℕ
shift_bit poly x = bit_xor (x / 2) (if x % 2 == 1 then poly else 0)

abbrev pub times {ℓ} : {A : Type ℓ} → ℕ → (A → A) → A → A
times zero f x = x
times (suc n) f x = times n f (f x)

unfoldable pub shift_byte : ℕ → ℕ → ℕ
unfolding shift_bit
shift_byte poly x = times 8 (shift_bit poly) x

-- Each byte enters at the low end of the register, which then gives out eight bits.
abbrev pub feed : ℕ → ℕ → List ℕ → ℕ
feed poly crc [] = crc
feed poly crc (b ∷ p) = feed poly (shift_byte poly (bit_xor crc b)) p
