-- ===== src/Base64/Group.antt =====
-- One group of base64/b64.c, encoded and decoded again.
use bsl45_misc_tools.Prelude.{
  ℕ, ◌+◌, ◌*◌, ◌/◌, ◌%◌, ◌^◌, ◌<◌, ◌≡◌, refl, arith, List, [], ◌∷◌, IsByte, get_or, bit_and, bit_or,
  bit_and_mask, or_fields,
}
use bsl45_misc_tools.Base64.{encode_group, outputs, olen}
use bsl45_misc_tools.Base64.Chars.{etable, char_lem}

abbrev pub char : ℕ → ℕ
char i = get_or etable i 0

abbrev pub four : ℕ → ℕ → ℕ → ℕ → List ℕ
four w x y z = w ∷ x ∷ y ∷ z ∷ []

-- The four indices of a group.
abbrev pub i₀ : ℕ → ℕ
i₀ x = x / 4

abbrev pub i₁ : ℕ → ℕ → ℕ
i₁ x y = x % 4 * 16 + y / 16

abbrev pub i₂ : ℕ → ℕ → ℕ
i₂ y z = y % 16 * 4 + z / 64

abbrev pub i₃ : ℕ → ℕ
i₃ z = z % 64

mid-index : (x y : ℕ) → IsByte y → bit_or (bit_and x 3 * 2 ^ 4) (y / 2 ^ 4) ≡ i₁ x y
mid-index x y h = ground (arith, bit_and_mask 2 x, or_fields 4 (x % 4) (y / 16))

low-index : (y z : ℕ) → IsByte z → bit_or (bit_and y 0xf * 2 ^ 2) (z / 2 ^ 6) ≡ i₂ y z
low-index y z h = ground (arith, bit_and_mask 4 y, or_fields 2 (y % 16) (z / 64))

pub encode_three :
    (x y z : ℕ)
    → IsByte x
    → IsByte y
    → IsByte z
    → encode_group etable 3 x y z ≡ four (char (i₀ x)) (char (i₁ x y)) (char (i₂ y z)) (char (i₃ z))
unfolding encode_group
encode_three x y z hx hy hz = rw (mid-index x y hy, low-index y z hz, bit_and_mask 6 z)

pub encode_two :
    (x y : ℕ)
    → IsByte x
    → IsByte y
    → encode_group etable 2 x y 0 ≡ four (char (i₀ x)) (char (i₁ x y)) (char (i₂ y 0)) b'='
unfolding encode_group
encode_two x y hx hy = rw (mid-index x y hy, low-index y 0 (omega arith))

pub encode_one :
    (x : ℕ) → IsByte x → encode_group etable 1 x 0 0 ≡ four (char (i₀ x)) (char (i₁ x 0)) b'=' b'='
unfolding encode_group
encode_one x hx = rw (mid-index x 0 (omega arith))

-- The bytes that the indices of a group stand for.
pub outputs_lem :
    (x y z : ℕ)
    → IsByte x
    → IsByte y
    → IsByte z
    → outputs (four (i₀ x) (i₁ x y) (i₂ y z) (i₃ z)) ≡ x ∷ y ∷ z ∷ []
unfolding outputs
outputs_lem x y z hx hy hz = ground (
  arith,
  or_fields 2 (i₀ x) (i₁ x y / 16),
  or_fields 4 (i₁ x y) (i₂ y z / 4),
  or_fields 6 (i₂ y z) (i₃ z),
)

-- How many bytes a group gives.
pub olen_three : (w x i j : ℕ) → i < 64 → j < 64 → olen (four w x (char i) (char j)) ≡ 3
unfolding olen
olen_three w x i j hi hj = ground (arith, char_lem i hi, char_lem j hj)

pub olen_two : (w x i : ℕ) → i < 64 → olen (four w x (char i) b'=') ≡ 2
unfolding olen
olen_two w x i hi = ground (arith, char_lem i hi)

pub olen_one : (w x z : ℕ) → olen (four w x b'=' z) ≡ 1
unfolding olen
olen_one w x z = refl
