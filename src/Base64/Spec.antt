-- ===== src/Base64/Spec.antt =====
-- The encoding that base64/b64.c is for, as RFC 4648 describes it, and that `encode_group` gives its
-- groups.
use bsl45_misc_tools.Prelude.{
  ℕ, ◌+◌, ◌*◌, ◌/◌, ◌%◌, ◌-◌, ◌^◌, ◌<◌, ◌≡◌, refl, ◌∙◌, sym, ap, ap₂, arith, List, [], ◌∷◌, ◌++◌,
  All, IsByte, Bool, true, ltb, ◌==◌, if◌then◌else◌, get_or, length, all_below, all_below_sound,
}
use bsl45_misc_tools.Base64.Chars.{etable}
use bsl45_misc_tools.Base64.Group.{char, four, i₀, i₁, i₂, i₃, encode_three, encode_two, encode_one}
use bsl45_misc_tools.Base64.RoundTrip.{encoding, length-encoding}

-- The alphabet: `A` to `Z`, `a` to `z`, `0` to `9`, `+` and `/`.
abbrev pub alphabet : ℕ → ℕ
alphabet i =
    if ltb i 26
    then b'A' + i
    else if ltb i 52
    then b'a' + (i - 26)
    else if ltb i 62
    then b'0' + (i - 52)
    else if i == 62
    then b'+'
    else b'/'

-- Three bytes are a number of 24 bits.
abbrev pub bits_24 : ℕ → ℕ → ℕ → ℕ
bits_24 x y z = x * 2 ^ 16 + y * 2 ^ 8 + z

-- Each group of three bytes is written as the four digits to the base 64 of its number; a last group
-- of one or two bytes has as many digits as hold bits of them, and is padded.
abbrev pub base64 : List ℕ → List ℕ
base64 [] = []
base64 (x ∷ []) =
    let n = bits_24 x 0 0 in alphabet (n / 2 ^ 18) ∷ alphabet (n / 2 ^ 12 % 64) ∷ b'=' ∷ b'=' ∷ []
base64 (x ∷ y ∷ []) =
    let n = bits_24 x y 0 in
    alphabet (n / 2 ^ 18) ∷ alphabet (n / 2 ^ 12 % 64) ∷ alphabet (n / 2 ^ 6 % 64) ∷ b'=' ∷ []
base64 (x ∷ y ∷ z ∷ p) =
    let n = bits_24 x y z in
    (alphabet (n / 2 ^ 18)
      ∷ alphabet (n / 2 ^ 12 % 64)
      ∷ alphabet (n / 2 ^ 6 % 64)
      ∷ alphabet (n % 64)
      ∷ [])
    ++ base64 p

abbrev agrees : ℕ → Bool
agrees i = get_or etable i 0 == alphabet i

agrees_checked : all_below 64 agrees ≡ true
unfolding all_below etable
agrees_checked = refl

-- The table of the encoder is the alphabet.
char-alphabet : (i : ℕ) → i < 64 → char i ≡ alphabet i
char-alphabet i h = ground (arith, all_below_sound 64 agrees agrees_checked i h)

-- The digits of three bytes.
digits :
    (x y z : ℕ)
    → IsByte x
    → IsByte y
    → IsByte z
    → (char (i₀ x) ≡ alphabet (bits_24 x y z / 2 ^ 18))
      × (char (i₁ x y) ≡ alphabet (bits_24 x y z / 2 ^ 12 % 64))
      × (char (i₂ y z) ≡ alphabet (bits_24 x y z / 2 ^ 6 % 64))
      × (char (i₃ z) ≡ alphabet (bits_24 x y z % 64))
digits x y z hx hy hz =
    let n = bits_24 x y z in
    let e₀ : i₀ x ≡ n / 2 ^ 18 = omega arith in
    let e₁ : i₁ x y ≡ n / 2 ^ 12 % 64 = omega arith in
    let e₂ : i₂ y z ≡ n / 2 ^ 6 % 64 = omega arith in
    let e₃ : i₃ z ≡ n % 64 = omega arith in
    (
      char-alphabet (i₀ x) (omega arith) ∙ ap (λ i. alphabet i) e₀,
      char-alphabet (i₁ x y) (omega arith) ∙ ap (λ i. alphabet i) e₁,
      char-alphabet (i₂ y z) (omega arith) ∙ ap (λ i. alphabet i) e₂,
      char-alphabet (i₃ z) (omega arith) ∙ ap (λ i. alphabet i) e₃,
    )

pub encoding-base64 : (p : List ℕ) → All IsByte p → encoding p ≡ base64 p
unfolding encoding
encoding-base64 [] h = refl
encoding-base64 (x ∷ []) h =
    let (a, b, c, d) = digits x 0 0 h.0 (omega arith) (omega arith) in
    encode_one x h.0 ∙ ap₂ (λ v w. four v w b'=' b'=') a b
encoding-base64 (x ∷ y ∷ []) h =
    let (a, b, c, d) = digits x y 0 h.0 h.1.0 (omega arith) in
    encode_two x y h.0 h.1.0
    ∙ ap₂ (λ v w. four v w (char (i₂ y 0)) b'=') a b
    ∙ ap
        (λ w.
          four (alphabet (bits_24 x y 0 / 2 ^ 18)) (alphabet (bits_24 x y 0 / 2 ^ 12 % 64)) w b'=')
        c
encoding-base64 (x ∷ y ∷ z ∷ p) h =
    let (a, b, c, d) = digits x y z h.0 h.1.0 h.1.1.0 in
    let n = bits_24 x y z in
    ap₂ (λ u v. u ++ v) (encode_three x y z h.0 h.1.0 h.1.1.0) (encoding-base64 p h.1.1.1)
    ∙ ap₂ (λ v w. four v w (char (i₂ y z)) (char (i₃ z)) ++ base64 p) a b
    ∙ ap₂ (λ v w. four (alphabet (n / 2 ^ 18)) (alphabet (n / 2 ^ 12 % 64)) v w ++ base64 p) c d

alphabet-IsByte : (i : ℕ) → IsByte (alphabet i)
alphabet-IsByte i = ground arith

-- An encoding is a string of bytes.
pub base64-IsByte : (p : List ℕ) → All IsByte (base64 p)
base64-IsByte [] = tt
base64-IsByte (x ∷ []) = (
  alphabet-IsByte (bits_24 x 0 0 / 2 ^ 18),
  (alphabet-IsByte (bits_24 x 0 0 / 2 ^ 12 % 64), (omega arith, (omega arith, tt))),
)
base64-IsByte (x ∷ y ∷ []) = (
  alphabet-IsByte (bits_24 x y 0 / 2 ^ 18),
  (
    alphabet-IsByte (bits_24 x y 0 / 2 ^ 12 % 64),
    (alphabet-IsByte (bits_24 x y 0 / 2 ^ 6 % 64), (omega arith, tt)),
  ),
)
base64-IsByte (x ∷ y ∷ z ∷ p) = (
  alphabet-IsByte (bits_24 x y z / 2 ^ 18),
  (
    alphabet-IsByte (bits_24 x y z / 2 ^ 12 % 64),
    (
      alphabet-IsByte (bits_24 x y z / 2 ^ 6 % 64),
      (alphabet-IsByte (bits_24 x y z % 64), base64-IsByte p),
    ),
  ),
)

pub length-base64 : (p : List ℕ) → All IsByte p → length (base64 p) ≡ (length p + 2) / 3 * 4
length-base64 p h = ap (λ l. length l) (sym (encoding-base64 p h)) ∙ length-encoding p
