-- ===== src/Base64/RoundTrip.antt =====
-- What base64/b64.c encodes, it decodes.
use bsl45_misc_tools.Prelude.{
  ℕ, zero, suc, ◌+◌, ◌-◌, ◌*◌, ◌/◌, ◌≤◌, ◌<◌, ◌≡◌, ◌≢◌, refl, sym, arith, List, [], ◌∷◌, ◌++◌, All,
  IsByte, length, get_or, take, take-append, take_all, bit_and, ◌==◌, false,
}
use bsl45_misc_tools.Base64.{text, encode_group, encode_loop, outputs, olen, prepend, decode_loop}
use bsl45_misc_tools.Base64.Chars.{etable, dtable, char_lem, padding_lem}
use bsl45_misc_tools.Base64.Group.{
  char, four, i₀, i₁, i₂, i₃, encode_three, encode_two, encode_one, outputs_lem, olen_three,
  olen_two, olen_one,
}

-- The encoding of a whole string, with padding.
unfoldable pub encoding : List ℕ → List ℕ
encoding [] = []
encoding (x ∷ []) = encode_group etable 1 x 0 0
encoding (x ∷ y ∷ []) = encode_group etable 2 x y 0
encoding (x ∷ y ∷ z ∷ p) = encode_group etable 3 x y z ++ encoding p

-- What the loop writes is as much of the encoding as there is room for.
pub encode_loop_lem : (room : ℕ) (p : List ℕ) → encode_loop etable room p ≡ take room (encoding p)
unfolding encode_loop encoding
encode_loop_lem zero [] = refl
encode_loop_lem (suc room) [] = refl
encode_loop_lem room (x ∷ []) = refl
encode_loop_lem room (x ∷ y ∷ []) = refl
encode_loop_lem room (x ∷ y ∷ z ∷ p) =
    rw (encode_loop_lem (room - length (take room (encode_group etable 3 x y z))) p)
      (sym (take-append room (encode_group etable 3 x y z) (encoding p)))

pub length-encoding : (p : List ℕ) → length (encoding p) ≡ (length p + 2) / 3 * 4
unfolding encoding encode_group
length-encoding [] = refl
length-encoding (x ∷ []) = refl
length-encoding (x ∷ y ∷ []) = refl
length-encoding (x ∷ y ∷ z ∷ p) = omega (arith, length-encoding p)

valid : (i : ℕ) → i < 64 → bit_and (get_or dtable (char i) 0) 0x80 ≡ 0
valid i h = let (e, v, n) = char_lem i h in rw e v

padding_valid : bit_and (get_or dtable b'=' 0) 0x80 ≡ 0
padding_valid = rw padding_lem

-- A round of the decoding loop on four valid characters.
round :
    (fuel a₀ a₁ a₂ a₃ b₀ b₁ b₂ b₃ room w x y z : ℕ) (p : List ℕ)
    → room ≢ 0
    → bit_and (get_or dtable w 0) 0x80 ≡ 0
    → bit_and (get_or dtable x 0) 0x80 ≡ 0
    → bit_and (get_or dtable y 0) 0x80 ≡ 0
    → bit_and (get_or dtable z 0) 0x80 ≡ 0
    → let a = four w x y z in
      let b =
        four (get_or dtable w 0) (get_or dtable x 0) (get_or dtable y 0) (get_or dtable z 0) in
      let written = take room (take (olen a) (outputs b)) in
      decode_loop dtable (suc fuel) (four a₀ a₁ a₂ a₃) (four b₀ b₁ b₂ b₃) room (w ∷ x ∷ y ∷ z ∷ p)
      ≡ prepend written (decode_loop dtable fuel a b (room - length written) p)
unfolding decode_loop
round fuel a₀ a₁ a₂ a₃ b₀ b₁ b₂ b₃ room w x y z p hr hw hx hy hz = rw (has_room, hw, hx, hy, hz)
  where
    has_room : (room == 0) ≡ false
    has_room = ground arith

-- The encoding of a string decodes to it, with room and fuel enough.
pub trip :
    (fuel a₀ a₁ a₂ a₃ b₀ b₁ b₂ b₃ room : ℕ) (p : List ℕ)
    → length p < fuel
    → length p ≤ room
    → All IsByte p
    → decode_loop dtable fuel (four a₀ a₁ a₂ a₃) (four b₀ b₁ b₂ b₃) room (encoding p) ≡ text p
unfolding encoding
trip zero a₀ a₁ a₂ a₃ b₀ b₁ b₂ b₃ room p hf hr hb = absurd (omega arith)
trip (suc fuel) a₀ a₁ a₂ a₃ b₀ b₁ b₂ b₃ room [] hf hr hb = unfold decode_loop in refl
trip (suc fuel) a₀ a₁ a₂ a₃ b₀ b₁ b₂ b₃ room (x ∷ []) hf hr hb = rw (
  encode_one x hb.0,
  round fuel a₀ a₁ a₂ a₃ b₀ b₁ b₂ b₃ room (char (i₀ x)) (char (i₁ x 0)) b'=' b'=' [] (omega arith)
      (valid (i₀ x) (omega arith)) (valid (i₁ x 0) (omega arith)) padding_valid padding_valid,
  (char_lem (i₀ x) (omega arith)).0,
  (char_lem (i₁ x 0) (omega arith)).0,
  padding_lem,
  olen_one (char (i₀ x)) (char (i₁ x 0)) b'=',
  outputs_lem x 0 0 hb.0 (omega arith) (omega arith),
  take_all room (x ∷ []) hr,
  trip fuel (char (i₀ x)) (char (i₁ x 0)) b'=' b'=' (i₀ x) (i₁ x 0) 0 0 (room - 1) [] (omega arith)
      (omega arith) tt,
)
trip (suc fuel) a₀ a₁ a₂ a₃ b₀ b₁ b₂ b₃ room (x ∷ y ∷ []) hf hr hb = rw (
  encode_two x y hb.0 hb.1.0,
  round fuel a₀ a₁ a₂ a₃ b₀ b₁ b₂ b₃ room (char (i₀ x)) (char (i₁ x y)) (char (i₂ y 0)) b'=' []
      (omega arith) (valid (i₀ x) (omega arith)) (valid (i₁ x y) (omega arith))
      (valid (i₂ y 0) (omega arith)) padding_valid,
  (char_lem (i₀ x) (omega arith)).0,
  (char_lem (i₁ x y) (omega arith)).0,
  (char_lem (i₂ y 0) (omega arith)).0,
  padding_lem,
  olen_two (char (i₀ x)) (char (i₁ x y)) (i₂ y 0) (omega arith),
  outputs_lem x y 0 hb.0 hb.1.0 (omega arith),
  take_all room (x ∷ y ∷ []) hr,
  trip fuel (char (i₀ x)) (char (i₁ x y)) (char (i₂ y 0)) b'=' (i₀ x) (i₁ x y) (i₂ y 0) 0 (room - 2)
      [] (omega arith) (omega arith) tt,
)
trip (suc fuel) a₀ a₁ a₂ a₃ b₀ b₁ b₂ b₃ room (x ∷ y ∷ z ∷ p) hf hr hb = rw (
  encode_three x y z hb.0 hb.1.0 hb.1.1.0,
  round fuel a₀ a₁ a₂ a₃ b₀ b₁ b₂ b₃ room (char (i₀ x)) (char (i₁ x y)) (char (i₂ y z))
      (char (i₃ z)) (encoding p) (omega arith) (valid (i₀ x) (omega arith))
      (valid (i₁ x y) (omega arith)) (valid (i₂ y z) (omega arith)) (valid (i₃ z) (omega arith)),
  (char_lem (i₀ x) (omega arith)).0,
  (char_lem (i₁ x y) (omega arith)).0,
  (char_lem (i₂ y z) (omega arith)).0,
  (char_lem (i₃ z) (omega arith)).0,
  olen_three (char (i₀ x)) (char (i₁ x y)) (i₂ y z) (i₃ z) (omega arith) (omega arith),
  outputs_lem x y z hb.0 hb.1.0 hb.1.1.0,
  take_all room (x ∷ y ∷ z ∷ []) (omega arith),
  trip fuel (char (i₀ x)) (char (i₁ x y)) (char (i₂ y z)) (char (i₃ z)) (i₀ x) (i₁ x y) (i₂ y z)
      (i₃ z) (room - 3) p (omega arith) (omega arith) hb.1.1.1,
)
