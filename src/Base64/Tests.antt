-- ===== src/Base64/Tests.antt =====
-- Runs of base64/b64.c, and its theorems at concrete inputs.
use bsl45_misc_tools.Prelude.{
  ℕ, length, ◌/◌, ◌+◌, ◌*◌, ◌≡◌, ◌≢◌, refl, inl, arith, List, [], ◌∷◌, true, some, take,
}
use bsl45_misc_tools.Base64.{
  at_start, text, failed, einval, emsgsize, b64_init, ensure, encode_group, encode_loop, b64_encode,
  decode_loop, b64_decode, outputs, olen, new_b64_decoded, init_etable, init_dtable,
}
use bsl45_misc_tools.Base64.Chars.{IsState}
use bsl45_misc_tools.Base64.Spec.{base64}
use bsl45_misc_tools.Base64.Strings.{ready, b64_encode_lem, b64_decode-encode, new_b64_decoded-ne}
use bsl45_misc_tools.Base64.Bounds.{b64_decode-Fits, Fits}

-- "Ma!!"
abbrev plain : List ℕ
plain = 77 ∷ 97 ∷ 33 ∷ 33 ∷ []

at_start-IsState : IsState at_start
at_start-IsState = inl refl

-- "TWEhIQ=="
b64_encode-plain : (b64_encode at_start plain 9).1 ≡ 84 ∷ 87 ∷ 69 ∷ 104 ∷ 73 ∷ 81 ∷ 61 ∷ 61 ∷ []
unfolding b64_encode ensure b64_init init_etable encode_loop encode_group
b64_encode-plain = refl

b64_decode_refuses :
    ((b64_decode at_start (84 ∷ 87 ∷ 69 ∷ []) 99).1 ≡ failed emsgsize [])
    × ((b64_decode at_start (84 ∷ 87 ∷ 69 ∷ 104 ∷ 33 ∷ 33 ∷ 33 ∷ 33 ∷ []) 99).1
        ≡ failed einval (77 ∷ 97 ∷ 33 ∷ []))
    × ((b64_decode at_start (84 ∷ 87 ∷ 33 ∷ 61 ∷ []) 99).1 ≡ failed einval [])
unfolding b64_decode ensure b64_init init_dtable decode_loop outputs olen
b64_decode_refuses = (refl, refl, refl)

-- A byte that is not in the alphabet is taken for an `A`: `init_dtable` leaves entry 255 as it was.
b64_decode_255 : (b64_decode at_start (255 ∷ 255 ∷ 255 ∷ 255 ∷ []) 99).1 ≡ text (0 ∷ 0 ∷ 0 ∷ [])
unfolding b64_decode ensure b64_init init_dtable decode_loop outputs olen
b64_decode_255 = refl

b64_encode_lem_example : b64_encode at_start plain 5 ≡ (ready, take 4 (base64 plain))
b64_encode_lem_example =
    b64_encode_lem at_start plain 5 at_start-IsState
      (omega arith, (omega arith, (omega arith, (omega arith, tt)))) (omega arith) (omega arith)

b64_decode-encode_example :
    (b64_decode (b64_encode at_start plain 9).0 (b64_encode at_start plain 9).1 10).1 ≡ text plain
unfolding b64_encode ensure b64_init init_etable encode_loop encode_group
b64_decode-encode_example =
    b64_decode-encode at_start plain 9 10 at_start-IsState (omega arith) (omega arith) (omega arith)
      (omega arith)

b64_decode-Fits_example : Fits 9 (b64_decode at_start (84 ∷ 87 ∷ 69 ∷ 104 ∷ []) 10).1
b64_decode-Fits_example = b64_decode-Fits at_start (84 ∷ 87 ∷ 69 ∷ 104 ∷ []) 10

new_b64_decoded-ne_example :
    ((new_b64_decoded at_start true (some (base64 plain))).1
      ≡ some (take ((length (base64 plain) / 4 + 1) * 3) (base64 (base64 plain))))
    × ((new_b64_decoded at_start true (some (base64 plain))).1 ≢ some plain)
new_b64_decoded-ne_example =
    new_b64_decoded-ne at_start plain at_start-IsState
      (omega arith, (omega arith, (omega arith, (omega arith, tt)))) (omega arith) (omega arith)
