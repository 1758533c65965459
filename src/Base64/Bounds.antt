-- ===== src/Base64/Bounds.antt =====
-- base64/b64.c stays inside its buffers and ends, on every input.
use bsl45_misc_tools.Prelude.{
  ℕ, zero, suc, ◌+◌, ◌-◌, ◌%◌, ◌^◌, ◌≤◌, ◌<◌, inl, inr, arith, List, [], ◌∷◌, ◌||◌, not, ◌==◌, ltb,
  Bool-cases, length, length-append, length-take, take, get_or, set, replicate, bit_and,
}
use bsl45_misc_tools.Base64.{
  Tables, Decoded, text, failed, stalled, Fill, invalid, filled, fill, prepend, outputs, olen,
  decode_group, decode_loop, b64_encode, b64_decode, ensure, min_decoded_buflen,
}
use bsl45_misc_tools.Base64.Chars.{IsState}
use bsl45_misc_tools.Base64.RoundTrip.{encoding}
use bsl45_misc_tools.Base64.Strings.{b64_encode-encoding}

-- `b64_encode` leaves room in `enc` for the final zero, whatever `plain` is, if `enc` has any room.
b64_encode_fits :
    (t : Tables) (plain : List ℕ) (nenc : ℕ)
    → IsState t
    → 0 < nenc
    → nenc < 2 ^ 64
    → length (b64_encode t plain nenc).1 + 1 ≤ nenc
b64_encode_fits t plain nenc h pos small =
    rw (b64_encode-encoding t plain nenc h pos small)
      (omega (arith, length-take (nenc - 1) (encoding plain)))

-- A group that is read leaves fewer characters.
abbrev Leaves : ℕ → Fill → Type 0
Leaves n invalid = Unit
Leaves n (filled a b p) = length p ≤ n

fill-Leaves :
    (d : List ℕ) (left k : ℕ) (a b p : List ℕ) (n : ℕ)
    → length p ≤ n
    → Leaves n (fill d left k a b p)
unfolding fill
fill-Leaves d zero k a b p n h = h
fill-Leaves d (suc left) k a b [] n h = h
fill-Leaves d (suc left) k a b (c ∷ p) n h = elim (Bool-cases (bit_and (get_or d c 0) 0x80 == 0)) [
  | inl good ↦
      rw good (fill-Leaves d left (k + 1) (set a k c) (set b k (get_or d c 0)) p n (omega arith))
  | inr bad ↦ rw bad tt
]

fill_first : (d a b : List ℕ) (c : ℕ) (p : List ℕ) → Leaves (length p) (fill d 4 0 a b (c ∷ p))
unfolding fill
fill_first d a b c p = elim (Bool-cases (bit_and (get_or d c 0) 0x80 == 0)) [
  | inl good ↦
      rw good (fill-Leaves d 3 1 (set a 0 c) (set b 0 (get_or d c 0)) p (length p) (omega arith))
  | inr bad ↦ rw bad tt
]

-- A result that ends, with at most `room` bytes written, whether it is an error or not.
abbrev pub Fits : ℕ → Decoded → Type 0
Fits room (text s) = length s ≤ room
Fits room (failed e s) = length s ≤ room
Fits room stalled = ⊥

prepend-Fits :
    (room : ℕ) (w : List ℕ) (r : Decoded)
    → length w ≤ room
    → Fits (room - length w) r
    → Fits room (prepend w r)
prepend-Fits room w (text s) h f = omega (arith, length-append w s)
prepend-Fits room w (failed e s) h f = omega (arith, length-append w s)
prepend-Fits room w stalled h f = f

decode_group-Fits :
    (next : List ℕ → List ℕ → ℕ → List ℕ → Decoded) (n room : ℕ)
    → ((a b : List ℕ) (r : ℕ) (p : List ℕ) → length p ≤ n → Fits r (next a b r p))
    → (f : Fill) → Leaves n f
    → Fits room (decode_group next room f)
unfolding decode_group
decode_group-Fits next n room h invalid l = omega arith
decode_group-Fits next n room h (filled a b p) l =
    let written = take room (take (olen a) (outputs b)) in
    prepend-Fits room written (next a b (room - length written) p)
      (omega (arith, length-take room (take (olen a) (outputs b))))
      (h a b (room - length written) p l)

decode_loop-Fits :
    (d : List ℕ) (fuel : ℕ) (a b : List ℕ) (room : ℕ) (p : List ℕ)
    → length p < fuel
    → Fits room (decode_loop d fuel a b room p)
unfolding decode_loop
decode_loop-Fits d zero a b room p h = absurd (omega arith)
decode_loop-Fits d (suc fuel) a b room [] h = omega arith
decode_loop-Fits d (suc fuel) a b room (c ∷ p) h =
    let group = fill d 4 0 a b (c ∷ p) in
    let rest : Fits room (decode_group (decode_loop d fuel) room group) =
      decode_group-Fits (decode_loop d fuel) (length p) room
        (λ a' b' r q l. decode_loop-Fits d fuel a' b' r q (omega arith)) group
        (fill_first d a b c p) in
    elim (Bool-cases (room == 0)) [ inl full ↦ rw full (omega arith) | inr more ↦ rw more rest ]

-- `b64_decode` ends on every input. It writes at most `ndecoded - 1` bytes before the final zero, and no
-- more before it returns with an error, EINVAL after some groups or EMSGSIZE.
pub b64_decode-Fits :
    (t : Tables) (encoded : List ℕ) (ndecoded : ℕ)
    → Fits (ndecoded - 1) (b64_decode t encoded ndecoded).1
unfolding b64_decode
b64_decode-Fits t encoded ndecoded =
    elim (Bool-cases
      (not (length encoded % 4 == 0) || ltb ndecoded (min_decoded_buflen (length encoded)))) [
        | inl refused ↦ rw refused (omega arith)
        | inr accepted ↦ rw accepted (
            decode_loop-Fits (ensure t).g_dtable (suc (length encoded)) (replicate 4 0)
              (replicate 4 0) (ndecoded - 1) encoded (omega arith))
      ]
