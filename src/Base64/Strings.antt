-- ===== src/Base64/Strings.antt =====
-- The functions of base64/b64.c on whole strings.
use bsl45_misc_tools.Prelude.{
  ℕ, suc, ◌+◌, ◌-◌, ◌*◌, ◌/◌, ◌%◌, ◌^◌, ◌≤◌, ◌<◌, ◌≡◌, ◌≢◌, refl, ◌∙◌, sym, ap, arith, List, All,
  IsByte, length, length-take, take, take_all, true, Option, none, some, inr,
}
use bsl45_misc_tools.Base64.{
  Tables, text, b64_encode, b64_decode, new_b64_encoded, new_b64_decoded, min_encoded_buflen,
  min_decoded_buflen,
}
use bsl45_misc_tools.Base64.Chars.{etable, dtable, IsState, ensure_lem}
use bsl45_misc_tools.Base64.Spec.{base64, encoding-base64, base64-IsByte, length-base64}
use bsl45_misc_tools.Base64.RoundTrip.{encoding, encode_loop_lem, length-encoding, trip}

abbrev pub ready : Tables
ready = record { g_etable = etable; g_dtable = dtable; g_ready = true }

ready-IsState : IsState ready
ready-IsState = inr refl

-- In terms of the groups that the code makes.
pub b64_encode-encoding :
    (t : Tables) (plain : List ℕ) (nenc : ℕ)
    → IsState t
    → 0 < nenc
    → nenc < 2 ^ 64
    → b64_encode t plain nenc ≡ (ready, take (nenc - 1) (encoding plain))
unfolding b64_encode
b64_encode-encoding t plain nenc h pos small =
    rw (ensure_lem t h, encode_loop_lem ((nenc + 2 ^ 64 - 1) % 2 ^ 64) plain)
      (ap (λ n. (ready, take n (encoding plain))) room)
  where
    room : (nenc + 2 ^ 64 - 1) % 2 ^ 64 ≡ nenc - 1
    room = omega arith

-- For any string of bytes, from whatever state the module is in, and for `nenc` from 1 to 2 ^ 64 -
-- 1, `b64_encode` writes the longest prefix of the base64 encoding of RFC 4648, with its padding,
-- that fits into `nenc` bytes with the final zero, and leaves the tables as `b64_init` fills them.
pub b64_encode_lem :
    (t : Tables) (plain : List ℕ) (nenc : ℕ)
    → IsState t
    → All IsByte plain
    → 0 < nenc
    → nenc < 2 ^ 64
    → b64_encode t plain nenc ≡ (ready, take (nenc - 1) (base64 plain))
b64_encode_lem t plain nenc h hb pos small =
    b64_encode-encoding t plain nenc h pos small
    ∙ ap (λ l. (ready, take (nenc - 1) l)) (encoding-base64 plain hb)

-- With room for the whole encoding all of it is written.
pub b64_encode_whole :
    (t : Tables) (plain : List ℕ) (nenc : ℕ)
    → IsState t
    → min_encoded_buflen (length plain) ≤ nenc
    → nenc < 2 ^ 64
    → b64_encode t plain nenc ≡ (ready, encoding plain)
b64_encode_whole t plain nenc h big small =
    b64_encode-encoding t plain nenc h (omega arith) small
    ∙ ap (λ s. (ready, s))
        (take_all (nenc - 1) (encoding plain) (omega (arith, length-encoding plain)))

b64_decode-encoding :
    (plain : List ℕ) (ndecoded : ℕ)
    → All IsByte plain
    → min_decoded_buflen (length (encoding plain)) ≤ ndecoded
    → (b64_decode ready (encoding plain) ndecoded).1 ≡ text plain
unfolding b64_decode
b64_decode-encoding plain ndecoded hb big = rw (ensure_lem ready ready-IsState) (
    ground (
      arith,
      trip (suc (length (encoding plain))) 0 0 0 0 0 0 0 0 (ndecoded - 1) plain,
      length-encoding plain,
      hb,
    ))

-- Encoding and then decoding gives the string back, from whatever state the module is in, if both
-- buffers have at least the size that the header's macros ask for.
pub b64_decode-encode :
    (t : Tables) (plain : List ℕ) (nenc ndecoded : ℕ)
    → IsState t
    → All IsByte plain
    → min_encoded_buflen (length plain) ≤ nenc
    → nenc < 2 ^ 64
    → min_decoded_buflen (length (b64_encode t plain nenc).1) ≤ ndecoded
    → (b64_decode (b64_encode t plain nenc).0 (b64_encode t plain nenc).1 ndecoded).1 ≡ text plain
b64_decode-encode t plain nenc ndecoded h hb big small =
    rw (b64_encode_whole t plain nenc h big small) (b64_decode-encoding plain ndecoded hb)

-- `new_b64_encoded` returns the whole encoding of any string but the empty one, if memory is there.
new_b64_encoded_lem :
    (t : Tables) (plain : List ℕ)
    → IsState t
    → 0 < length plain
    → length plain < 2 ^ 62
    → new_b64_encoded t true (some plain) ≡ (ready, some (encoding plain))
unfolding new_b64_encoded
new_b64_encoded_lem t plain h pos small =
    rw (b64_encode_whole t plain (min_encoded_buflen (length plain)) h (omega arith) (omega arith))
      (ground arith)

abbrev written_length : Option (List ℕ) → ℕ
written_length none = 0
written_length (some s) = length s

-- What `new_b64_decoded` returns is an encoding, cut off.
new_b64_decoded_lem :
    (t : Tables) (s : List ℕ)
    → IsState t
    → 0 < length s
    → length s < 2 ^ 63
    → (new_b64_decoded t true (some s)).1 ≡ some (take ((length s / 4 + 1) * 3) (encoding s))
unfolding new_b64_decoded
new_b64_decoded_lem t s h pos small =
    rw (b64_encode-encoding t s (min_decoded_buflen (length s)) h (omega arith) (omega arith))
      (ground arith)

-- Of the encoding of a string of bytes, not empty and shorter than 2 ^ 62, `new_b64_decoded`
-- returns the encoding once more, if memory is there: what it writes is the encoding of the
-- encoding, cut to the size of the decoding buffer. It never is the string that was encoded.
pub new_b64_decoded-ne :
    (t : Tables) (plain : List ℕ)
    → IsState t
    → All IsByte plain
    → 0 < length plain
    → length plain < 2 ^ 62
    → ((new_b64_decoded t true (some (base64 plain))).1
        ≡ some (take ((length (base64 plain) / 4 + 1) * 3) (base64 (base64 plain))))
      × ((new_b64_decoded t true (some (base64 plain))).1 ≢ some plain)
new_b64_decoded-ne t plain h hb pos small =
    let twice = base64 (base64 plain) in
    let n = (length (base64 plain) / 4 + 1) * 3 in
    let sizes = length-base64 plain hb in
    let written =
      new_b64_decoded_lem t (base64 plain) h (omega (arith, sizes)) (omega (arith, sizes))
      ∙ ap (λ l. some (take n l)) (encoding-base64 (base64 plain) (base64-IsByte plain)) in
    (
      written,
      λ e. omega (
        arith,
        ap written_length (sym written ∙ e),
        length-take n twice,
        sizes,
        length-base64 (base64 plain) (base64-IsByte plain),
      ),
    )
