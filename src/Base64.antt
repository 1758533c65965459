-- ===== src/Base64.antt =====
-- base64/b64.c. A C string is the list of its bytes before the final zero; what a function writes
-- into a buffer from its start on is returned as a list, without the zero that it writes last.

mod Chars
mod Group
mod Spec
pub mod RoundTrip
pub mod Strings
pub mod Bounds
mod Tests
use bsl45_misc_tools.Prelude.{
  ℕ, zero, suc, ◌+◌, ◌-◌, ◌*◌, ◌/◌, ◌%◌, ◌^◌, bit_and, bit_or, List, [], ◌∷◌, ◌++◌, Bool, true,
  false, ◌||◌, not, Option, none, some, ltb, ◌==◌, if◌then◌else◌, length, get_or, set, take,
  replicate, count_up,
}

-- The module's tables, and whether they have been filled.
pub record Tables : Type 0 where
  pub g_etable : List ℕ
  pub g_dtable : List ℕ
  pub g_ready : Bool

-- Static storage starts as zeros.
abbrev pub at_start : Tables
at_start = record { g_etable = replicate 64 0; g_dtable = replicate 256 0; g_ready = false }

abbrev nine_rows : ℕ → List ℕ → List ℕ
nine_rows i t =
    set (set (set (set t i (b'A' + i)) (i + 9) (b'J' + i)) (26 + i) (b'a' + i)) (26 + i + 9)
      (b'j' + i)

abbrev eight_rows : ℕ → List ℕ → List ℕ
eight_rows i t = set (set t (i + 18) (b'S' + i)) (26 + i + 18) (b's' + i)

unfoldable pub init_etable : List ℕ → List ℕ
unfolding count_up
init_etable t =
    let letters = count_up 8 0 eight_rows (count_up 9 0 nine_rows t) in
    let digits = count_up 10 0 (λ i s. set s (52 + i) (b'0' + i)) letters in
    set (set digits 62 b'+') 63 b'/'

-- `for (i = first; i <= last; i++) g_dtable[i] = value + (i - first)`, of `n` characters.
abbrev range : ℕ → ℕ → ℕ → List ℕ → List ℕ
range first n value = count_up n first (λ i s. set s i (value + (i - first)))

unfoldable pub init_dtable : List ℕ → List ℕ
unfolding count_up
init_dtable t =
    let invalid = count_up 255 0 (λ i s. set s i 0x80) t in
    let upper = range b'S' 8 18 (range b'J' 9 9 (range b'A' 9 0 invalid)) in
    let lower = range b's' 8 44 (range b'j' 9 35 (range b'a' 9 26 upper)) in
    let digits = range b'0' 10 52 lower in set (set (set digits b'+' 62) b'/' 63) b'=' 0

unfoldable pub b64_init : Tables → Tables
b64_init t = record {
  g_etable = init_etable t.g_etable;
  g_dtable = init_dtable t.g_dtable;
  g_ready = true;
}

-- `if (0 == g_ready) b64_init ()`.
unfoldable pub ensure : Tables → Tables
ensure t = if t.g_ready then t else b64_init t

-- The four characters for a group of which `n` bytes were read, the others being 0.
unfoldable pub encode_group : List ℕ → ℕ → ℕ → ℕ → ℕ → List ℕ
encode_group e n x y z =
    get_or e (x / 2 ^ 2) 0
    ∷ get_or e (bit_or (bit_and x 3 * 2 ^ 4) (y / 2 ^ 4)) 0
    ∷ (if ltb n 2 then b'=' else get_or e (bit_or (bit_and y 0xf * 2 ^ 2) (z / 2 ^ 6)) 0)
    ∷ (if ltb n 3 then b'=' else get_or e (bit_and z 0x3f) 0)
    ∷ []

-- The loop over `plain`; `room` is `nenc - 1 - j`, and what does not fit is left out.
unfoldable pub encode_loop : List ℕ → ℕ → List ℕ → List ℕ
encode_loop e room [] = []
encode_loop e room (x ∷ []) = take room (encode_group e 1 x 0 0)
encode_loop e room (x ∷ y ∷ []) = take room (encode_group e 2 x y 0)
encode_loop e room (x ∷ y ∷ z ∷ p) =
    let written = take room (encode_group e 3 x y z) in
    written ++ encode_loop e (room - length written) p

-- `nenc - 1` is a `size_t`.
unfoldable pub b64_encode : Tables → List ℕ → ℕ → Tables × List ℕ
b64_encode t plain nenc =
    let t' = ensure t in (t', encode_loop t'.g_etable ((nenc + 2 ^ 64 - 1) % 2 ^ 64) plain)

abbrev pub min_decoded_buflen : ℕ → ℕ
min_decoded_buflen el = (el / 4 + 1) * 3 + 1

abbrev pub min_encoded_buflen : ℕ → ℕ
min_encoded_buflen l = (l / 3 + 1) * 4 + 1

-- What a group of four characters leaves in `a` and `b`, with the characters behind it.
pub data Fill : Type 0 where
  invalid : Fill
  filled : List ℕ → List ℕ → List ℕ → Fill

unfoldable pub fill : List ℕ → ℕ → ℕ → List ℕ → List ℕ → List ℕ → Fill
fill d zero k a b p = filled a b p
fill d (suc left) k a b [] = filled a b []
fill d (suc left) k a b (c ∷ p) =
    let v = get_or d c 0 in
    let rest = fill d left (k + 1) (set a k c) (set b k v) p in
    if bit_and v 0x80 == 0 then rest else invalid

-- `o[0]`, `o[1]` and `o[2]`.
unfoldable pub outputs : List ℕ → List ℕ
outputs b =
    bit_or (get_or b 0 0 * 2 ^ 2) (get_or b 1 0 / 2 ^ 4) % 2 ^ 8
    ∷ bit_or (get_or b 1 0 * 2 ^ 4) (get_or b 2 0 / 2 ^ 2) % 2 ^ 8
    ∷ bit_or (get_or b 2 0 * 2 ^ 6) (get_or b 3 0) % 2 ^ 8
    ∷ []

unfoldable pub olen : List ℕ → ℕ
olen a = if get_or a 2 0 == b'=' then 1 else if get_or a 3 0 == b'=' then 2 else 3

pub data Errno : Type 0 where
  einval emsgsize : Errno

-- `failed` is NULL with `errno`, and what has been written before; `stalled` is a loop that has run out of fuel.
pub data Decoded : Type 0 where
  text : List ℕ → Decoded
  failed : Errno → List ℕ → Decoded
  stalled : Decoded

abbrev pub prepend : List ℕ → Decoded → Decoded
prepend w (text s) = text (w ++ s)
prepend w (failed e s) = failed e (w ++ s)
prepend w stalled = stalled

abbrev is_empty : List ℕ → Bool
is_empty [] = true
is_empty (x ∷ xs) = false

-- The rest of a round on a group, `next` being the rounds that follow.
unfoldable pub decode_group : (List ℕ → List ℕ → ℕ → List ℕ → Decoded) → ℕ → Fill → Decoded
decode_group next room invalid = failed einval []
decode_group next room (filled a b p) =
    let written = take room (take (olen a) (outputs b)) in
    prepend written (next a b (room - length written) p)

-- The loop over `encoded`, with fuel; `room` is `ndecoded - 1 - j`.
unfoldable pub decode_loop : List ℕ → ℕ → List ℕ → List ℕ → ℕ → List ℕ → Decoded
unfolding decode_group fill
decode_loop d zero a b room p = stalled
decode_loop d (suc fuel) a b room p =
    let round = decode_group (decode_loop d fuel) room (fill d 4 0 a b p) in
    if is_empty p || (room == 0) then text [] else round

-- Each round reads a character, so their number and one round more are fuel enough.
unfoldable pub b64_decode : Tables → List ℕ → ℕ → Tables × Decoded
b64_decode t encoded ndecoded =
    let t' = ensure t in
    let elen = length encoded in
    let zeros = replicate 4 0 in
    (
      t',
      (if not (elen % 4 == 0) || ltb ndecoded (min_decoded_buflen elen)
          then failed emsgsize []
          else decode_loop t'.g_dtable (suc elen) zeros zeros (ndecoded - 1) encoded),
    )

-- A string on the heap; `none` is NULL. The flag says whether `malloc` serves the request.
unfoldable pub new_b64_encoded : Tables → Bool → Option (List ℕ) → Tables × Option (List ℕ)
new_b64_encoded t served none = (t, none)
new_b64_encoded t served (some plain) =
    let len = length plain in
    if (len == 0) || not served
    then (t, none)
    else (let (t', s) = b64_encode t plain (min_encoded_buflen len) in (t', some s))

-- As it is written, this one calls `b64_encode` too.
unfoldable pub new_b64_decoded : Tables → Bool → Option (List ℕ) → Tables × Option (List ℕ)
new_b64_decoded t served none = (t, none)
new_b64_decoded t served (some encoded) =
    let len = length encoded in
    if (len == 0) || not served
    then (t, none)
    else (let (t', s) = b64_encode t encoded (min_decoded_buflen len) in (t', some s))
