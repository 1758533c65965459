-- ===== src/Crc32/Correct.antt =====
-- The loops of crc32.intel/crc32.c, and the functions that run them, against the bits.
use bsl45_misc_tools.Prelude.{
  ℕ, zero, suc, ◌+◌, ◌-◌, ◌*◌, ◌/◌, ◌^◌, ◌≤◌, ◌<◌, ◌≡◌, refl, ◌∙◌, subst, ap, arith, bit_and,
  bit_xor, List, [], ◌∷◌, ◌++◌, append_assoc, length, length-append, Bool, All, IsByte, All-split,
  cut, done, bit_and_mask, Bool-cases, ltb, inl, inr,
}
use bsl45_misc_tools.Crc32.Spec.{poly_ieee, poly_castagnoli, feed, shift_byte}
use bsl45_misc_tools.Crc32.Shift.{xor-lt}
use bsl45_misc_tools.Crc32.Tables.{crc32_table, crc32c_table, sctp_crc_tableil8_o32}
use bsl45_misc_tools.Crc32.Code.{
  byte_loop, slice_loop, ones, sub_32, crc32, singletable_crc32c, crc32c_sb8_64_bit,
  multitable_crc32c, crc32c,
}
use bsl45_misc_tools.Crc32.Checked.{
  IsTable, crc32_table-IsTable, crc32c_table-IsTable, sctp_crc_tableil8_o32-IsTable,
}
use bsl45_misc_tools.Crc32.Rounds.{byte_round, slice_round, byte_shift-lt}

pub feed-append :
    (poly crc : ℕ) (xs ys : List ℕ) → feed poly crc (xs ++ ys) ≡ feed poly (feed poly crc xs) ys
feed-append poly crc [] ys = refl
feed-append poly crc (x ∷ xs) ys = feed-append poly (shift_byte poly (bit_xor crc x)) xs ys

feed-lt :
    (crc : ℕ) (xs : List ℕ) → crc < 2 ^ 32 → All IsByte xs → feed poly_castagnoli crc xs < 2 ^ 32
feed-lt crc [] h k = h
feed-lt crc (x ∷ xs) h k =
    feed-lt (shift_byte poly_castagnoli (bit_xor crc x)) xs
      (byte_shift-lt _ (xor-lt 32 crc x h (omega arith))) k.1

-- A byte loop consumes the bytes before `rest`, and feeds them.
byte_loop_lem :
    (poly : ℕ) (t : List ℕ)
    → IsTable poly 1 t
    → (crc n : ℕ) (xs rest : List ℕ) → length xs ≡ n
    → All IsByte xs
    → byte_loop t crc (xs ++ rest) n ≡ done (feed poly crc xs, rest)
unfolding byte_loop
byte_loop_lem poly t ht crc zero [] rest e h = refl
byte_loop_lem poly t ht crc zero (x ∷ xs) rest e h = absurd (omega arith)
byte_loop_lem poly t ht crc (suc n) [] rest e h = absurd (omega arith)
byte_loop_lem poly t ht crc (suc n) (x ∷ xs) rest e h =
    rw (byte_round poly t ht crc x h.0)
      (byte_loop_lem poly t ht (shift_byte poly (bit_xor crc x)) n xs rest (omega arith) h.1)

-- So does the sliced loop, eight bytes at a time.
slice_loop_lem :
    (big : Bool) (crc n : ℕ) (xs rest : List ℕ)
    → crc < 2 ^ 32
    → length xs ≡ n * 8
    → All IsByte xs
    → slice_loop big crc (xs ++ rest) n ≡ done (feed poly_castagnoli crc xs, rest)
unfolding slice_loop
slice_loop_lem big crc zero [] rest hc e h = refl
slice_loop_lem big crc zero (x ∷ xs) rest hc e h = absurd (omega arith)
slice_loop_lem big crc (suc n) (a ∷ b ∷ c ∷ d ∷ e ∷ f ∷ g ∷ h ∷ xs) rest hc len
      (ha, (hb, (hc', (hd, (he, (hf, (hg, (hh, hs)))))))) =
    rw (slice_round big crc a b c d e f g h hc ha hb hc' hd he hf hg hh) (
      slice_loop_lem big (feed poly_castagnoli crc group) n xs rest
        (feed-lt crc group hc (ha, (hb, (hc', (hd, (he, (hf, (hg, (hh, tt))))))))) (omega arith) hs)
  where
    group : List ℕ
    group = a ∷ b ∷ c ∷ d ∷ e ∷ f ∷ g ∷ h ∷ []
slice_loop_lem big crc (suc n) _ rest hc e h = absurd (omega arith)

-- `crc32` is the CRC with the IEEE polynomial of exactly the bytes asked for.
pub crc32_lem :
    (xs rest : List ℕ)
    → All IsByte xs
    → crc32 (xs ++ rest) (length xs) ≡ done (bit_xor (feed poly_ieee ones xs) ones)
unfolding crc32
crc32_lem xs rest h =
    rw (byte_loop_lem poly_ieee crc32_table crc32_table-IsTable ones (length xs) xs rest refl h)

singletable_crc32c_lem :
    (crc : ℕ) (xs rest : List ℕ)
    → All IsByte xs
    → singletable_crc32c crc (xs ++ rest) (length xs) ≡ done (feed poly_castagnoli crc xs)
unfolding singletable_crc32c
singletable_crc32c_lem crc xs rest h =
    rw (
      byte_loop_lem poly_castagnoli crc32c_table crc32c_table-IsTable crc (length xs) xs rest refl
        h)

-- The three loops over a buffer that is cut in three.
sb8_parts :
    (big : Bool) (crc n m : ℕ) (xs ys zs rest : List ℕ)
    → crc < 2 ^ 32
    → n < 2 ^ 32
    → n ≡ length xs + m * 8 + length zs
    → length zs < 8
    → length ys ≡ m * 8
    → All IsByte xs
    → All IsByte ys
    → All IsByte zs
    → crc32c_sb8_64_bit big crc (xs ++ (ys ++ (zs ++ rest))) n (length xs)
      ≡ done (feed poly_castagnoli crc (xs ++ (ys ++ zs)))
unfolding crc32c_sb8_64_bit
sb8_parts big crc n m xs ys zs rest hc hn e hz ly bx by bz = rw (
  byte_loop_lem poly_castagnoli sctp_crc_tableil8_o32 sctp_crc_tableil8_o32-IsTable crc (length xs)
      xs (ys ++ (zs ++ rest)) refl bx,
  groups,
  tail,
  slice_loop_lem big crc₁ m ys (zs ++ rest) (feed-lt crc xs hc bx) ly by,
  byte_loop_lem poly_castagnoli sctp_crc_tableil8_o32 sctp_crc_tableil8_o32-IsTable
      (feed poly_castagnoli crc₁ ys) (length zs) zs rest refl bz,
  feed-append poly_castagnoli crc xs (ys ++ zs),
  feed-append poly_castagnoli crc₁ ys zs,
)
  where
    crc₁ : ℕ
    crc₁ = feed poly_castagnoli crc xs

    groups : sub_32 n (length xs) / 8 * 8 / 8 ≡ m
    groups = omega arith

    tail : sub_32 (sub_32 n (length xs)) (sub_32 n (length xs) / 8 * 8) ≡ length zs
    tail = omega arith

sb8_cut :
    (big : Bool) (crc init : ℕ) (xs pre mid end rest : List ℕ)
    → crc < 2 ^ 32
    → length xs < 2 ^ 32
    → init ≤ length xs
    → xs ≡ pre ++ (mid ++ end)
    → length pre ≡ init
    → length mid ≡ (length xs - init) / 8 * 8
    → All IsByte xs
    → crc32c_sb8_64_bit big crc (xs ++ rest) (length xs) init ≡ done (feed poly_castagnoli crc xs)
sb8_cut big crc init xs pre mid end rest hc hn hi e lp lm hb =
    rw (e, ← lp, append_assoc pre (mid ++ end) rest, append_assoc mid end rest)
      (sb8_parts big crc (length (pre ++ (mid ++ end))) ((length xs - init) / 8) pre mid end rest hc
        (omega (arith, ap length e)) (omega (arith, total, ap length e))
        (omega (arith, total, ap length e)) lm bytes.0 rest_bytes.0 rest_bytes.1)
  where
    total : length (pre ++ (mid ++ end)) ≡ length pre + (length mid + length end)
    total = omega (arith, length-append pre (mid ++ end), length-append mid end)

    bytes : All IsByte pre × All IsByte (mid ++ end)
    bytes = All-split IsByte pre (mid ++ end) (subst (All IsByte) e hb)

    rest_bytes : All IsByte mid × All IsByte end
    rest_bytes = All-split IsByte mid end bytes.1

-- `crc32c_sb8_64_bit` feeds exactly the bytes of the buffer, wherever its first loop ends.
sb8_lem :
    (big : Bool) (crc init : ℕ) (xs rest : List ℕ)
    → crc < 2 ^ 32
    → length xs < 2 ^ 32
    → init ≤ length xs
    → All IsByte xs
    → crc32c_sb8_64_bit big crc (xs ++ rest) (length xs) init ≡ done (feed poly_castagnoli crc xs)
sb8_lem big crc init xs rest hc hn hi hb =
    let (pre, others, e, lp) = cut init xs hi in
    let (mid, end, e', lm) =
      cut ((length xs - init) / 8 * 8) others
        (omega (arith, length-append pre others, ap length e)) in
    sb8_cut big crc init xs pre mid end rest hc hn hi (e ∙ ap (λ l. pre ++ l) e') lp lm hb

-- `crc32c` returns, for every length, alignment of the buffer and byte order of the machine, the
-- register that the bytes asked for leave behind with the Castagnoli polynomial, bit by bit, and
-- reads no other byte.
pub crc32c_lem :
    (big : Bool) (crc address : ℕ) (xs rest : List ℕ)
    → crc < 2 ^ 32
    → length xs < 2 ^ 32
    → All IsByte xs
    → crc32c big crc address (xs ++ rest) (length xs) ≡ done (feed poly_castagnoli crc xs)
unfolding crc32c multitable_crc32c
crc32c_lem big crc address xs rest hc hn hb = elim (Bool-cases (ltb (length xs) 4)) [
  | inl short ↦ rw short (singletable_crc32c_lem crc xs rest hb)
  | inr long ↦
      ground
        (arith, sb8_lem big crc (4 - bit_and address 3) xs rest hc hn, bit_and_mask 2 address, hb)
]
