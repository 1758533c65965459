-- ===== src/Crc32/Rounds.antt =====
-- One round of each loop of crc32.intel/crc32.c against the bits.
use bsl45_misc_tools.Prelude.{
  ℕ, suc, ◌+◌, ◌*◌, ◌/◌, ◌%◌, ◌^◌, ◌<◌, ◌≡◌, refl, ◌∙◌, sym, ap, ap₂, arith, bit_xor, List, [], ◌∷◌,
  Bool, true, false, IsByte, get_or, bit_and_mask, xor-div_256, xor-zero, xor_comm, xor_assoc,
  xor_fields,
}
use bsl45_misc_tools.Crc32.Spec.{shift_byte, poly_castagnoli, times, feed}
use bsl45_misc_tools.Crc32.Shift.{
  shift_byte_split, times_split, shift_byte-word, shift_byte-lt, times-xor, shift_byte-xor, xor-lt,
}
use bsl45_misc_tools.Crc32.Code.{entry, low_word, high_terms, low_terms}
use bsl45_misc_tools.Crc32.Tables.{
  sctp_crc_tableil8_o32, sctp_crc_tableil8_o40, sctp_crc_tableil8_o48, sctp_crc_tableil8_o56,
}
use bsl45_misc_tools.Crc32.Checked.{
  IsTable, sctp_crc_tableil8_o32-IsTable, sctp_crc_tableil8_o40-IsTable,
  sctp_crc_tableil8_o48-IsTable, sctp_crc_tableil8_o56-IsTable, sctp_crc_tableil8_o64-IsTable,
  sctp_crc_tableil8_o72-IsTable, sctp_crc_tableil8_o80-IsTable, sctp_crc_tableil8_o88-IsTable,
}

-- A round of a byte loop shifts the register by the byte.
pub byte_round :
    (poly : ℕ) (t : List ℕ)
    → IsTable poly 1 t
    → (crc b : ℕ) → IsByte b
    → bit_xor (entry t (bit_xor crc b)) (crc / 2 ^ 8) ≡ shift_byte poly (bit_xor crc b)
byte_round poly t h crc b small =
    ap₂ bit_xor (h (bit_xor crc b)) (sym rest) ∙ sym (shift_byte_split poly (bit_xor crc b))
  where
    rest : bit_xor crc b / 256 ≡ crc / 256
    rest = ground (arith, xor-div_256 crc b, xor-zero (crc / 256))

abbrev byte_shift : ℕ → ℕ
byte_shift = shift_byte poly_castagnoli

-- A little-endian word.
abbrev word : ℕ → ℕ → ℕ → ℕ → ℕ
word a b c d = a + (b + (c + d * 256) * 256) * 256

to_left : (a b c d : ℕ) → bit_xor a (bit_xor b (bit_xor c d)) ≡ bit_xor (bit_xor (bit_xor a b) c) d
to_left a b c d = cc (xor_assoc a b (bit_xor c d), xor_assoc (bit_xor a b) c d)

-- `n + 4` bytes shifted through a register of four bytes, byte by byte.
four_terms :
    (n x : ℕ)
    → x < 2 ^ 32
    → times (suc (suc (suc (suc n)))) byte_shift x
      ≡ bit_xor
          (bit_xor
            (bit_xor
              (times (suc (suc (suc (suc n)))) byte_shift (x % 256))
              (times (suc (suc (suc n))) byte_shift (x / 256 % 256)))
            (times (suc (suc n)) byte_shift (x / 256 / 256 % 256)))
          (times (suc n) byte_shift (x / 256 / 256 / 256 % 256))
four_terms n x h =
    times_split poly_castagnoli (suc (suc (suc n))) x
    ∙ ap (bit_xor _) (
        times_split poly_castagnoli (suc (suc n)) (x / 256)
        ∙ ap (bit_xor _) (
            times_split poly_castagnoli (suc n) (x / 256 / 256)
            ∙ ap (bit_xor _) (ap (times (suc n) byte_shift) top)))
    ∙ to_left _ _ _ _
  where
    top : x / 256 / 256 / 256 ≡ x / 256 / 256 / 256 % 256
    top = omega arith

-- The first four lookups of a round shift the register by eight bytes.
high_terms_lem : (x : ℕ) → x < 2 ^ 32 → high_terms x ≡ times 8 byte_shift x
unfolding high_terms
high_terms_lem x h =
    ap₂ bit_xor
      (ap₂ bit_xor
        (ap₂ bit_xor (sctp_crc_tableil8_o88-IsTable x) (sctp_crc_tableil8_o80-IsTable (x / 256)))
        (sctp_crc_tableil8_o72-IsTable (x / 2 ^ 16) ∙ ap (times 6 byte_shift) (omega arith)))
      (sctp_crc_tableil8_o64-IsTable (x / 2 ^ 16 / 2 ^ 8) ∙ ap (times 5 byte_shift) (omega arith))
    ∙ sym (four_terms 4 x h)

-- The four lookups of the next bytes, read from a word.
word_terms :
    (w : ℕ)
    → w < 2 ^ 32
    → bit_xor
        (bit_xor
          (bit_xor (entry sctp_crc_tableil8_o56 w) (entry sctp_crc_tableil8_o48 (w / 2 ^ 8)))
          (entry sctp_crc_tableil8_o40 (w / 2 ^ 16)))
        (entry sctp_crc_tableil8_o32 (w / 2 ^ 16 / 2 ^ 8))
      ≡ times 4 byte_shift w
word_terms w h =
    ap₂ bit_xor
      (ap₂ bit_xor
        (ap₂ bit_xor (sctp_crc_tableil8_o56-IsTable w) (sctp_crc_tableil8_o48-IsTable (w / 256)))
        (sctp_crc_tableil8_o40-IsTable (w / 2 ^ 16) ∙ ap (times 2 byte_shift) (omega arith)))
      (sctp_crc_tableil8_o32-IsTable (w / 2 ^ 16 / 2 ^ 8) ∙ ap (times 1 byte_shift) (omega arith))
    ∙ sym (four_terms 0 w h)

entry_of : (t : List ℕ) (w i : ℕ) → w % 256 ≡ i → entry t w ≡ get_or t i 0
entry_of t w i e = ap (λ k. get_or t k 0) (bit_and_mask 8 w ∙ e)

low_terms-little :
    (x a b c d : ℕ)
    → IsByte a
    → IsByte b
    → IsByte c
    → IsByte d
    → low_terms false x a b c d ≡ bit_xor x (times 4 byte_shift (word a b c d))
unfolding low_terms
low_terms-little x a b c d ha hb hc hd = cc (
  xor_assoc x (bit_xor A B) C,
  xor_assoc x (bit_xor (bit_xor A B) C) D,
  word_terms w (omega arith),
)
  where
    w : ℕ
    w = word a b c d

    A : ℕ
    A = entry sctp_crc_tableil8_o56 w

    B : ℕ
    B = entry sctp_crc_tableil8_o48 (w / 2 ^ 8)

    C : ℕ
    C = entry sctp_crc_tableil8_o40 (w / 2 ^ 16)

    D : ℕ
    D = entry sctp_crc_tableil8_o32 (w / 2 ^ 16 / 2 ^ 8)

-- Either byte order adds the same four lookups.
low_terms_lem :
    (big : Bool) (x a b c d : ℕ)
    → IsByte a
    → IsByte b
    → IsByte c
    → IsByte d
    → low_terms big x a b c d ≡ bit_xor x (times 4 byte_shift (word a b c d))
unfolding low_terms
low_terms_lem false x a b c d ha hb hc hd = low_terms-little x a b c d ha hb hc hd
low_terms_lem true x a b c d ha hb hc hd = cc (
  xor_assoc x (get_or sctp_crc_tableil8_o56 a 0) (get_or sctp_crc_tableil8_o48 b 0),
  entry_of sctp_crc_tableil8_o56 w a (omega arith),
  entry_of sctp_crc_tableil8_o48 (w / 2 ^ 8) b (omega arith),
  entry_of sctp_crc_tableil8_o40 (w / 2 ^ 16) c (omega arith),
  entry_of sctp_crc_tableil8_o32 (w / 2 ^ 16 / 2 ^ 8) d (omega arith),
  low_terms-little x a b c d ha hb hc hd,
)
  where
    w : ℕ
    w = word a b c d

low_word_lem :
    (big : Bool) (x a b c d : ℕ)
    → IsByte a
    → IsByte b
    → IsByte c
    → IsByte d
    → low_word big x a b c d ≡ bit_xor x (word a b c d)
low_word_lem false x a b c d ha hb hc hd = refl
low_word_lem true x a b c d ha hb hc hd = cc (
  xor_assoc x a (b * 2 ^ 8),
  xor_assoc x (bit_xor a (b * 2 ^ 8)) (c * 2 ^ 16),
  xor_assoc x (bit_xor (bit_xor a (b * 2 ^ 8)) (c * 2 ^ 16)) (d * 2 ^ 24),
  xor_comm a (b * 2 ^ 8),
  xor_comm (bit_xor a (b * 2 ^ 8)) (c * 2 ^ 16),
  xor_comm (bit_xor (bit_xor a (b * 2 ^ 8)) (c * 2 ^ 16)) (d * 2 ^ 24),
  xor_fields 8 b a ha,
  xor_fields 16 c (b * 2 ^ 8 + a) (omega arith),
  xor_fields 24 d (c * 2 ^ 16 + (b * 2 ^ 8 + a)) (omega arith),
  sums,
)
  where
    sums : d * 2 ^ 24 + (c * 2 ^ 16 + (b * 2 ^ 8 + a)) ≡ word a b c d
    sums = omega arith

-- The register stays a 32-bit word.
pub byte_shift-lt : (x : ℕ) → x < 2 ^ 32 → byte_shift x < 2 ^ 32
byte_shift-lt = shift_byte-lt poly_castagnoli (omega arith)

-- Four bytes that enter at once.
word_round :
    (x a b c d : ℕ)
    → IsByte a
    → IsByte b
    → IsByte c
    → IsByte d
    → times 4 byte_shift (bit_xor x (word a b c d))
      ≡ byte_shift
          (bit_xor (byte_shift (bit_xor (byte_shift (bit_xor (byte_shift (bit_xor x a)) b)) c)) d)
word_round x a b c d ha hb hc hd =
    ap (times 3 byte_shift) (shift_byte-word poly_castagnoli x a _ ha)
    ∙ ap (times 2 byte_shift) (shift_byte-word poly_castagnoli _ b _ hb)
    ∙ ap (times 1 byte_shift) (shift_byte-word poly_castagnoli _ c d hc)

-- A round of the sliced loop shifts the register by the eight bytes in turn.
pub slice_round :
    (big : Bool) (x a b c d e f g h : ℕ)
    → x < 2 ^ 32
    → IsByte a
    → IsByte b
    → IsByte c
    → IsByte d
    → IsByte e
    → IsByte f
    → IsByte g
    → IsByte h
    → low_terms big (high_terms (low_word big x a b c d)) e f g h
      ≡ feed poly_castagnoli x (a ∷ b ∷ c ∷ d ∷ e ∷ f ∷ g ∷ h ∷ [])
slice_round big x a b c d e f g h hx ha hb hc hd he hf hg hh =
    low_terms_lem big _ e f g h he hf hg hh
    ∙ ap (λ t. bit_xor t (times 4 byte_shift (word e f g h))) first
    ∙ sym (times-xor byte_shift (shift_byte-xor poly_castagnoli) 4 _ (word e f g h))
    ∙ word_round _ e f g h he hf hg hh
  where
    low : ℕ
    low = bit_xor x (word a b c d)

    first :
        high_terms (low_word big x a b c d)
        ≡ times 4 byte_shift (feed poly_castagnoli x (a ∷ b ∷ c ∷ d ∷ []))
    first =
        ap high_terms (low_word_lem big x a b c d ha hb hc hd)
        ∙ high_terms_lem low (xor-lt 32 x (word a b c d) hx (omega arith))
        ∙ ap (times 4 byte_shift) (word_round x a b c d ha hb hc hd)
