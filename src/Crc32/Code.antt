-- ===== src/Crc32/Code.antt =====
-- The functions of crc32.intel/crc32.c. A buffer is the list of the bytes from its pointer on, and
-- a read past its end is a `fault`; where C moves the pointer, the rest of the list is returned.
use bsl45_misc_tools.Prelude.{
  ℕ, zero, suc, ◌+◌, ◌-◌, ◌*◌, ◌/◌, ◌%◌, ◌^◌, List, [], ◌∷◌, Bool, true, false, bit_and, bit_xor,
  Exec, done, fault, ◌>>=◌, get_or, ltb, ◌==◌, if◌then◌else◌,
}
use bsl45_misc_tools.Crc32.Tables.{
  crc32_table, crc32c_table, sctp_crc_tableil8_o32, sctp_crc_tableil8_o40, sctp_crc_tableil8_o48,
  sctp_crc_tableil8_o56, sctp_crc_tableil8_o64, sctp_crc_tableil8_o72, sctp_crc_tableil8_o80,
  sctp_crc_tableil8_o88,
}

-- `table[i & 0xFF]`.
abbrev pub entry : List ℕ → ℕ → ℕ
entry table i = get_or table (bit_and i 0xff) 0

-- `crc = table[(crc ^ *p++) & 0xFF] ^ (crc >> 8)`, as often as `size` says.
unfoldable pub byte_loop : List ℕ → ℕ → List ℕ → ℕ → Exec (ℕ × List ℕ)
byte_loop table crc p zero = done (crc, p)
byte_loop table crc [] (suc size) = fault
byte_loop table crc (b ∷ p) (suc size) =
    byte_loop table (bit_xor (entry table (bit_xor crc b)) (crc / 2 ^ 8)) p size

-- `~0U`.
abbrev pub ones : ℕ
ones = 2 ^ 32 - 1

unfoldable pub crc32 : List ℕ → ℕ → Exec ℕ
crc32 buf size = do (crc, p) ← byte_loop crc32_table ones buf size; done (bit_xor crc ones)

unfoldable pub singletable_crc32c : ℕ → List ℕ → ℕ → Exec ℕ
singletable_crc32c crc buf size = do (crc', p) ← byte_loop crc32c_table crc buf size; done crc'

-- What the first four bytes of a round of eight do: a word read as it lies in memory, or byte by
-- byte where the byte order is big-endian.
abbrev pub low_word : Bool → ℕ → ℕ → ℕ → ℕ → ℕ → ℕ
low_word true crc a b c d =
    bit_xor (bit_xor (bit_xor (bit_xor crc a) (b * 2 ^ 8)) (c * 2 ^ 16)) (d * 2 ^ 24)
low_word false crc a b c d = bit_xor crc (a + (b + (c + d * 2 ^ 8) * 2 ^ 8) * 2 ^ 8)

-- The four lookups with the register.
unfoldable pub high_terms : ℕ → ℕ
high_terms crc =
    let term1 =
      bit_xor (entry sctp_crc_tableil8_o88 crc) (entry sctp_crc_tableil8_o80 (crc / 2 ^ 8)) in
    let term2 = crc / 2 ^ 16 in
    bit_xor (bit_xor term1 (entry sctp_crc_tableil8_o72 term2))
      (entry sctp_crc_tableil8_o64 (term2 / 2 ^ 8))

-- The four lookups with the next four bytes.
unfoldable pub low_terms : Bool → ℕ → ℕ → ℕ → ℕ → ℕ → ℕ
low_terms true crc a b c d =
    bit_xor
      (bit_xor
        (bit_xor (bit_xor crc (get_or sctp_crc_tableil8_o56 a 0))
          (get_or sctp_crc_tableil8_o48 b 0))
        (get_or sctp_crc_tableil8_o40 c 0))
      (get_or sctp_crc_tableil8_o32 d 0)
low_terms false crc a b c d =
    let word = a + (b + (c + d * 2 ^ 8) * 2 ^ 8) * 2 ^ 8 in
    let term1 =
      bit_xor (entry sctp_crc_tableil8_o56 word) (entry sctp_crc_tableil8_o48 (word / 2 ^ 8)) in
    let term2 = word / 2 ^ 16 in
    bit_xor (bit_xor (bit_xor crc term1) (entry sctp_crc_tableil8_o40 term2))
      (entry sctp_crc_tableil8_o32 (term2 / 2 ^ 8))

-- The loop over whole groups of eight bytes.
unfoldable pub slice_loop : Bool → ℕ → List ℕ → ℕ → Exec (ℕ × List ℕ)
slice_loop big crc p zero = done (crc, p)
slice_loop big crc (a ∷ b ∷ c ∷ d ∷ e ∷ f ∷ g ∷ h ∷ p) (suc n) =
    slice_loop big (low_terms big (high_terms (low_word big crc a b c d)) e f g h) p n
slice_loop big crc _ (suc n) = fault

-- `uint32_t` subtraction wraps.
abbrev pub sub_32 : ℕ → ℕ → ℕ
sub_32 a b = (a + 2 ^ 32 - b) % 2 ^ 32

unfoldable pub crc32c_sb8_64_bit : Bool → ℕ → List ℕ → ℕ → ℕ → Exec ℕ
crc32c_sb8_64_bit big crc p_buf length init_bytes =
    let running_length = sub_32 length init_bytes / 8 * 8 in
    let end_bytes = sub_32 (sub_32 length init_bytes) running_length in
    do
      (crc₁, p₁) ← byte_loop sctp_crc_tableil8_o32 crc p_buf init_bytes
      (crc₂, p₂) ← slice_loop big crc₁ p₁ (running_length / 8)
      (crc₃, p₃) ← byte_loop sctp_crc_tableil8_o32 crc₂ p₂ end_bytes
      done crc₃

-- `address` is the buffer's own.
unfoldable pub multitable_crc32c : Bool → ℕ → ℕ → List ℕ → ℕ → Exec ℕ
multitable_crc32c big crc address buffer length =
    if length == 0
    then done crc
    else crc32c_sb8_64_bit big crc buffer length (4 - bit_and address 3)

unfoldable pub crc32c : Bool → ℕ → ℕ → List ℕ → ℕ → Exec ℕ
crc32c big crc address buffer length =
    if ltb length 4
    then singletable_crc32c crc buffer length
    else multitable_crc32c big crc address buffer length
