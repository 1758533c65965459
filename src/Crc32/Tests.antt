-- ===== src/Crc32/Tests.antt =====
-- The check values of both polynomials, and the theorems at concrete inputs.
use bsl45_misc_tools.Prelude.{
  ℕ, ◌≡◌, refl, arith, List, [], ◌∷◌, ◌++◌, true, false, All, IsByte, done, bit_xor,
}
use bsl45_misc_tools.Crc32.Spec.{poly_ieee, poly_castagnoli, feed}
use bsl45_misc_tools.Crc32.Tables.{
  crc32_table, crc32c_table, sctp_crc_tableil8_o32, sctp_crc_tableil8_o40, sctp_crc_tableil8_o48,
  sctp_crc_tableil8_o56, sctp_crc_tableil8_o64, sctp_crc_tableil8_o72, sctp_crc_tableil8_o80,
  sctp_crc_tableil8_o88,
}
use bsl45_misc_tools.Crc32.Code.{
  byte_loop, slice_loop, high_terms, low_terms, ones, crc32, singletable_crc32c, crc32c_sb8_64_bit,
  multitable_crc32c, crc32c,
}
use bsl45_misc_tools.Crc32.Correct.{crc32_lem, crc32c_lem}
use bsl45_misc_tools.Crc32.Hardware.{le_bytes, crc32c_intel_le_hw, crc32c_intel_le_hw_lem}

-- The characters 1 to 9.
abbrev digits : List ℕ
digits = 49 ∷ 50 ∷ 51 ∷ 52 ∷ 53 ∷ 54 ∷ 55 ∷ 56 ∷ 57 ∷ []

abbrev longer : List ℕ
longer = digits ++ digits

longer-IsByte : All IsByte longer
longer-IsByte = omega arith

crc32-digits : crc32 digits 9 ≡ done 0xcbf43926
unfolding crc32 byte_loop crc32_table
crc32-digits = refl

-- The complement of the check value, since `crc32c` does not invert its result.
crc32c-digits : crc32c false ones 1 digits 9 ≡ done (bit_xor 0xe3069283 ones)
unfolding crc32c singletable_crc32c multitable_crc32c crc32c_sb8_64_bit byte_loop slice_loop
    high_terms low_terms crc32c_table sctp_crc_tableil8_o32 sctp_crc_tableil8_o40
    sctp_crc_tableil8_o48 sctp_crc_tableil8_o56 sctp_crc_tableil8_o64 sctp_crc_tableil8_o72
    sctp_crc_tableil8_o80 sctp_crc_tableil8_o88
crc32c-digits = refl

crc32_lem_example : crc32 (digits ++ (7 ∷ [])) 9 ≡ done (bit_xor (feed poly_ieee ones digits) ones)
crc32_lem_example = crc32_lem digits (7 ∷ []) (omega arith)

crc32c_lem_example : crc32c true 5 3 (longer ++ (7 ∷ [])) 18 ≡ done (feed poly_castagnoli 5 longer)
crc32c_lem_example = crc32c_lem true 5 3 longer (7 ∷ []) (omega arith) (omega arith) longer-IsByte

-- An instruction that does what the manual says.
abbrev insn_byte : ℕ → ℕ → ℕ
insn_byte crc b = feed poly_castagnoli crc (b ∷ [])

abbrev insn_word : ℕ → ℕ → ℕ
insn_word crc w = feed poly_castagnoli crc (le_bytes 8 w)

crc32c_intel_le_hw_lem_example :
    crc32c_intel_le_hw insn_byte insn_word 5 (longer ++ (7 ∷ [])) 18
    ≡ done (feed poly_castagnoli 5 longer)
crc32c_intel_le_hw_lem_example =
    crc32c_intel_le_hw_lem insn_byte insn_word (λ crc b h. refl) (λ crc w h. refl) 5 longer (7 ∷ [])
      (omega arith) longer-IsByte
