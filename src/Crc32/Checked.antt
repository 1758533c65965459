-- ===== src/Crc32/Checked.antt =====
-- Every table of crc32.intel/crc32.c holds at each index the register that has shifted the index out.
use bsl45_misc_tools.Prelude.{
  ℕ, ◌%◌, ◌≡◌, refl, ◌∙◌, ap, arith, List, get_or, ◌==◌, ==_iff, true, bit_and_mask, all_below,
  all_below_sound,
}
use bsl45_misc_tools.Crc32.Spec.{shift_byte, poly_castagnoli, poly_ieee, times}
use bsl45_misc_tools.Crc32.Code.{entry}
use bsl45_misc_tools.Crc32.Tables.{
  crc32_table, crc32c_table, sctp_crc_tableil8_o32, sctp_crc_tableil8_o40, sctp_crc_tableil8_o48,
  sctp_crc_tableil8_o56, sctp_crc_tableil8_o64, sctp_crc_tableil8_o72, sctp_crc_tableil8_o80,
  sctp_crc_tableil8_o88,
}

-- The entries are right for `n` bytes shifted.
abbrev IsChecked : ℕ → ℕ → List ℕ → Type 0
IsChecked poly n t = all_below 256 (λ i. get_or t i 0 == times n (shift_byte poly) i) ≡ true

abbrev pub IsTable : ℕ → ℕ → List ℕ → Type 0
IsTable poly n t = (i : ℕ) → entry t i ≡ times n (shift_byte poly) (i % 256)

checked-IsTable : (poly n : ℕ) (t : List ℕ) → IsChecked poly n t → IsTable poly n t
checked-IsTable poly n t h i =
    ap (λ k. get_or t k 0) (bit_and_mask 8 i)
    ∙ (==_iff _ _).0 (all_below_sound 256 _ h (i % 256) (omega arith))

crc32_table-IsChecked : IsChecked poly_ieee 1 crc32_table
unfolding all_below shift_byte crc32_table
crc32_table-IsChecked = refl

pub crc32_table-IsTable : IsTable poly_ieee 1 crc32_table
crc32_table-IsTable = checked-IsTable poly_ieee 1 crc32_table crc32_table-IsChecked

crc32c_table-IsChecked : IsChecked poly_castagnoli 1 crc32c_table
unfolding all_below shift_byte crc32c_table
crc32c_table-IsChecked = refl

pub crc32c_table-IsTable : IsTable poly_castagnoli 1 crc32c_table
crc32c_table-IsTable = checked-IsTable poly_castagnoli 1 crc32c_table crc32c_table-IsChecked

sctp_crc_tableil8_o32-IsChecked : IsChecked poly_castagnoli 1 sctp_crc_tableil8_o32
unfolding all_below shift_byte sctp_crc_tableil8_o32
sctp_crc_tableil8_o32-IsChecked = refl

pub sctp_crc_tableil8_o32-IsTable : IsTable poly_castagnoli 1 sctp_crc_tableil8_o32
sctp_crc_tableil8_o32-IsTable =
    checked-IsTable poly_castagnoli 1 sctp_crc_tableil8_o32 sctp_crc_tableil8_o32-IsChecked

sctp_crc_tableil8_o40-IsChecked : IsChecked poly_castagnoli 2 sctp_crc_tableil8_o40
unfolding all_below shift_byte sctp_crc_tableil8_o40
sctp_crc_tableil8_o40-IsChecked = refl

pub sctp_crc_tableil8_o40-IsTable : IsTable poly_castagnoli 2 sctp_crc_tableil8_o40
sctp_crc_tableil8_o40-IsTable =
    checked-IsTable poly_castagnoli 2 sctp_crc_tableil8_o40 sctp_crc_tableil8_o40-IsChecked

sctp_crc_tableil8_o48-IsChecked : IsChecked poly_castagnoli 3 sctp_crc_tableil8_o48
unfolding all_below shift_byte sctp_crc_tableil8_o48
sctp_crc_tableil8_o48-IsChecked = refl

pub sctp_crc_tableil8_o48-IsTable : IsTable poly_castagnoli 3 sctp_crc_tableil8_o48
sctp_crc_tableil8_o48-IsTable =
    checked-IsTable poly_castagnoli 3 sctp_crc_tableil8_o48 sctp_crc_tableil8_o48-IsChecked

sctp_crc_tableil8_o56-IsChecked : IsChecked poly_castagnoli 4 sctp_crc_tableil8_o56
unfolding all_below shift_byte sctp_crc_tableil8_o56
sctp_crc_tableil8_o56-IsChecked = refl

pub sctp_crc_tableil8_o56-IsTable : IsTable poly_castagnoli 4 sctp_crc_tableil8_o56
sctp_crc_tableil8_o56-IsTable =
    checked-IsTable poly_castagnoli 4 sctp_crc_tableil8_o56 sctp_crc_tableil8_o56-IsChecked

sctp_crc_tableil8_o64-IsChecked : IsChecked poly_castagnoli 5 sctp_crc_tableil8_o64
unfolding all_below shift_byte sctp_crc_tableil8_o64
sctp_crc_tableil8_o64-IsChecked = refl

pub sctp_crc_tableil8_o64-IsTable : IsTable poly_castagnoli 5 sctp_crc_tableil8_o64
sctp_crc_tableil8_o64-IsTable =
    checked-IsTable poly_castagnoli 5 sctp_crc_tableil8_o64 sctp_crc_tableil8_o64-IsChecked

sctp_crc_tableil8_o72-IsChecked : IsChecked poly_castagnoli 6 sctp_crc_tableil8_o72
unfolding all_below shift_byte sctp_crc_tableil8_o72
sctp_crc_tableil8_o72-IsChecked = refl

pub sctp_crc_tableil8_o72-IsTable : IsTable poly_castagnoli 6 sctp_crc_tableil8_o72
sctp_crc_tableil8_o72-IsTable =
    checked-IsTable poly_castagnoli 6 sctp_crc_tableil8_o72 sctp_crc_tableil8_o72-IsChecked

sctp_crc_tableil8_o80-IsChecked : IsChecked poly_castagnoli 7 sctp_crc_tableil8_o80
unfolding all_below shift_byte sctp_crc_tableil8_o80
sctp_crc_tableil8_o80-IsChecked = refl

pub sctp_crc_tableil8_o80-IsTable : IsTable poly_castagnoli 7 sctp_crc_tableil8_o80
sctp_crc_tableil8_o80-IsTable =
    checked-IsTable poly_castagnoli 7 sctp_crc_tableil8_o80 sctp_crc_tableil8_o80-IsChecked

sctp_crc_tableil8_o88-IsChecked : IsChecked poly_castagnoli 8 sctp_crc_tableil8_o88
unfolding all_below shift_byte sctp_crc_tableil8_o88
sctp_crc_tableil8_o88-IsChecked = refl

pub sctp_crc_tableil8_o88-IsTable : IsTable poly_castagnoli 8 sctp_crc_tableil8_o88
sctp_crc_tableil8_o88-IsTable =
    checked-IsTable poly_castagnoli 8 sctp_crc_tableil8_o88 sctp_crc_tableil8_o88-IsChecked
