-- ===== src/Align/Tests.antt =====
-- Tests of the model of memalign/unalcalc.c.
use bsl45_misc_tools.Prelude.{
  ◌+◌, ◌-◌, ◌%◌, ◌≡◌, refl, false, ◌&&◌, ◌||◌, ltb, leb, if◌then◌else◌, some, pos, done, fault,
  arith,
}
use bsl45_misc_tools.Align.Code.{Block, filled, align128bit_offset, aligned, fill, main}
use bsl45_misc_tools.Align.Bounds.{IsMapped, end_of, last_of, main_lem}

abbrev one_page : Block
one_page = record { mblock = 8192; mapped = 4096 }

one_page-IsMapped : IsMapped one_page 4096
one_page-IsMapped = record {
  holds = omega arith;
  whole = refl;
  at_page = refl;
  not_null = omega arith;
  in_range = omega arith;
}

-- An address that is a multiple of 16 is moved by 16.
moved_by_16 : align128bit_offset 8192 ≡ 16
unfolding align128bit_offset aligned
moved_by_16 = refl

-- The last word from offset 4080 + 4 on crosses the end of the page.
fill_runs : fill 4097 4096 4096 4084 ≡ fault
unfolding fill
fill_runs = refl

main_lem_example : main 3 (pos 4096) (pos 4) false false (some one_page) (pos 0) ≡ (
    if ltb 3 3 && (false || false)
    then done (filled (some (end_of 4096 (4 + (16 - 4 % 16)))) (pos 0))
    else if leb (last_of 4096 4) 4096
    then done (filled (some (last_of 4096 4)) (pos 0))
    else fault)
main_lem_example =
    main_lem 3 4096 4 false false one_page (pos 0) (omega arith) one_page-IsMapped (omega arith)
      (omega arith)
