-- ===== src/Align/Bounds.antt =====
-- Which words `main` of memalign/unalcalc.c writes.
use bsl45_misc_tools.Prelude.{
  ℕ, zero, suc, ◌+◌, ◌-◌, ◌*◌, ◌/◌, ◌%◌, ◌^◌, ◌≤◌, ◌<◌, ◌≡◌, refl, ap, sym, ◌∙◌, Bool, true, false,
  ◌&&◌, ◌||◌, ◌==◌, ltb, leb, if◌then◌else◌, bit_and, some, ℤ, pos, done, fault, and-halves,
  bit_and_mask, arith, Bool-cases, inl, inr,
}
use bsl45_misc_tools.Align.Code.{
  msk_right4bits0, aligned, align128bit_offset, fill, Block, filled, start_of, main,
}

-- The mask takes the last four bits away.
bit_and-msk : (lp : ℕ) → lp < 2 ^ 64 → bit_and lp msk_right4bits0 ≡ lp / 16 * 16
bit_and-msk lp h =
    let one : bit_and lp (2 ^ 64 - 16) ≡ bit_and (lp / 2) (2 ^ 63 - 8) * 2 =
      omega (arith, and-halves lp (2 ^ 64 - 16)) in
    let two : bit_and (lp / 2) (2 ^ 63 - 8) ≡ bit_and (lp / 2 / 2) (2 ^ 62 - 4) * 2 =
      omega (arith, and-halves (lp / 2) (2 ^ 63 - 8)) in
    let three : bit_and (lp / 2 / 2) (2 ^ 62 - 4) ≡ bit_and (lp / 2 / 2 / 2) (2 ^ 61 - 2) * 2 =
      omega (arith, and-halves (lp / 2 / 2) (2 ^ 62 - 4)) in
    let four : bit_and (lp / 2 / 2 / 2) (2 ^ 61 - 2)
        ≡ bit_and (lp / 2 / 2 / 2 / 2) (2 ^ 60 - 1) * 2 =
      omega (arith, and-halves (lp / 2 / 2 / 2) (2 ^ 61 - 2)) in
    omega (arith, one, two, three, four, bit_and_mask 60 (lp / 2 / 2 / 2 / 2), h)

-- Where the loop ends that begins below the end of the block.
abbrev pub last_of : ℕ → ℕ → ℕ
last_of mb_len vp = vp + (mb_len - vp + 7) / 8 * 8

fill_lem :
    (fuel mapped mb_len vp : ℕ)
    → mb_len ≤ mapped
    → (mb_len - vp + 7) / 8 < fuel
    → fill fuel mapped mb_len vp ≡ (
        if ltb vp mb_len
        then (if leb (last_of mb_len vp) mapped then done (some (last_of mb_len vp)) else fault)
        else done (some vp))
unfolding fill
fill_lem zero mapped mb_len vp fits h = absurd (omega (arith, h))
fill_lem (suc fuel) mapped mb_len vp fits h = elim (Bool-cases (ltb vp mb_len)) [
  | inl inside ↦
      let some_left : vp < mb_len = ground (arith, inside) in
      let rest = fill_lem fuel mapped mb_len (vp + 8) fits (omega (arith, some_left, h)) in
      elim (Bool-cases (leb (vp + 8) mapped)) [
        | inl room ↦ elim (Bool-cases (ltb (vp + 8) mb_len)) [
          | inl more ↦
              let same : last_of mb_len (vp + 8) ≡ last_of mb_len vp =
                ground (arith, more, some_left) in
              rw (inside, room)
                (rest ∙ rw (more) (ap (λ l. if leb l mapped then done (some l) else fault) same))
          | inr over ↦
              let same : last_of mb_len vp ≡ vp + 8 = ground (arith, over, some_left) in
              rw (inside, room)
                (rest
                  ∙ rw (over) (
                      rw (room) refl
                      ∙ ap (λ l. if leb l mapped then done (some l) else fault) (sym same)))
        ]
        | inr out ↦
            let same : last_of mb_len vp ≡ vp + 8 = ground (arith, out, fits, some_left) in
            let beyond : leb (last_of mb_len vp) mapped ≡ false =
              ap (λ l. leb l mapped) same ∙ out in
            rw (inside, out, beyond) refl
      ]
  | inr outside ↦ rw (outside) refl
]

aligned_lem : (lp : ℕ) → 16 ≤ lp → lp < 2 ^ 64 - 16 → align128bit_offset lp ≡ 16 - lp % 16
unfolding align128bit_offset aligned
aligned_lem lp low high =
    let masked = bit_and-msk lp (omega (arith, high)) in
    let some_bits : (bit_and lp msk_right4bits0 == 0) ≡ false = ground (arith, masked, low) in
    let up : (lp / 16 + 1) * 16 % 2 ^ 64 ≡ (lp / 16 + 1) * 16 = omega (arith, high) in
    rw (some_bits) (ap (λ a. (a + 2 ^ 64 - lp) % 2 ^ 64) up ∙ omega (arith, low, high))

-- What `mmap` gives for a length: whole pages of 4096 bytes, below the last 16 bytes of the addresses and
-- not at the first.
pub record IsMapped (b : Block) (mb_len : ℕ) : Type 0 where
  pub holds : mb_len ≤ b.mapped
  pub whole : b.mapped % 4096 ≡ 0
  pub at_page : b.mblock % 4096 ≡ 0
  pub not_null : 0 < b.mblock
  pub in_range : b.mblock + b.mapped < 2 ^ 64 - 16

-- Where the loop ends.
abbrev pub end_of : ℕ → ℕ → ℕ
end_of mb_len vp = if ltb vp mb_len then last_of mb_len vp else vp

-- From an aligned place the words stay inside of the pages.
fill-aligned :
    (b : Block) (mb_len vp : ℕ)
    → IsMapped b mb_len
    → 0 < mb_len
    → vp % 16 ≡ 0
    → fill (suc mb_len) b.mapped mb_len vp ≡ done (some (end_of mb_len vp))
fill-aligned b mb_len vp m size even =
    let run = fill_lem (suc mb_len) b.mapped mb_len vp m.holds (omega (arith, size)) in
    elim (Bool-cases (ltb vp mb_len)) [
      | inl inside ↦
          let fits : leb (last_of mb_len vp) b.mapped ≡ true =
            ground (arith, inside, m.holds, m.whole, even) in
          run ∙ rw (inside, fits) refl
      | inr outside ↦ run ∙ rw (outside) refl
    ]

start_of-aligned :
    (b : Block) (mb_len offset : ℕ)
    → IsMapped b mb_len
    → offset < mb_len
    → start_of true b offset ≡ offset + (16 - offset % 16)
unfolding start_of
start_of-aligned b mb_len offset m inside =
    let low : 16 ≤ b.mblock + offset = omega (arith, m.at_page, m.not_null) in
    let high : b.mblock + offset < 2 ^ 64 - 16 = omega (arith, m.holds, m.in_range, inside) in
    let same : align128bit_offset (b.mblock + offset) ≡ 16 - offset % 16 =
      aligned_lem (b.mblock + offset) low high ∙ omega (arith, m.at_page) in
    let moves : (align128bit_offset (b.mblock + offset) == 0) ≡ false = ground (arith, same) in
    rw (moves) (ap (λ k. offset + k) same)

start_of-as_is : (b : Block) (offset : ℕ) → start_of false b offset ≡ offset
unfolding start_of
start_of-as_is b offset = elim (Bool-cases (align128bit_offset (b.mblock + offset) == 0)) [
  | inl e ↦ rw (e) refl
  | inr e ↦ rw (e) refl
]

-- Where the offset is inside of the block that `mmap` gives, main writes words up to the end of the
-- block. If it is asked to align, it begins at the next multiple of 16 after the offset, also where the
-- offset is one itself, and all words are inside of the pages. If not, it begins at the offset, and where
-- the last word reaches over the end of the pages, it faults.
pub main_lem :
    (argc mb_len offset : ℕ) (is_y is_yes : Bool) (b : Block) (rc : ℤ)
    → 2 < argc
    → IsMapped b mb_len
    → 0 < offset
    → offset < mb_len
    → main argc (pos mb_len) (pos offset) is_y is_yes (some b) rc ≡ (
        if ltb 3 argc && (is_y || is_yes)
        then done (filled (some (end_of mb_len (offset + (16 - offset % 16)))) rc)
        else if leb (last_of mb_len offset) b.mapped
        then done (filled (some (last_of mb_len offset)) rc)
        else fault)
unfolding main
main_lem argc mb_len offset is_y is_yes b rc given m some_offset inside =
    let accepted : (ltb argc 3 || mb_len == 0 || offset == 0) ≡ false =
      ground (arith, given, some_offset, inside) in
    elim (Bool-cases (ltb 3 argc && (is_y || is_yes))) [
      | inl asked ↦
          let run =
            fill-aligned b mb_len (offset + (16 - offset % 16)) m (omega (arith, inside))
              (omega arith) in
          let moved = start_of-aligned b mb_len offset m inside in
          rw (accepted, asked, moved, run) refl
      | inr as_is ↦
          let run = fill_lem (suc mb_len) b.mapped mb_len offset m.holds (omega (arith, inside)) in
          let in_block : ltb offset mb_len ≡ true = ground (arith, inside) in
          elim (Bool-cases (leb (last_of mb_len offset) b.mapped)) [
            | inl fits ↦ rw (accepted, as_is, start_of-as_is b offset, run, in_block, fits) refl
            | inr out ↦ rw (accepted, as_is, start_of-as_is b offset, run, in_block, out) refl
          ]
    ]
