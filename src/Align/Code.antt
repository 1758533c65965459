-- ===== src/Align/Code.antt =====
-- `align128bit_offset` and `main` of memalign/unalcalc.c. What is printed is left out.
use bsl45_misc_tools.Prelude.{
  ℕ, zero, suc, ◌+◌, ◌-◌, ◌*◌, ◌/◌, ◌%◌, ◌^◌, Bool, not, ◌&&◌, ◌||◌, ◌==◌, ltb, leb, if◌then◌else◌,
  bit_and, Option, none, some, ℤ, pos, negsuc, Exec, done, fault, ◌>>=◌,
}

abbrev pub msk_right4bits0 : ℕ
msk_right4bits0 = 2 ^ 64 - 16

-- `*ap`
unfoldable pub aligned : ℕ → ℕ
aligned lp = if bit_and lp msk_right4bits0 == 0 then lp else (lp / 16 + 1) * 16 % 2 ^ 64

unfoldable pub align128bit_offset : ℕ → ℕ
align128bit_offset lp = (aligned lp + 2 ^ 64 - lp) % 2 ^ 64

-- The bytes of a `long*`.
abbrev pub word : ℕ
word = 8

-- The loop, from a place in the block that `mapped` bytes are mapped of; it gives the place where it ends.
-- It runs on fuel: `none` means that there was not enough.
unfoldable pub fill : ℕ → ℕ → ℕ → ℕ → Exec (Option ℕ)
fill zero mapped mb_len vp = done none
fill (suc fuel) mapped mb_len vp =
    let rest = fill fuel mapped mb_len (vp + word) in
    if ltb vp mb_len then (if leb (vp + word) mapped then rest else fault) else done (some vp)

-- What `mmap` gives: the address of the block, and the bytes that are mapped there.
pub record Block : Type 0 where
  pub mblock : ℕ
  pub mapped : ℕ

-- main returns before the loop, or with the place where the loop ends and what `munmap` returns.
pub data Ran : Type 0 where
  exits : ℤ → Ran
  filled : Option ℕ → ℤ → Ran

-- The place where the loop begins.
unfoldable pub start_of : Bool → Block → ℕ → ℕ
start_of should_align b offset =
    let al_offset = align128bit_offset (b.mblock + offset) in
    if not (al_offset == 0) && should_align then offset + al_offset else offset

-- `mb_len` and `offset` are what `atol` makes of the first two arguments; `is_y` and `is_yes` are the two
-- comparisons of strings, the second one of the program's name.
unfoldable pub main : ℕ → ℤ → ℤ → Bool → Bool → Option Block → ℤ → Exec Ran
main argc (negsuc n) offset is_y is_yes block rc = done (exits (pos 1))
main argc (pos mb_len) (negsuc n) is_y is_yes block rc = done (exits (pos 1))
main argc (pos mb_len) (pos offset) is_y is_yes none rc = done (exits (pos 1))
main argc (pos mb_len) (pos offset) is_y is_yes (some b) rc =
    if ltb argc 3 || mb_len == 0 || offset == 0 then done (exits (pos 1)) else do
      at ← fill (suc mb_len) b.mapped mb_len (start_of (ltb 3 argc && (is_y || is_yes)) b offset)
      done (filled at rc)
