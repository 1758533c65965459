-- ===== src/Crc32/Hardware.antt =====
-- The loops of crc32.intel/ucrc32hw.c, which leave the work to the crc32 instruction, for a
-- processor of 64 bits. The instruction is a parameter, for a byte and for a word of eight bytes.
use bsl45_misc_tools.Prelude.{
  ℕ, zero, suc, ◌+◌, ◌*◌, ◌/◌, ◌%◌, ◌^◌, ◌<◌, ◌≡◌, refl, List, [], ◌∷◌, ◌++◌, Exec, done, fault,
  ◌>>=◌, ◌==◌, if◌then◌else◌, All, IsByte, length, arith, false, append-nil, append_assoc, cut,
  All-split, subst, ap, sym, ◌∙◌, length-append,
}
use bsl45_misc_tools.Crc32.Spec.{poly_castagnoli, feed}
use bsl45_misc_tools.Crc32.Correct.{feed-append}

-- The value of eight bytes in memory, the lowest first.
abbrev pub le_word : ℕ → ℕ → ℕ → ℕ → ℕ → ℕ → ℕ → ℕ → ℕ
le_word a b c d e f g h =
    a + 256 * (b + 256 * (c + 256 * (d + 256 * (e + 256 * (f + 256 * (g + 256 * h))))))

-- The bytes of a value, the lowest first.
abbrev pub le_bytes : ℕ → ℕ → List ℕ
le_bytes zero w = []
le_bytes (suc n) w = w % 256 ∷ le_bytes n (w / 256)

-- Bytes make up a word, and the word splits into them.
le_split : (b w : ℕ) → b < 256 → ((b + 256 * w) % 256 ≡ b) × ((b + 256 * w) / 256 ≡ w)
le_split b w h = (omega arith, omega arith)

le_bytes-le_word :
    (a b c d e f g h : ℕ)
    → All IsByte (a ∷ b ∷ c ∷ d ∷ e ∷ f ∷ g ∷ h ∷ [])
    → le_bytes 8 (le_word a b c d e f g h) ≡ a ∷ b ∷ c ∷ d ∷ e ∷ f ∷ g ∷ h ∷ []
le_bytes-le_word a b c d e f g h (ha, (hb, (hc, (hd, (he, (hf, (hg, (hh, hs)))))))) =
    let w₇ = g + 256 * h in
    let w₆ = f + 256 * w₇ in
    let w₅ = e + 256 * w₆ in
    let w₄ = d + 256 * w₅ in
    let w₃ = c + 256 * w₄ in
    let w₂ = b + 256 * w₃ in
    let top : h % 256 ≡ h = omega arith in
    rw
      (
        (le_split a w₂ ha).0,
        (le_split a w₂ ha).1,
        (le_split b w₃ hb).0,
        (le_split b w₃ hb).1,
        (le_split c w₄ hc).0,
        (le_split c w₄ hc).1,
        (le_split d w₅ hd).0,
        (le_split d w₅ hd).1,
        (le_split e w₆ he).0,
        (le_split e w₆ he).1,
        (le_split f w₇ hf).0,
        (le_split f w₇ hf).1,
        (le_split g h hg).0,
        (le_split g h hg).1,
        top,
      )
      refl

module _ (insn_byte insn_word : ℕ → ℕ → ℕ) where
  unfoldable pub crc32c_intel_le_hw_byte : ℕ → List ℕ → ℕ → Exec (ℕ × List ℕ)
  crc32c_intel_le_hw_byte crc buf zero = done (crc, buf)
  crc32c_intel_le_hw_byte crc [] (suc length) = fault
  crc32c_intel_le_hw_byte crc (b ∷ buf) (suc length) =
      crc32c_intel_le_hw_byte (insn_byte crc b) buf length

  -- The loop over whole words.
  unfoldable pub word_loop : ℕ → List ℕ → ℕ → Exec (ℕ × List ℕ)
  word_loop crc p zero = done (crc, p)
  word_loop crc (a ∷ b ∷ c ∷ d ∷ e ∷ f ∷ g ∷ h ∷ p) (suc iquotient) =
      word_loop (insn_word crc (le_word a b c d e f g h)) p iquotient
  word_loop crc _ (suc iquotient) = fault

  -- `iquotient` is an `unsigned int`.
  unfoldable pub crc32c_intel_le_hw : ℕ → List ℕ → ℕ → Exec ℕ
  crc32c_intel_le_hw crc p len =
      let iquotient = len / 8 % 2 ^ 32 in
      let iremainder = len % 8 in
      do
        (crc₁, ptmp) ← word_loop crc p iquotient
        (crc₂, rest) ←
            if iremainder == 0
            then done (crc₁, ptmp)
            else crc32c_intel_le_hw_byte crc₁ ptmp iremainder
        done crc₂

  -- What the manual of the processor says of the instruction.
  module _ (byte_law : (crc b : ℕ) → b < 256 → insn_byte crc b ≡ feed poly_castagnoli crc (b ∷ []))
      (word_law : (crc w : ℕ)
        → w < 2 ^ 64
        → insn_word crc w ≡ feed poly_castagnoli crc (le_bytes 8 w)) where
    hw_byte_lem :
        (crc : ℕ) (xs rest : List ℕ)
        → All IsByte xs
        → crc32c_intel_le_hw_byte crc (xs ++ rest) (length xs)
          ≡ done (feed poly_castagnoli crc xs, rest)
    unfolding crc32c_intel_le_hw_byte
    hw_byte_lem crc [] rest hb = refl
    hw_byte_lem crc (x ∷ xs) rest hb =
        rw (byte_law crc x hb.0, hw_byte_lem (feed poly_castagnoli crc (x ∷ [])) xs rest hb.1) refl

    -- A word in memory has the bytes that it lies on.
    word_round :
        (crc a b c d e f g h : ℕ)
        → All IsByte (a ∷ b ∷ c ∷ d ∷ e ∷ f ∷ g ∷ h ∷ [])
        → insn_word crc (le_word a b c d e f g h)
          ≡ feed poly_castagnoli crc (a ∷ b ∷ c ∷ d ∷ e ∷ f ∷ g ∷ h ∷ [])
    word_round crc a b c d e f g h hb =
        word_law crc (le_word a b c d e f g h) (omega arith)
        ∙ ap (feed poly_castagnoli crc) (le_bytes-le_word a b c d e f g h hb)

    word_loop_lem :
        (crc n : ℕ) (xs rest : List ℕ)
        → length xs ≡ n * 8
        → All IsByte xs
        → word_loop crc (xs ++ rest) n ≡ done (feed poly_castagnoli crc xs, rest)
    unfolding word_loop
    word_loop_lem crc zero [] rest e hb = refl
    word_loop_lem crc zero (x ∷ xs) rest e hb = absurd (omega arith)
    word_loop_lem crc (suc n) (a ∷ b ∷ c ∷ d ∷ e ∷ f ∷ g ∷ h ∷ xs) rest len
          (ha, (hb, (hc, (hd, (he, (hf, (hg, (hh, hs)))))))) =
        rw (word_round crc a b c d e f g h (ha, (hb, (hc, (hd, (he, (hf, (hg, (hh, tt))))))))) (
          word_loop_lem (feed poly_castagnoli crc (a ∷ b ∷ c ∷ d ∷ e ∷ f ∷ g ∷ h ∷ [])) n xs rest
            (omega arith) hs)
    word_loop_lem crc (suc n) [] rest e hb = absurd (omega arith)
    word_loop_lem crc (suc n) (_ ∷ []) rest e hb = absurd (omega arith)
    word_loop_lem crc (suc n) (_ ∷ _ ∷ []) rest e hb = absurd (omega arith)
    word_loop_lem crc (suc n) (_ ∷ _ ∷ _ ∷ []) rest e hb = absurd (omega arith)
    word_loop_lem crc (suc n) (_ ∷ _ ∷ _ ∷ _ ∷ []) rest e hb = absurd (omega arith)
    word_loop_lem crc (suc n) (_ ∷ _ ∷ _ ∷ _ ∷ _ ∷ []) rest e hb = absurd (omega arith)
    word_loop_lem crc (suc n) (_ ∷ _ ∷ _ ∷ _ ∷ _ ∷ _ ∷ []) rest e hb = absurd (omega arith)
    word_loop_lem crc (suc n) (_ ∷ _ ∷ _ ∷ _ ∷ _ ∷ _ ∷ _ ∷ []) rest e hb = absurd (omega arith)

    -- The two loops over a buffer that is cut in two.
    hw_parts :
        (crc n : ℕ) (ys zs rest : List ℕ)
        → n / 8 < 2 ^ 32
        → length ys ≡ n / 8 * 8
        → length zs ≡ n % 8
        → All IsByte ys
        → All IsByte zs
        → crc32c_intel_le_hw crc (ys ++ (zs ++ rest)) n ≡ done (feed poly_castagnoli crc (ys ++ zs))
    unfolding crc32c_intel_le_hw
    hw_parts crc n ys [] rest hn ly lz by bz =
        let all_words : n / 8 % 2 ^ 32 ≡ n / 8 = omega arith in
        let none_left : n % 8 ≡ 0 = omega arith in
        rw (all_words, none_left, word_loop_lem crc (n / 8) ys rest ly by, append-nil ys) refl
    hw_parts crc n ys (z ∷ zs) rest hn ly lz by bz =
        let all_words : n / 8 % 2 ^ 32 ≡ n / 8 = omega arith in
        let some_left : (n % 8 == 0) ≡ false = ground arith in
        rw
          (
            all_words,
            word_loop_lem crc (n / 8) ys (z ∷ zs ++ rest) ly by,
            some_left,
            ← lz,
            hw_byte_lem (feed poly_castagnoli crc ys) (z ∷ zs) rest bz,
            feed-append poly_castagnoli crc ys (z ∷ zs),
          )
          refl

    -- With the instruction that the manual describes, `crc32c_intel_le_hw` returns the register that
    -- the bytes asked for, fewer than 2 ^ 35, leave behind with the Castagnoli polynomial, bit by bit,
    -- and reads no other byte.
    pub crc32c_intel_le_hw_lem :
        (crc : ℕ) (xs rest : List ℕ)
        → length xs < 2 ^ 35
        → All IsByte xs
        → crc32c_intel_le_hw crc (xs ++ rest) (length xs) ≡ done (feed poly_castagnoli crc xs)
    crc32c_intel_le_hw_lem crc xs rest hn hb =
        let (ys, zs, e, ly) = cut (length xs / 8 * 8) xs (omega arith) in
        let bytes = All-split IsByte ys zs (subst (All IsByte) e hb) in
        let total : length xs ≡ length ys + length zs = ap length e ∙ length-append ys zs in
        ap (λ l. crc32c_intel_le_hw crc (l ++ rest) (length xs)) e
        ∙ ap (λ l. crc32c_intel_le_hw crc l (length xs)) (append_assoc ys zs rest)
        ∙ hw_parts crc (length xs) ys zs rest (omega arith) ly (omega arith) bytes.0 bytes.1
        ∙ ap (λ l. done (feed poly_castagnoli crc l)) (sym e)
