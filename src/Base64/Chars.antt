-- ===== src/Base64/Chars.antt =====
-- The two tables of base64/b64.c, filled: what each holds, and that they undo one another.
use bsl45_misc_tools.Prelude.{
  ℕ, ◌<◌, ◌≡◌, ◌≢◌, refl, arith, List, Bool, true, ◌&&◌, not, ◌⊎◌, inl, inr, ◌==◌, get_or,
  replicate, bit_and, all_below, all_below_sound,
}
use bsl45_misc_tools.Base64.{Tables, at_start, init_etable, init_dtable, b64_init, ensure}

-- The tables that `b64_init` makes.
unfoldable pub etable : List ℕ
unfolding init_etable
etable = init_etable (replicate 64 0)

unfoldable pub dtable : List ℕ
unfolding init_dtable
dtable = init_dtable (replicate 256 0)

-- The states that the module passes through.
abbrev pub IsState : Tables → Type 0
IsState t = (t ≡ at_start) ⊎ (t ≡ record { g_etable = etable; g_dtable = dtable; g_ready = true })

-- Whatever was called before, `ensure` gives the filled tables.
pub ensure_lem :
    (t : Tables)
    → IsState t
    → ensure t ≡ record { g_etable = etable; g_dtable = dtable; g_ready = true }
unfolding ensure b64_init etable dtable
ensure_lem t (inl e) = rw e
ensure_lem t (inr e) = rw e

abbrev is_sound : ℕ → Bool
is_sound i =
    let c = get_or etable i 0 in
    (get_or dtable c 0 == i) && (bit_and (get_or dtable c 0) 0x80 == 0) && not (c == b'=')

chars_checked : all_below 64 is_sound ≡ true
unfolding all_below etable dtable
chars_checked = refl

-- A character of the alphabet decodes to its index, and is neither invalid nor the padding.
pub char_lem :
    (i : ℕ)
    → i < 64
    → (get_or dtable (get_or etable i 0) 0 ≡ i) × (bit_and i 0x80 ≡ 0) × (get_or etable i 0 ≢ b'=')
char_lem i h = ground (arith, all_below_sound 64 is_sound chars_checked i h)

pub padding_lem : get_or dtable b'=' 0 ≡ 0
unfolding dtable
padding_lem = refl
