-- ===== src/Prelude/Loops.antt =====
-- A counted loop, `for (i = start; …; i++)` with `rounds` rounds.
use Prim.Native.Nat.{ℕ, zero, suc, ◌+◌}

unfoldable pub count_up {ℓ} : {S : Type ℓ} → ℕ → ℕ → (ℕ → S → S) → S → S
count_up zero i body s = s
count_up (suc rounds) i body s = count_up rounds (i + 1) body (body i s)
