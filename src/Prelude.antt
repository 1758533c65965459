-- ===== src/Prelude.antt =====
-- The names that the other modules share: those of the libraries, passed on, and those of the
-- children: tests on numbers, lists by native index, C integers, runs that can stop, bits.
mod Tests
mod Lists
mod Reads
mod Order
mod Int
mod Outcomes
mod Loops
mod Below
mod Bits
mod Xor
mod Fields
pub use Tests.*
pub use Lists.*
pub use Reads.*
pub use Order.*
unfoldable pub use Int.*
pub use Outcomes.*
unfoldable pub use Loops.{count_up}
unfoldable pub use Below.{all_below}
pub use Below.{all_below_sound}
pub use Bits.*
pub use Xor.*
pub use Fields.*
pub use Prim.Native.Nat.{ℕ, zero, suc, ◌+◌, ◌-◌, ◌*◌, ◌/◌, ◌%◌, ◌^◌, ◌≤◌, ◌<◌, min}
pub use Prim.Native.Nat.{bit_and, bit_or, bit_xor}
pub use mathlib.Core.Path.{◌≡◌, refl, sym, subst, ap, ap₂, ◌∙◌, ◌≡⟨◌⟩◌, ◌∎}
pub use mathlib.Core.Logic.{◌≢◌, ◌↔◌, ◌⊎◌, inl, inr}
pub use mathlib.Core.Bool.{Bool, true, false, not, ◌&&◌, ◌||◌, true≢false, false≢true}
pub use mathlib.Core.Option.{Option, none, some, none-ne-some, some-injective}
pub use mathlib.Core.List.{List, [], ◌∷◌, ◌++◌, map, append-nil, append_assoc}
pub use native.Mathlib.Omega.{arith}
