-- ===== src/Base.antt =====
-- Names that the components share: the libraries', passed on, and those of the children (Boolean
-- tests, lists over the native numbers, bytes and their bits).
mod Tests
mod Lists
mod Step
mod Bits
mod Xor
mod Masks
pub use Masks.*
pub use Xor.*
pub use Tests.*
pub use Lists.*
unfoldable pub use Bits.{bit_at, set_bits, clear_bits, has_bits, all_below}
pub use Bits.{
  bit_at-or, bit_at-and, bit_at-complement, complement_below, bit_at-pow, bit_and-pow, bit_and-zero,
  bit_or-zero, bit_at-le, byte_eq, all_below_sound, bit_and-byte_le, bit_or-byte, low_bits_lem,
  bit_or_fields, or_below, bit_or_comm, bit_at-zero,
}
pub use Prim.Native.Nat.{
  ℕ, zero, suc, ◌+◌, ◌-◌, ◌*◌, ◌/◌, ◌%◌, ◌^◌, ◌≤◌, ◌<◌, min, max, bit_and, bit_or, bit_xor,
}
pub use mathlib.Core.Path.{◌≡◌, refl, sym, ap, ap₂, ◌∙◌, subst}
pub use mathlib.Core.Logic.{◌≢◌, ◌↔◌, ◌⊎◌, inl, inr}
pub use mathlib.Core.Bool.{Bool, true, false, not, ◌&&◌, ◌||◌}
pub use mathlib.Core.Option.{Option, none, some}
pub use mathlib.Core.List.{List, [], ◌∷◌, ◌++◌, map}
pub use native.Mathlib.Omega.{arith}
