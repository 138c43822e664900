-- ===== src/Base/Masks.antt =====
-- The masks of a single bit: setting, clearing and testing it.
use Prim.Native.Nat.{ℕ, ◌-◌, ◌^◌, ◌<◌}
use mathlib.Core.Path.{◌≡◌, refl}
use mathlib.Core.Bool.{Bool, true, false}
use native.Mathlib.Nat.{one-le-pow}
use native.Mathlib.Omega.{arith}
use byt.Base.Tests.{◌==◌, if◌then◌else◌, ltb, ltb→lt}
use byt.Base.Bits.{
  bit_at, set_bits, clear_bits, has_bits, bit_at-or, bit_at-and, bit_at-complement, bit_at-pow,
  bit_at-le, bit_and-pow, all_below, all_below_sound,
}

-- Setting or clearing the mask of bit `k` acts on that bit alone.
pub bit_at-set_bits :
    (x k j : ℕ) → bit_at (set_bits x (2 ^ k)) j ≡ (if k == j then 1 else bit_at x j)
unfolding set_bits
bit_at-set_bits x k j = ground (arith, bit_at-or x (2 ^ k) j, bit_at-pow k j, bit_at-le x j)

pub pow_fits : (k : ℕ) → k < 8 → 2 ^ k < 256
unfolding all_below
pow_fits k h = ltb→lt (2 ^ k) 256 (all_below_sound 8 (λ j. ltb (2 ^ j) 256) k table h)
  where
    table : all_below 8 (λ j. ltb (2 ^ j) 256) ≡ true
    table = refl

pub bit_at-clear_bits :
    (x k j : ℕ)
    → k < 8
    → j < 8
    → bit_at (clear_bits x (2 ^ k)) j ≡ (if k == j then 0 else bit_at x j)
unfolding clear_bits
bit_at-clear_bits x k j hk hj = ground (
  arith,
  bit_at-and x (255 - 2 ^ k) j,
  bit_at-complement (2 ^ k) j (pow_fits k hk) hj,
  bit_at-pow k j,
  bit_at-le x j,
)

pub has_bits-pow : (x k : ℕ) → k < 8 → has_bits x (2 ^ k) ≡ (bit_at x k == 1)
unfolding has_bits
has_bits-pow x k h = grind (arith, bit_and-pow x k, bit_at-le x k, one-le-pow k 2)

-- A bit written and read.
pub has_bits_written :
    (v : Bool) (x k j : ℕ)
    → k < 8
    → j < 8
    → has_bits (if v then set_bits x (2 ^ k) else clear_bits x (2 ^ k)) (2 ^ j)
      ≡ (if k == j then v else has_bits x (2 ^ j))
has_bits_written true x k j hk hj =
    ground
      (arith, has_bits-pow (set_bits x (2 ^ k)) j hj, bit_at-set_bits x k j, has_bits-pow x j hj)
has_bits_written false x k j hk hj = ground (
  arith,
  has_bits-pow (clear_bits x (2 ^ k)) j hj,
  bit_at-clear_bits x k j hk hj,
  has_bits-pow x j hj,
)
