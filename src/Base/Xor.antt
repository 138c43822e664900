-- ===== src/Base/Xor.antt =====
-- The laws of `^` on numbers of a fixed width.
use Prim.Native.Nat.{ℕ, zero, suc, ◌/◌, ◌^◌, ◌<◌, bit_xor}
use mathlib.Core.Path.{◌≡◌, ap}
use native.Mathlib.Nat.{pow-suc}
use native.Mathlib.Omega.{arith}
use byt.Base.Step.{bit_xor_step}

pub bit_xor-lt : (n a b : ℕ) → a < 2 ^ n → b < 2 ^ n → bit_xor a b < 2 ^ n
bit_xor-lt zero a b ha hb =
    let p : a ≡ 0 = omega arith in let q : b ≡ 0 = omega arith in rw (p, q) (omega arith)
bit_xor-lt (suc n) a b ha hb = omega (
  arith,
  pow-suc 2 n,
  bit_xor_step a b,
  bit_xor-lt n (a / 2) (b / 2) (omega (arith, pow-suc 2 n)) (omega (arith, pow-suc 2 n)),
)

-- `a ^ (a ^ b)` is `b`.
pub bit_xor_cancel : (n a b : ℕ) → a < 2 ^ n → b < 2 ^ n → bit_xor a (bit_xor a b) ≡ b
bit_xor_cancel zero a b ha hb =
    let p : a ≡ 0 = omega arith in let q : b ≡ 0 = omega arith in rw (p, q)
bit_xor_cancel (suc n) a b ha hb =
    let half : bit_xor a b / 2 ≡ bit_xor (a / 2) (b / 2) = omega (arith, bit_xor_step a b) in
    omega (
      arith,
      bit_xor_step a (bit_xor a b),
      bit_xor_step a b,
      ap (λ (t : ℕ). bit_xor (a / 2) t) half,
      bit_xor_cancel n (a / 2) (b / 2) (omega (arith, pow-suc 2 n)) (omega (arith, pow-suc 2 n)),
    )

pub bit_xor_comm : (n a b : ℕ) → a < 2 ^ n → b < 2 ^ n → bit_xor a b ≡ bit_xor b a
bit_xor_comm zero a b ha hb =
    let p : a ≡ 0 = omega arith in let q : b ≡ 0 = omega arith in rw (p, q)
bit_xor_comm (suc n) a b ha hb = omega (
  arith,
  bit_xor_step a b,
  bit_xor_step b a,
  bit_xor_comm n (a / 2) (b / 2) (omega (arith, pow-suc 2 n)) (omega (arith, pow-suc 2 n)),
)

pub bit_xor_self : (n a : ℕ) → a < 2 ^ n → bit_xor a a ≡ 0
bit_xor_self zero a ha = let p : a ≡ 0 = omega arith in rw p
bit_xor_self (suc n) a ha =
    omega (arith, bit_xor_step a a, bit_xor_self n (a / 2) (omega (arith, pow-suc 2 n)))

pub bit_xor-zero : (n a : ℕ) → a < 2 ^ n → bit_xor a 0 ≡ a
bit_xor-zero zero a ha = let p : a ≡ 0 = omega arith in rw p
bit_xor-zero (suc n) a ha =
    omega (arith, bit_xor_step a 0, bit_xor-zero n (a / 2) (omega (arith, pow-suc 2 n)))
