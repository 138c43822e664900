-- ===== src/Base/Bits.antt =====
-- The bits of a byte or word: what `|`, `&` and `~` do to each of them.
use Prim.Native.Nat.{
  ℕ, zero, suc, ◌+◌, ◌-◌, ◌*◌, ◌/◌, ◌%◌, ◌^◌, ◌≤◌, ◌<◌, min, max, bit_and, bit_or, bit_and-bitwise,
}
use mathlib.Core.Path.{◌≡◌, refl, ap}
use mathlib.Core.Bool.{Bool, true, not, ◌&&◌}
use native.Mathlib.Nat.{pow-suc, one-le-pow}
use native.Mathlib.Omega.{arith}
use byt.Base.Tests.{◌==◌, if◌then◌else◌}
use byt.Base.Step.{bit_and_step, bit_or_step}

-- Bit `i` of `x`, as 0 or 1.
unfoldable pub bit_at : ℕ → ℕ → ℕ
bit_at x zero = x % 2
bit_at x (suc i) = bit_at (x / 2) i

-- `r |= m`, `r &= ~m` and `(bool)(r & m)` of a `uint8_t`.
unfoldable pub set_bits : ℕ → ℕ → ℕ
set_bits r m = bit_or r m

unfoldable pub clear_bits : ℕ → ℕ → ℕ
clear_bits r m = bit_and r (255 - m)

unfoldable pub has_bits : ℕ → ℕ → Bool
has_bits r m = not (bit_and r m == 0)

pub bit_at-le : (x i : ℕ) → bit_at x i ≤ 1
unfolding bit_at
bit_at-le x zero = omega arith
bit_at-le x (suc i) = bit_at-le (x / 2) i

pub bit_at-or : (a b i : ℕ) → bit_at (bit_or a b) i ≡ max (bit_at a i) (bit_at b i)
unfolding bit_at
bit_at-or a b zero = omega (arith, bit_or_step a b)
bit_at-or a b (suc i) =
    rw (let e : bit_or a b / 2 ≡ bit_or (a / 2) (b / 2) = omega (arith, bit_or_step a b) in e)
      (bit_at-or (a / 2) (b / 2) i)

pub bit_at-and : (a b i : ℕ) → bit_at (bit_and a b) i ≡ min (bit_at a i) (bit_at b i)
unfolding bit_at
bit_at-and a b zero = omega (arith, bit_and_step a b)
bit_at-and a b (suc i) =
    rw (let e : bit_and a b / 2 ≡ bit_and (a / 2) (b / 2) = omega (arith, bit_and_step a b) in e)
      (bit_at-and (a / 2) (b / 2) i)

pub bit_and-zero : (a : ℕ) → bit_and a 0 ≡ 0
bit_and-zero a = go a a (omega arith)
  where
    go : (n a : ℕ) → a ≤ n → bit_and a 0 ≡ 0
    go n zero h = refl
    go zero (suc a) h = absurd (omega arith)
    go (suc n) (suc a) h = omega (arith, bit_and_step (suc a) 0, go n (suc a / 2) (omega arith))

pub bit_or-zero : (a : ℕ) → bit_or a 0 ≡ a
bit_or-zero a = go a a (omega arith)
  where
    go : (n a : ℕ) → a ≤ n → bit_or a 0 ≡ a
    go n zero h = refl
    go zero (suc a) h = absurd (omega arith)
    go (suc n) (suc a) h = omega (arith, bit_or_step (suc a) 0, go n (suc a / 2) (omega arith))

pub bit_at-zero : (i : ℕ) → bit_at 0 i ≡ 0
unfolding bit_at
bit_at-zero zero = refl
bit_at-zero (suc i) = bit_at-zero i

-- The mask `1 << i` has bit `i` alone.
pub bit_at-pow : (i j : ℕ) → bit_at (2 ^ i) j ≡ (if i == j then 1 else 0)
unfolding bit_at
bit_at-pow zero zero = refl
bit_at-pow zero (suc j) = ground (arith, bit_at-zero j)
bit_at-pow (suc i) zero = ground (arith, pow-suc 2 i)
bit_at-pow (suc i) (suc j) =
    rw (let e : 2 ^ suc i / 2 ≡ 2 ^ i = omega (arith, pow-suc 2 i) in e)
      (ground (arith, bit_at-pow i j))

pub bit_and-pow : (x i : ℕ) → bit_and x (2 ^ i) ≡ bit_at x i * 2 ^ i
unfolding bit_at
bit_and-pow x zero = omega (arith, bit_and_step x 1, bit_and-zero (x / 2))
bit_and-pow x (suc i) =
    let e : 2 ^ suc i / 2 ≡ 2 ^ i = omega (arith, pow-suc 2 i) in
    omega (
      arith,
      bit_and_step x (2 ^ suc i),
      ap (λ (t : ℕ). bit_and (x / 2) t) e,
      bit_and-pow (x / 2) i,
      pow-suc 2 i,
      ap (λ (t : ℕ). bit_at (x / 2) i * t) (pow-suc 2 i),
    )

pub complement_below : (n x i : ℕ) → x < 2 ^ n → i < n → bit_at (2 ^ n - 1 - x) i ≡ 1 - bit_at x i
unfolding bit_at
complement_below zero x i hx hi = absurd (omega arith)
complement_below (suc n) x zero hx hi = omega (arith, pow-suc 2 n, one-le-pow n 2)
complement_below (suc n) x (suc i) hx hi =
    let p : 2 ^ suc n ≡ 2 ^ n * 2 = pow-suc 2 n in
    rw (let e : (2 ^ suc n - 1 - x) / 2 ≡ 2 ^ n - 1 - x / 2 = omega (arith, one-le-pow n 2) in e)
      (complement_below n (x / 2) i (omega arith) (omega arith))

-- `~x` of a byte turns each bit over.
pub bit_at-complement : (x i : ℕ) → x < 256 → i < 8 → bit_at (255 - x) i ≡ 1 - bit_at x i
bit_at-complement x i hx hi = complement_below 8 x i hx hi

-- Two numbers of `n` bits with the same bits are equal.
pub byte_eq :
    (n a b : ℕ) → a < 2 ^ n → b < 2 ^ n → ((i : ℕ) → i < n → bit_at a i ≡ bit_at b i) → a ≡ b
unfolding bit_at
byte_eq zero a b ha hb h = omega arith
byte_eq (suc n) a b ha hb h = omega (
  arith,
  h 0 (omega arith),
  byte_eq n (a / 2) (b / 2) (omega (arith, pow-suc 2 n)) (omega (arith, pow-suc 2 n))
      (λ i hi. h (suc i) (omega arith)),
)

pub or_below : (n a b : ℕ) → a < 2 ^ n → b < 2 ^ n → bit_or a b < 2 ^ n
or_below zero a b ha hb =
    let p : a ≡ 0 = omega arith in let q : b ≡ 0 = omega arith in rw (p, q) (omega arith)
or_below (suc n) a b ha hb = omega (
  arith,
  pow-suc 2 n,
  bit_or_step a b,
  or_below n (a / 2) (b / 2) (omega (arith, pow-suc 2 n)) (omega (arith, pow-suc 2 n)),
)

-- The order of the operands of `|` does not matter.
pub bit_or_comm : (n a b : ℕ) → a < 2 ^ n → b < 2 ^ n → bit_or a b ≡ bit_or b a
bit_or_comm zero a b ha hb =
    let p : a ≡ 0 = omega arith in let q : b ≡ 0 = omega arith in rw (p, q) refl
bit_or_comm (suc n) a b ha hb = omega (
  arith,
  pow-suc 2 n,
  bit_or_step a b,
  bit_or_step b a,
  bit_or_comm n (a / 2) (b / 2) (omega (arith, pow-suc 2 n)) (omega (arith, pow-suc 2 n)),
)

pub bit_or-byte : (a b : ℕ) → a < 256 → b < 256 → bit_or a b < 256
bit_or-byte a b ha hb = or_below 8 a b ha hb

and_le : (n a b : ℕ) → a ≤ n → bit_and a b ≤ a
and_le n zero b h = omega (arith, bit_and_step 0 b, zero_and b)
  where
    zero_and : (b : ℕ) → bit_and 0 b ≡ 0
    zero_and b = simp bit_and-bitwise
and_le zero (suc a) b h = absurd (omega arith)
and_le (suc n) (suc a) b h =
    omega (arith, bit_and_step (suc a) b, and_le n (suc a / 2) (b / 2) (omega arith))

pub bit_and-byte_le : (a b : ℕ) → bit_and a b ≤ a
bit_and-byte_le a b = and_le a a b (omega arith)

-- `(q << k) | r` is a sum when `r` fits `k` bits.
pub bit_or_fields : (k q r : ℕ) → r < 2 ^ k → bit_or (q * 2 ^ k) r ≡ q * 2 ^ k + r
bit_or_fields zero q r fits = ground (arith, bit_or-zero q)
bit_or_fields (suc k) q r fits =
    let p : q * 2 ^ suc k ≡ 2 * (q * 2 ^ k) = omega (arith, ap (λ (t : ℕ). q * t) (pow-suc 2 k)) in
    ground (
      arith,
      bit_or_step (q * 2 ^ suc k) r,
      pow-suc 2 k,
      bit_or_fields k q (r / 2) (omega (arith, pow-suc 2 k)),
    )

-- `x & ((1 << k) - 1)` is the remainder by `2 ^ k`.
pub low_bits_lem : (k x : ℕ) → bit_and x (2 ^ k - 1) ≡ x % 2 ^ k
low_bits_lem zero x = omega (arith, bit_and-zero x)
low_bits_lem (suc k) x =
    let p : 2 ^ suc k ≡ 2 ^ k * 2 = pow-suc 2 k in
    let q : (2 ^ suc k - 1) / 2 ≡ 2 ^ k - 1 = omega (arith, one-le-pow k 2) in
    let d : x % (2 ^ k * 2) ≡ x / 2 % 2 ^ k * 2 + x % 2 = grind (arith, one-le-pow k 2) in
    omega (
      arith,
      bit_and_step x (2 ^ suc k - 1),
      ap (λ (t : ℕ). bit_and (x / 2) t) q,
      low_bits_lem k (x / 2),
      one-le-pow k 2,
      ap (λ (t : ℕ). x % t) p,
    )

-- A test made at every value below a limit, by evaluation.
unfoldable pub all_below : ℕ → (ℕ → Bool) → Bool
all_below (suc limit) test = test limit && all_below limit test
all_below zero test = true

pub all_below_sound :
    (limit : ℕ) (test : ℕ → Bool) (v : ℕ) → all_below limit test ≡ true → v < limit → test v ≡ true
unfolding all_below
all_below_sound (suc limit) test v passed inside = ground (arith, all_below_sound limit test v)
all_below_sound zero test v passed inside = absurd (omega arith)
