-- ===== src/Base/Step.antt =====
-- One equation for the lowest binary digit of `bit_and` and `bit_or`, whose meaning in the library
-- is a recursion on digits with fuel.
use Prim.Native.Nat.{
  ℕ, zero, suc, ◌+◌, ◌*◌, ◌/◌, ◌%◌, ◌≤◌, ◌<◌, min, max, bit_and, bit_or, digits, bitwise,
  bit_and-bitwise, bit_or-bitwise, bit_xor, bit_xor-bitwise, differ,
}
use mathlib.Core.Path.{◌≡◌, refl, sym, ap, ◌∙◌}
use native.Mathlib.Nat.{le_refl}
use native.Mathlib.Omega.{arith}

-- The library recurses on digits with fuel `left`; no digit is left at 0, whatever the fuel is.
module _ (rest : ℕ → ℕ) (digit : ℕ → ℕ → ℕ) where
  digits-zero : (left y : ℕ) → digits rest digit left zero y ≡ rest y
  digits-zero zero y = refl
  digits-zero (suc left) y = refl

  enough_fuel :
      (left x y : ℕ) (more : ℕ)
      → x ≤ left
      → left ≤ more
      → digits rest digit more x y ≡ digits rest digit left x y
  enough_fuel left zero y more fits _ = digits-zero more y ∙ sym (digits-zero left y)
  enough_fuel (suc left) (suc x) y (suc more) fits grows =
      ap (λ (high : ℕ). high * 2 + digit (suc x % 2) (y % 2))
        (enough_fuel left (suc x / 2) (y / 2) more (omega arith) (omega arith))
  enough_fuel zero (suc x) y more fits grows = absurd (omega arith)
  enough_fuel (suc left) (suc x) y zero fits grows = absurd (omega arith)

  lowest_digit :
      (x y : ℕ)
      → bitwise rest digit (suc x) y
        ≡ bitwise rest digit (suc x / 2) (y / 2) * 2 + digit (suc x % 2) (y % 2)
  lowest_digit x y =
      ap (λ (high : ℕ). high * 2 + digit (suc x % 2) (y % 2))
        (enough_fuel (suc x / 2) (suc x / 2) (y / 2) x (le_refl (suc x / 2)) (omega arith))

pub bit_and_step : (x y : ℕ) → bit_and x y ≡ bit_and (x / 2) (y / 2) * 2 + min (x % 2) (y % 2)
bit_and_step (suc x) y = simp bit_and-bitwise (lowest_digit (λ n. 0) min x y)
bit_and_step zero y = simp bit_and-bitwise (omega arith)

pub bit_or_step : (x y : ℕ) → bit_or x y ≡ bit_or (x / 2) (y / 2) * 2 + max (x % 2) (y % 2)
bit_or_step (suc x) y = simp bit_or-bitwise (lowest_digit (λ n. n) max x y)
bit_or_step zero y = simp bit_or-bitwise (omega arith)

differ_digits : (x y : ℕ) → x < 2 → y < 2 → differ x y ≡ (x + y) % 2
differ_digits zero y hx hy = omega arith
differ_digits (suc zero) zero hx hy = refl
differ_digits (suc zero) (suc zero) hx hy = refl
differ_digits (suc zero) (suc (suc y)) hx hy = absurd (omega arith)
differ_digits (suc (suc x)) y hx hy = absurd (omega arith)

pub bit_xor_step : (a b : ℕ) → bit_xor a b ≡ bit_xor (a / 2) (b / 2) * 2 + (a + b) % 2
bit_xor_step zero b = simp bit_xor-bitwise (omega arith)
bit_xor_step (suc a) b =
    let d : differ (suc a % 2) (b % 2) ≡ (suc a % 2 + b % 2) % 2 =
      differ_digits (suc a % 2) (b % 2) (omega arith) (omega arith) in
    simp bit_xor-bitwise (omega (arith, d, lowest_digit (λ n. n) differ a b))
