-- ===== src/Ot/Tests.antt =====
-- The parity of bytd/src/OpenTherm.cpp at concrete inputs.
use byt.Base.{ℕ, zero, suc, ◌≡◌, ◌≢◌, refl, [], ◌∷◌, bit_at, arith}
use byt.Ot.{parity, received, invalid, ot_ok}
use byt.Ot.Parity.{received-flipped}

same_but_one : (i : ℕ) → i ≢ 1 → bit_at 3 i ≡ bit_at 1 i
unfolding bit_at
same_but_one zero h = refl
same_but_one (suc zero) h = absurd (h refl)
same_but_one (suc (suc i)) h = refl

unlike : bit_at 3 1 ≢ bit_at 1 1
unfolding bit_at
unlike = omega arith

three_passes : parity 3 ≡ 3
unfolding parity
three_passes = refl

received-flipped_example :
    (received (record { size = 8; words = ot_ok ∷ 3 ∷ [] }) ≡ 3)
    × (received (record { size = 8; words = ot_ok ∷ 1 ∷ [] }) ≡ invalid)
received-flipped_example =
    received-flipped 3 1 1 (omega arith) (omega arith) (omega arith) three_passes same_but_one
      unlike
