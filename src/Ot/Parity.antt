-- ===== src/Ot/Parity.antt =====
-- The parity bit of bytd/src/OpenTherm.cpp.
use byt.Base.{
  ℕ, zero, suc, ◌+◌, ◌%◌, ◌^◌, ◌<◌, ◌≡◌, ◌≢◌, ◌↔◌, inl, inr, refl, sym, ap, subst, ◌∙◌, true, [],
  ◌∷◌, ◌==◌, bit_and, bit_or, bit_at, bit_at-and, bit_at-or, bit_at-pow, bit_and-pow, bit_at-le,
  byte_eq, all_below, all_below_sound, low_bits_lem, ==_iff, or_below, Bool-cases, if-true,
  if-false, arith,
}
use native.Mathlib.Nat.{one-le-pow}
use byt.Ot.{count, with_top_bit, parity, received, invalid, ot_ok}

-- The ones among the lowest `n` bits.
unfoldable pub ones : ℕ → ℕ → ℕ
ones zero v = 0
ones (suc n) v = ones n v + bit_at v n

count-ones : (n v : ℕ) → count n v ≡ ones n v
unfolding count ones
count-ones zero v = refl
count-ones (suc n) v = grind (arith, count-ones n v, bit_and-pow v n, bit_at-le v n, one-le-pow n 2)

low_mask : (i : ℕ) → i < 31 → bit_at 0x7FFFFFFF i ≡ 1
low_mask i h = ground (arith, all_below_sound 31 (λ j. bit_at 0x7FFFFFFF j == 1) i table h)
  where
    table : all_below 31 (λ j. bit_at 0x7FFFFFFF j == 1) ≡ true
    table = unfold all_below bit_at in refl

high_mask : bit_at 0x7FFFFFFF 31 ≡ 0
high_mask = unfold bit_at in refl

with_top_bit-low : (c v i : ℕ) → i < 31 → bit_at (with_top_bit c v) i ≡ bit_at v i
unfolding with_top_bit
with_top_bit-low c v i h = elim (Bool-cases (bit_and c 1 == 0)) [
  | inl e ↦
      ap (λ q. bit_at q i) (if-true (bit_and c 1 == 0) (bit_and v 0x7FFFFFFF) (bit_or v (2 ^ 31)) e)
      ∙ bit_at-and v 0x7FFFFFFF i
      ∙ omega (arith, low_mask i h, bit_at-le v i)
  | inr e ↦
      ap (λ q. bit_at q i)
        (if-false (bit_and c 1 == 0) (bit_and v 0x7FFFFFFF) (bit_or v (2 ^ 31)) e)
      ∙ bit_at-or v (2 ^ 31) i
      ∙ ground (arith, bit_at-pow 31 i, h)
]

with_top_bit-top : (c v : ℕ) → bit_at (with_top_bit c v) 31 ≡ c % 2
unfolding with_top_bit
with_top_bit-top c v =
    let last : bit_and c 1 ≡ c % 2 = low_bits_lem 1 c in
    elim (Bool-cases (bit_and c 1 == 0)) [
      | inl e ↦
          ap (λ q. bit_at q 31)
            (if-true (bit_and c 1 == 0) (bit_and v 0x7FFFFFFF) (bit_or v (2 ^ 31)) e)
          ∙ bit_at-and v 0x7FFFFFFF 31
          ∙ ground (arith, high_mask, last, e)
      | inr e ↦
          ap (λ q. bit_at q 31)
            (if-false (bit_and c 1 == 0) (bit_and v 0x7FFFFFFF) (bit_or v (2 ^ 31)) e)
          ∙ bit_at-or v (2 ^ 31) 31
          ∙ ground (arith, bit_at-pow 31 31, bit_at-le v 31, last, e)
    ]

ones-same : (n v w : ℕ) → ((i : ℕ) → i < n → bit_at v i ≡ bit_at w i) → ones n v ≡ ones n w
unfolding ones
ones-same zero v w h = refl
ones-same (suc n) v w h =
    omega (arith, ones-same n v w (λ i k. h i (omega (arith, k))), h n (omega arith))

ones_step : (n v : ℕ) → ones (suc n) v ≡ ones n v + bit_at v n
unfolding ones
ones_step n v = refl

even_after : (c v : ℕ) → c ≡ ones 31 v → ones 32 (with_top_bit c v) % 2 ≡ 0
even_after c v e =
    let same = ones-same 31 (with_top_bit c v) v (with_top_bit-low c v) in
    omega (arith, ones_step 31 (with_top_bit c v), same, with_top_bit-top c v, e)

parity-with_top_bit : (v : ℕ) → parity v ≡ with_top_bit (count 31 v) v
unfolding parity
parity-with_top_bit v = refl

-- The word that is sent has the 31 lower bits of the frame, and an even number of ones.
pub parity_lem :
    (v : ℕ) → ((i : ℕ) → i < 31 → bit_at (parity v) i ≡ bit_at v i) × (ones 32 (parity v) % 2 ≡ 0)
parity_lem v =
    subst (λ q. ((i : ℕ) → i < 31 → bit_at q i ≡ bit_at v i) × (ones 32 q % 2 ≡ 0))
      (sym (parity-with_top_bit v))
      (with_top_bit-low (count 31 v) v, even_after (count 31 v) v (count-ones 31 v))

with_top_bit-bounds : (c v : ℕ) → v < 2 ^ 32 → with_top_bit c v < 2 ^ 32
unfolding with_top_bit
with_top_bit-bounds c v h = elim (Bool-cases (bit_and c 1 == 0)) [
  | inl e ↦
      let low : bit_and v 0x7FFFFFFF ≡ v % 2 ^ 31 = low_bits_lem 31 v in
      subst (λ q. q < 2 ^ 32)
        (sym (if-true (bit_and c 1 == 0) (bit_and v 0x7FFFFFFF) (bit_or v (2 ^ 31)) e))
        (omega (arith, low))
  | inr e ↦
      subst (λ q. q < 2 ^ 32)
        (sym (if-false (bit_and c 1 == 0) (bit_and v 0x7FFFFFFF) (bit_or v (2 ^ 31)) e))
        (or_below 32 v (2 ^ 31) h (omega arith))
]

-- A word passes the check of the parity exactly if it has an even number of ones.
pub parity_iff : (v : ℕ) → v < 2 ^ 32 → (parity v ≡ v) ↔ (ones 32 v % 2 ≡ 0)
parity_iff v h = (λ e. subst (λ q. ones 32 q % 2 ≡ 0) e (parity_lem v).1, λ e. same e)
  where
    same : ones 32 v % 2 ≡ 0 → parity v ≡ v
    same e =
        let bounds =
          subst (λ q. q < 2 ^ 32) (sym (parity-with_top_bit v))
            (with_top_bit-bounds (count 31 v) v h) in
        let low = (parity_lem v).0 in
        let top = (parity_lem v).1 in
        let below = ones-same 31 (parity v) v low in
        let same_top : bit_at (parity v) 31 ≡ bit_at v 31 = omega (
          arith,
          ones_step 31 (parity v),
          ones_step 31 v,
          below,
          top,
          e,
          bit_at-le v 31,
          bit_at-le (parity v) 31,
        ) in
        byte_eq 32 (parity v) v bounds h (λ i k. elim (Bool-cases (i == 31)) [
          | inl q ↦ subst (λ j. bit_at (parity v) j ≡ bit_at v j) (sym ((==_iff i 31).0 q)) same_top
          | inr q ↦ low i (ground (arith, q, k))
        ])

-- One bit flipped changes the number of ones by one.
ones-flip :
    (n k v w : ℕ)
    → ((i : ℕ) → i ≢ k → bit_at v i ≡ bit_at w i)
    → k < n
    → ones n v + bit_at w k ≡ ones n w + bit_at v k
unfolding ones
ones-flip zero k v w same h = absurd (omega (arith, h))
ones-flip (suc n) k v w same h = elim (Bool-cases (k == n)) [
  | inl e ↦
      let at_k = (==_iff k n).0 e in
      let below = ones-same n v w (λ i q. same i (λ r. absurd (omega (arith, q, r, at_k)))) in
      omega (arith, below, ap (λ j. bit_at w j) at_k, ap (λ j. bit_at v j) at_k)
  | inr e ↦
      let rest = ones-flip n k v w same (ground (arith, h, e)) in
      let here = same n (λ r. absurd (ground (arith, e, r))) in omega (arith, rest, here)
]

-- A good answer of which one bit was flipped on the way, the parity bit itself or another, is taken
-- for an invalid frame.
pub received-flipped :
    (v w k : ℕ)
    → v < 2 ^ 32
    → w < 2 ^ 32
    → k < 32
    → parity v ≡ v
    → ((i : ℕ) → i ≢ k → bit_at v i ≡ bit_at w i)
    → bit_at v k ≢ bit_at w k
    → (received (record { size = 8; words = ot_ok ∷ v ∷ [] }) ≡ v)
      × (received (record { size = 8; words = ot_ok ∷ w ∷ [] }) ≡ invalid)
unfolding received
received-flipped v w k hv hw hk ok same differs =
    let flip = ones-flip 32 k v w same hk in
    let even = (parity_iff v hv).0 ok in
    let odd : ones 32 w % 2 ≢ 0 =
      (λ z. differs (omega (arith, flip, even, z, bit_at-le v k, bit_at-le w k))) in
    (
      if-true (v == parity v) v invalid ((==_iff v (parity v)).1 (sym ok)),
      if-false (w == parity w) w invalid
          (ground (arith, (λ (e : parity w ≡ w). odd ((parity_iff w hw).0 e)))),
    )
