-- ===== src/Crc/Sensirion.antt =====
-- The checksums of the two Sensirion sensors against the division by their polynomial.
use byt.Base.{
  ℕ, zero, suc, ◌-◌, ◌*◌, ◌%◌, ◌<◌, ◌≡◌, refl, sym, ap, ◌∙◌, true, bit_xor, ◌==◌, ==_iff, ltb,
  ltb→lt, all_below, all_below_sound, bit_at, bit_xor-zero, arith,
}
use byt.Crc.{reverse_bits, crc_round, crc_rounds, calc_crc_8bit, shift_crc}

reverse_table :
    all_below 256 (λ v. all_below 8 (λ i. bit_at (reverse_bits v) i == bit_at v (7 - i))) ≡ true
unfolding all_below reverse_bits bit_at
reverse_table = refl

-- `reverse_bits` puts bit 7 - i of a byte at bit i.
pub bit_at-reverse_bits : (v i : ℕ) → v < 256 → i < 8 → bit_at (reverse_bits v) i ≡ bit_at v (7 - i)
bit_at-reverse_bits v i hv hi =
    (==_iff _ _).0 (all_below_sound 8 _ i (all_below_sound 256 _ v reverse_table hv) hi)

round_table :
    all_below 256
      (λ c. all_below 256 (λ b. bit_xor (crc_round c b) (b * 2 % 256) == shift_crc 1 (bit_xor c b)))
    ≡ true
unfolding all_below crc_round shift_crc
round_table = refl

shifted : ℕ → ℕ → ℕ
shifted zero b = b
shifted (suc n) b = shifted n (b * 2 % 256)

shifted_out : all_below 256 (λ b. shifted 8 b == 0) ≡ true
unfolding all_below shifted
shifted_out = refl

round_fits : all_below 256 (λ c. all_below 256 (λ b. ltb (crc_round c b) 256)) ≡ true
unfolding all_below crc_round
round_fits = refl

crc_round-lt : (c b : ℕ) → c < 256 → b < 256 → crc_round c b < 256
crc_round-lt c b hc hb =
    ltb→lt _ _ (all_below_sound 256 _ b (all_below_sound 256 _ c round_fits hc) hb)

crc_round_lem :
    (c b : ℕ)
    → c < 256
    → b < 256
    → bit_xor (crc_round c b) (b * 2 % 256) ≡ shift_crc 1 (bit_xor c b)
crc_round_lem c b hc hb =
    (==_iff _ _).0 (all_below_sound 256 _ b (all_below_sound 256 _ c round_table hc) hb)

rounds_lem :
    (n c b : ℕ)
    → c < 256
    → b < 256
    → bit_xor (crc_rounds n c b) (shifted n b) ≡ shift_crc n (bit_xor c b)
unfolding crc_rounds shift_crc shifted
rounds_lem zero c b hc hb = refl
rounds_lem (suc n) c b hc hb =
    rounds_lem n (crc_round c b) (b * 2 % 256) (crc_round-lt c b hc hb) (omega arith)
    ∙ ap (shift_crc n) (crc_round_lem c b hc hb)

rounds-lt : (n c b : ℕ) → c < 256 → b < 256 → crc_rounds n c b < 256
unfolding crc_rounds
rounds-lt zero c b hc hb = hc
rounds-lt (suc n) c b hc hb =
    rounds-lt n (crc_round c b) (b * 2 % 256) (crc_round-lt c b hc hb) (omega arith)

-- The bit-twiddling loop of the SHT11 and the shift loop of the SCD4x are one checksum:
-- `calc_crc_8bit` divides the byte, added to the checksum so far, by x^8 + x^5 + x^4 + 1, highest
-- bit first.
pub calc_crc_8bit-shift_crc :
    (crc byte : ℕ)
    → crc < 256
    → byte < 256
    → calc_crc_8bit crc byte ≡ shift_crc 8 (bit_xor crc byte)
unfolding calc_crc_8bit
calc_crc_8bit-shift_crc c b hc hb =
    let out : shifted 8 b ≡ 0 = (==_iff _ _).0 (all_below_sound 256 _ b shifted_out hb) in
    sym (bit_xor-zero 8 (crc_rounds 8 c b) (rounds-lt 8 c b hc hb))
    ∙ (ap (bit_xor (crc_rounds 8 c b)) (sym out) ∙ rounds_lem 8 c b hc hb)
