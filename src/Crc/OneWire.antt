-- ===== src/Crc/OneWire.antt =====
-- What the checksum of the 1-wire bus detects.
use byt.Base.{
  ℕ, zero, suc, ◌/◌, ◌%◌, ◌<◌, ◌≡◌, ◌≢◌, refl, sym, ap, ◌∙◌, true, List, [], ◌∷◌, ◌++◌, bit_xor,
  ◌==◌, ==_iff, if◌then◌else◌, get_or, All, ltb, ltb→lt, all_below, all_below_sound, bit_xor-lt,
  bit_xor_cancel, bit_xor_comm, bit_xor_self,
}
use byt.Crc.{one_wire_crc8_table, calc_crc, crc_from}

abbrev pub IsByte : ℕ → Type 0
IsByte x = x < 256

-- One bit of the division by x^8 + x^5 + x^4 + 1, lowest bit first.
unfoldable pub divide_bit : ℕ → ℕ
divide_bit x = if x % 2 == 0 then x / 2 else bit_xor (x / 2) 0x8c

unfoldable pub divide_bits : ℕ → ℕ → ℕ
unfolding divide_bit
divide_bits zero x = x
divide_bits (suc n) x = divide_bits n (divide_bit x)

table_divides : all_below 256 (λ x. get_or one_wire_crc8_table x 0 == divide_bits 8 x) ≡ true
unfolding all_below one_wire_crc8_table divide_bits
table_divides = refl

table_fits : all_below 256 (λ x. ltb (get_or one_wire_crc8_table x 0) 256) ≡ true
unfolding all_below one_wire_crc8_table
table_fits = refl

index_of : List ℕ → ℕ → ℕ
index_of [] v = 0
index_of (x ∷ xs) v = let rest = suc (index_of xs v) in if x == v then 0 else rest

-- The entries of the table are different.
table_injective :
    all_below 256 (λ x. index_of one_wire_crc8_table (get_or one_wire_crc8_table x 0) == x) ≡ true
unfolding all_below one_wire_crc8_table index_of
table_injective = refl

-- The table of the 1-wire checksum is the remainder of the division by the polynomial
-- x^8 + x^5 + x^4 + 1: one table lookup makes the eight bit steps of the division.
pub calc_crc-divide_bits :
    (b prev_b : ℕ) → IsByte b → IsByte prev_b → calc_crc b prev_b ≡ divide_bits 8 (bit_xor prev_b b)
unfolding calc_crc
calc_crc-divide_bits b prev_b hb hp =
    (==_iff _ _).0
      (all_below_sound 256 _ (bit_xor prev_b b) table_divides (bit_xor-lt 8 prev_b b hp hb))

pub calc_crc-IsByte : (b prev_b : ℕ) → IsByte b → IsByte prev_b → IsByte (calc_crc b prev_b)
unfolding calc_crc
calc_crc-IsByte b prev_b hb hp =
    ltb→lt _ _ (all_below_sound 256 _ (bit_xor prev_b b) table_fits (bit_xor-lt 8 prev_b b hp hb))

lookup_injective :
    (x y : ℕ)
    → IsByte x
    → IsByte y
    → get_or one_wire_crc8_table x 0 ≡ get_or one_wire_crc8_table y 0
    → x ≡ y
lookup_injective x y hx hy e =
    sym ((==_iff _ _).0 (all_below_sound 256 _ x table_injective hx))
    ∙ (ap (index_of one_wire_crc8_table) e
        ∙ (==_iff _ _).0 (all_below_sound 256 _ y table_injective hy))

xor_injective : (a b c : ℕ) → IsByte a → IsByte b → IsByte c → bit_xor a b ≡ bit_xor a c → b ≡ c
xor_injective a b c ha hb hc e =
    sym (bit_xor_cancel 8 a b ha hb) ∙ (ap (bit_xor a) e ∙ bit_xor_cancel 8 a c ha hc)

calc_crc_byte : (b c p : ℕ) → IsByte b → IsByte c → IsByte p → calc_crc b p ≡ calc_crc c p → b ≡ c
unfolding calc_crc
calc_crc_byte b c p hb hc hp e =
    xor_injective p b c hp hb hc
      (lookup_injective _ _ (bit_xor-lt 8 p b hp hb) (bit_xor-lt 8 p c hp hc) e)

calc_crc_prev : (b p q : ℕ) → IsByte b → IsByte p → IsByte q → calc_crc b p ≡ calc_crc b q → p ≡ q
unfolding calc_crc
calc_crc_prev b p q hb hp hq e = xor_injective b p q hb hp hq (
    bit_xor_comm 8 b p hb hp
    ∙ (lookup_injective _ _ (bit_xor-lt 8 p b hp hb) (bit_xor-lt 8 q b hq hb) e
        ∙ bit_xor_comm 8 q b hq hb))

pub crc_from-IsByte : (p : ℕ) (bs : List ℕ) → IsByte p → All IsByte bs → IsByte (crc_from p bs)
unfolding crc_from
crc_from-IsByte p [] hp h = hp
crc_from-IsByte p (b ∷ bs) hp h = crc_from-IsByte (calc_crc b p) bs (calc_crc-IsByte b p h.0 hp) h.1

crc_from_injective :
    (p q : ℕ) (bs : List ℕ)
    → IsByte p
    → IsByte q
    → All IsByte bs
    → crc_from p bs ≡ crc_from q bs
    → p ≡ q
unfolding crc_from
crc_from_injective p q [] hp hq h e = e
crc_from_injective p q (b ∷ bs) hp hq h e = calc_crc_prev b p q h.0 hp hq (
    crc_from_injective (calc_crc b p) (calc_crc b q) bs (calc_crc-IsByte b p h.0 hp)
      (calc_crc-IsByte b q h.0 hq) h.1 e)

-- The byte in which two messages of one checksum may differ is the same.
pub crc_from_single_byte :
    (pre post : List ℕ) (b c : ℕ) (start : ℕ)
    → IsByte start
    → All IsByte pre
    → All IsByte post
    → IsByte b
    → IsByte c
    → crc_from start (pre ++ b ∷ post) ≡ crc_from start (pre ++ c ∷ post)
    → b ≡ c
unfolding crc_from
crc_from_single_byte [] post b c start hs hpre hpost hb hc e = calc_crc_byte b c start hb hc hs (
    crc_from_injective (calc_crc b start) (calc_crc c start) post (calc_crc-IsByte b start hb hs)
      (calc_crc-IsByte c start hc hs) hpost e)
crc_from_single_byte (x ∷ pre) post b c start hs hpre hpost hb hc e =
    crc_from_single_byte pre post b c (calc_crc x start) (calc_crc-IsByte x start hpre.0 hs) hpre.1
      hpost hb hc e

-- Two messages of bytes that differ in exactly one byte have different 1-wire checksums: the check
-- detects every corruption of a single byte.
pub crc_from-detects :
    (pre post : List ℕ) (b c : ℕ) (start : ℕ)
    → IsByte start
    → All IsByte pre
    → All IsByte post
    → IsByte b
    → IsByte c
    → b ≢ c
    → crc_from start (pre ++ b ∷ post) ≢ crc_from start (pre ++ c ∷ post)
crc_from-detects pre post b c start hs hpre hpost hb hc ne e =
    ne (crc_from_single_byte pre post b c start hs hpre hpost hb hc e)

table_head : get_or one_wire_crc8_table 0 0 ≡ 0
unfolding one_wire_crc8_table
table_head = refl

-- A message of bytes followed by its own 1-wire checksum has the checksum 0.
pub crc_from-append_self :
    (start : ℕ) (bs : List ℕ)
    → IsByte start
    → All IsByte bs
    → crc_from start (bs ++ crc_from start bs ∷ []) ≡ 0
unfolding crc_from calc_crc
crc_from-append_self start [] hs h = rw (bit_xor_self 8 start hs) table_head
crc_from-append_self start (b ∷ bs) hs h =
    crc_from-append_self (calc_crc b start) bs (calc_crc-IsByte b start h.0 hs) h.1
