-- ===== src/Pv/Marks.antt =====
-- The marks of the message objects as a set, and the sixteen-bit values of the process image.
use byt.Base.{
  ℕ, ◌+◌, ◌-◌, ◌/◌, ◌%◌, ◌^◌, ◌<◌, ◌≡◌, refl, ◌∙◌, true, false, List, length, length-set, set,
  get_or-set_self, get_or-set_ne, ◌==◌, if◌then◌else◌, bit_at, bit_at-or, bit_at-and, bit_at-pow,
  bit_at-le, complement_below, bit_and-pow, ltb, ltb→lt, all_below, all_below_sound, arith,
}
use native.Mathlib.Nat.{one-le-pow}
use byt.Pv.{Pv, mark_mob_tx, is_mob_marked_tx, clear_mark_tx_mob, read_u16, write_u16}

pow_fits16 : (k : ℕ) → k < 16 → 2 ^ k < 65536
unfolding all_below
pow_fits16 k h = ltb→lt (2 ^ k) 65536 (all_below_sound 16 (λ j. ltb (2 ^ j) 65536) k refl h)

is_marked_bit : (j : ℕ) (s : Pv) → is_mob_marked_tx j s ≡ (bit_at s.mob_marked_tx j == 1)
unfolding is_mob_marked_tx
is_marked_bit j s =
    grind (arith, bit_and-pow s.mob_marked_tx j, bit_at-le s.mob_marked_tx j, one-le-pow j 2)

-- Marking a message object adds it to the set of the marked ones, and clearing its mark takes
-- it out; every other mark stays as it is.
pub is_mob_marked_tx_lem :
    (i j : ℕ) (s : Pv)
    → i < 16
    → j < 16
    → (is_mob_marked_tx j (mark_mob_tx i s) ≡ (if i == j then true else is_mob_marked_tx j s))
      × (is_mob_marked_tx j (clear_mark_tx_mob i s)
          ≡ (if i == j then false else is_mob_marked_tx j s))
unfolding mark_mob_tx clear_mark_tx_mob
is_mob_marked_tx_lem i j s hi hj = (
  ground (
    arith,
    is_marked_bit j s,
    is_marked_bit j (mark_mob_tx i s),
    bit_at-or s.mob_marked_tx (2 ^ i) j,
    bit_at-pow i j,
    bit_at-le s.mob_marked_tx j,
  ),
  ground (
    arith,
    is_marked_bit j s,
    is_marked_bit j (clear_mark_tx_mob i s),
    bit_at-and s.mob_marked_tx (65535 - 2 ^ i) j,
    complement_below 16 (2 ^ i) j (pow_fits16 i hi) hj,
    bit_at-pow i j,
    bit_at-le s.mob_marked_tx j,
  ),
)

-- A sixteen-bit value written inside the image reads back.
pub read_u16-write_u16 :
    (d : List ℕ) (i v : ℕ) → i + 1 < length d → v < 65536 → read_u16 (write_u16 d i v) i ≡ v
unfolding read_u16 write_u16
read_u16-write_u16 d i v h fits = omega (
  arith,
  get_or-set_self (set d i (v % 256)) (i + 1) (v / 256 % 256) 0 (rw (length-set d i (v % 256)) h),
  get_or-set_ne (set d i (v % 256)) (i + 1) i (v / 256 % 256) 0 (omega arith),
  get_or-set_self d i (v % 256) 0 (omega arith),
)

-- A value written elsewhere does not touch it.
pub read_u16-write_u16_ne :
    (d : List ℕ) (i j v : ℕ) → (j + 1 < i) → read_u16 (write_u16 d i v) j ≡ read_u16 d j
unfolding read_u16 write_u16
read_u16-write_u16_ne d i j v h = omega (
  arith,
  get_or-set_ne (set d i (v % 256)) (i + 1) j (v / 256 % 256) 0 (omega arith),
  get_or-set_ne (set d i (v % 256)) (i + 1) (j + 1) (v / 256 % 256) 0 (omega arith),
  get_or-set_ne d i j (v % 256) 0 (omega arith),
  get_or-set_ne d i (j + 1) (v % 256) 0 (omega arith),
)

pub read_u16-write_u16_above :
    (d : List ℕ) (i j v : ℕ) → (i + 1 < j) → read_u16 (write_u16 d i v) j ≡ read_u16 d j
unfolding read_u16 write_u16
read_u16-write_u16_above d i j v h = omega (
  arith,
  get_or-set_ne (set d i (v % 256)) (i + 1) j (v / 256 % 256) 0 (omega arith),
  get_or-set_ne (set d i (v % 256)) (i + 1) (j + 1) (v / 256 % 256) 0 (omega arith),
  get_or-set_ne d i j (v % 256) 0 (omega arith),
  get_or-set_ne d i (j + 1) (v % 256) 0 (omega arith),
)

pub length-write_u16 : (d : List ℕ) (i v : ℕ) → length (write_u16 d i v) ≡ length d
unfolding write_u16
length-write_u16 d i v = length-set (set d i (v % 256)) (i + 1) _ ∙ length-set d i _
