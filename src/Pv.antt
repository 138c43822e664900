-- ===== src/Pv.antt =====
-- The process image of avr/fw/main.cpp: the bytes of `gIOData`, the sixteen-bit values that the
-- sensors keep in them, and the marks of the message objects to send.
pub mod Marks
use byt.Base.{
  ℕ, ◌+◌, ◌-◌, ◌*◌, ◌/◌, ◌%◌, ◌^◌, Bool, List, not, get_or, set, bit_or, bit_and, ◌==◌,
  if◌then◌else◌,
}

pub record Pv : Type 0 where
  pub io_data : List ℕ  -- uint8_t[gIOData_count]
  pub mob_marked_tx : ℕ  -- uint16_t

unfoldable pub mark_mob_tx : ℕ → Pv → Pv
mark_mob_tx idx s = record s { mob_marked_tx = bit_or s.mob_marked_tx (2 ^ idx) }

unfoldable pub is_mob_marked_tx : ℕ → Pv → Bool
is_mob_marked_tx idx s = not (bit_and s.mob_marked_tx (2 ^ idx) == 0)

unfoldable pub clear_mark_tx_mob : ℕ → Pv → Pv
clear_mark_tx_mob idx s = record s { mob_marked_tx = bit_and s.mob_marked_tx (65535 - 2 ^ idx) }

-- `reinterpret_cast<uint16_t*>(&gIOData[i])[k]`, lower byte first.
unfoldable pub read_u16 : List ℕ → ℕ → ℕ
read_u16 d i = get_or d i 0 + 256 * get_or d (i + 1) 0

unfoldable pub write_u16 : List ℕ → ℕ → ℕ → List ℕ
write_u16 d i v = set (set d i (v % 256)) (i + 1) (v / 256 % 256)
