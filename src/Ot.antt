-- ===== src/Ot.antt =====
-- The OpenTherm frames of the daemon, bytd/src/OpenTherm.cpp: the parity bit and `transmit`. The
-- answer that the other processor gives (`rxMsg->wait`) is an input.
mod Tests
pub mod Parity
pub mod Frame
pub mod Fields
use byt.Base.{
  ℕ, zero, suc, ◌+◌, ◌*◌, ◌%◌, ◌^◌, Bool, true, false, not, ◌&&◌, ◌||◌, List, [], ◌∷◌, ◌==◌,
  if◌then◌else◌, get_or, bit_and, bit_or,
}

-- `n` rounds of the loop of `parity`.
unfoldable pub count : ℕ → ℕ → ℕ
count zero v = 0
count (suc n) v = count n v + (if bit_and v (2 ^ n) == 0 then 0 else 1)

-- `v | (1 << 31)` or `v & ~(1 << 31)` of a 32-bit value, by the count `par`.
unfoldable pub with_top_bit : ℕ → ℕ → ℕ
with_top_bit par v = if bit_and par 1 == 0 then bit_and v 0x7FFFFFFF else bit_or v (2 ^ 31)

unfoldable pub parity : ℕ → ℕ
unfolding count with_top_bit
parity v = with_top_bit (count 31 v) v

abbrev pub invalid : ℕ
invalid = 0x7FFF7BAD

-- `pru::ResponseCode::eOtOk`, counted from 0.
abbrev pub ot_ok : ℕ
ot_ok = 17

-- An answer: how many bytes it has, and its 32-bit words.
pub record Answer : Type 0 where
  pub size : ℕ
  pub words : List ℕ

-- What `transmit` makes of the answer.
unfoldable pub received : Answer → ℕ
unfolding parity
received a =
    let frame = get_or a.words 1 0 in
    if a.size == 0
    then invalid
    else if not (a.size == 4) && not (a.size == 8)
    then invalid
    else if get_or a.words 0 0 == ot_ok
    then (if not (a.size == 8) then invalid else if frame == parity frame then frame else invalid)
    else invalid

-- The word that `transmit` sends after the command.
unfoldable pub request : ℕ → ℕ
unfolding parity
request frame = parity frame
