-- ===== src/Gpio/Pins.antt =====
-- What the pin and port functions of avr/fw/gpio.cpp do to each pin.
use byt.Base.{
  bit_at-set_bits, bit_at-clear_bits, has_bits-pow, ℕ, ◌/◌, ◌%◌, ◌<◌, ◌≡◌, inl, inr, Bool, true,
  false, bit_and, ◌==◌, if◌then◌else◌, to_nat, bit_at, clear_bits, arith, ltb, Bool-cases, ==_iff,
}
use byt.Gpio.{
  Ports, Gpio, read_port, write_port, port_id, pin_mask, get_dig_in_val, set_dir_out, set_dig_out,
  set_ddr, set_port, set_pin, get_ddr, get_port, get_pin,
}

-- The bit of a pin in a set of registers.
abbrev pub pin_bit : Ports → ℕ → ℕ
pin_bit r pin = bit_at (read_port r (port_id pin)) (pin % 8)

read_port-write_port :
    (r : Ports) (i j v : ℕ)
    → i < 7
    → j < 7
    → read_port (write_port r i v) j ≡ (if i == j then v else read_port r j)
unfolding read_port write_port
read_port-write_port r i j v hi hj = ground arith

-- What a write of bit `p` does to the bit of `q`, for a write of the whole port.
pin_bit-write :
    (r : Ports) (p q v x : ℕ)
    → p < 56
    → q < 56
    → ((j : ℕ)
        → j < 8
        → bit_at x j ≡ (if p % 8 == j then v else bit_at (read_port r (port_id p)) j))
    → pin_bit (write_port r (port_id p) x) q ≡ (if p == q then v else pin_bit r q)
unfolding port_id
pin_bit-write r p q v x hp hq h =
    rw (read_port-write_port r (p / 8) (q / 8) x (omega arith) (omega arith))
      (elim (Bool-cases (p / 8 == q / 8)) [
        | inl same ↦ rw same (rw (h (q % 8) (omega arith)) (go same))
        | inr other ↦ rw other (ground arith)
      ])
  where
    go :
        (p / 8 == q / 8) ≡ true
        → (if p % 8 == q % 8 then v else bit_at (read_port r (p / 8)) (q % 8))
          ≡ (if p == q then v else bit_at (read_port r (q / 8)) (q % 8))
    go same = rw (let e : p / 8 ≡ q / 8 = (==_iff (p / 8) (q / 8)).0 same in e) (ground arith)

-- `setDigOut` drives the named pin of port A to G to the value given and leaves the latch of every
-- other pin as it was.
pub set_dig_out_lem :
    (s : Gpio) (p q : ℕ) (v : Bool)
    → p < 56
    → q < 56
    → pin_bit (set_dig_out s p v).port q ≡ (if p == q then to_nat v else pin_bit s.port q)
unfolding set_dig_out pin_mask
set_dig_out_lem s p q true hp hq =
    pin_bit-write s.port p q 1 _ hp hq
      (λ j hj. bit_at-set_bits (read_port s.port (port_id p)) (p % 8) j)
set_dig_out_lem s p q false hp hq =
    pin_bit-write s.port p q 0 _ hp hq
      (λ j hj. bit_at-clear_bits (read_port s.port (port_id p)) (p % 8) j (omega arith) hj)

-- `setDirOut` makes the named pin an output and leaves the direction of every other pin.
pub set_dir_out_lem :
    (s : Gpio) (p q : ℕ)
    → p < 56
    → q < 56
    → pin_bit (set_dir_out s p).ddr q ≡ (if p == q then 1 else pin_bit s.ddr q)
unfolding set_dir_out pin_mask
set_dir_out_lem s p q hp hq =
    pin_bit-write s.ddr p q 1 _ hp hq
      (λ j hj. bit_at-set_bits (read_port s.ddr (port_id p)) (p % 8) j)

-- `getDigInVal` is the sampled bit of a pin of port A to G, and false for any other pin.
pub get_dig_in_val_lem :
    (s : Gpio) (q : ℕ) → get_dig_in_val s q ≡ (if ltb q 56 then pin_bit s.pin q == 1 else false)
unfolding get_dig_in_val read_port port_id pin_mask
get_dig_in_val_lem s q = ground (
  arith,
  has_bits-pow s.pin.a (q % 8),
  has_bits-pow s.pin.b (q % 8),
  has_bits-pow s.pin.c (q % 8),
  has_bits-pow s.pin.d (q % 8),
  has_bits-pow s.pin.e (q % 8),
  has_bits-pow s.pin.f (q % 8),
  has_bits-pow s.pin.g (q % 8),
)

-- The pins that exist: five of port G, and PD6 cannot be made an output by `test::setDDR`.
abbrev pub port_width_mask : ℕ → ℕ → ℕ
port_width_mask i v = if i == 6 then bit_and v 0x1f else v

-- After a raw write of port `i`, reading port `j` of the same kind gives the bits stored if
-- the two are one port (port G has five pins, and bit 6 of the direction of port D stays 0), and
-- what was there otherwise; a write to a port past G changes nothing.
pub raw_access :
    (s : Gpio) (i j v : ℕ)
    → j < 7
    → (get_port (set_port s i v) j ≡ (if i == j then port_width_mask i v else get_port s j))
      × (get_pin (set_pin s i v) j ≡ (if i == j then port_width_mask i v else get_pin s j))
      × (get_ddr (set_ddr s i v) j ≡ (
          if i == j
          then if i == 3 then clear_bits v 0x40 else port_width_mask i v
          else get_ddr s j))
unfolding get_port set_port get_pin set_pin get_ddr set_ddr
raw_access s i j v h = (ground arith, ground arith, ground arith)
