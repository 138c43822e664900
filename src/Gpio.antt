-- ===== src/Gpio.antt =====
-- avr/fw/gpio.cpp: the pins of the seven ports A to G of the microcontroller, and the access to
-- whole ports that the service commands use. A register is a byte; what the hardware does of its
-- own accord to a register (sampling PINx, the toggling of PORTx by a write to PINx) is left out:
-- a write stores the byte.
pub mod Pins
use byt.Base.{
  ℕ, ◌-◌, ◌/◌, ◌%◌, ◌^◌, Bool, false, bit_and, ◌==◌, if◌then◌else◌, set_bits, clear_bits, has_bits,
}

-- One register of each port.
pub record Ports : Type 0 where
  pub a : ℕ
  pub b : ℕ
  pub c : ℕ
  pub d : ℕ
  pub e : ℕ
  pub f : ℕ
  pub g : ℕ

pub record Gpio : Type 0 where
  pub ddr : Ports
  pub port : Ports
  pub pin : Ports

-- `getDDR`, `getPORT`, `getPIN` and the reference of `getPortRef`, `getDirRef`, for reading: an
-- identifier past 6 is port G.
unfoldable pub read_port : Ports → ℕ → ℕ
read_port r i =
    if i == 0
    then r.a
    else if i == 1
    then r.b
    else if i == 2
    then r.c
    else if i == 3
    then r.d
    else if i == 4
    then r.e
    else if i == 5
    then r.f
    else r.g

-- The reference of `getPortRef` and `getDirRef`, for writing.
unfoldable pub write_port : Ports → ℕ → ℕ → Ports
write_port r i v =
    if i == 0
    then record r { a = v }
    else if i == 1
    then record r { b = v }
    else if i == 2
    then record r { c = v }
    else if i == 3
    then record r { d = v }
    else if i == 4
    then record r { e = v }
    else if i == 5
    then record r { f = v }
    else record r { g = v }

unfoldable pub port_id : ℕ → ℕ
port_id pin = pin / 8

unfoldable pub pin_mask : ℕ → ℕ
pin_mask pin = 2 ^ (pin % 8)

-- A pin past port G reads as false.
unfoldable pub get_dig_in_val : Gpio → ℕ → Bool
get_dig_in_val s pin =
    let m = pin_mask pin in
    if port_id pin == 0
    then has_bits s.pin.a m
    else if port_id pin == 1
    then has_bits s.pin.b m
    else if port_id pin == 2
    then has_bits s.pin.c m
    else if port_id pin == 3
    then has_bits s.pin.d m
    else if port_id pin == 4
    then has_bits s.pin.e m
    else if port_id pin == 5
    then has_bits s.pin.f m
    else if port_id pin == 6
    then has_bits s.pin.g m
    else false

unfoldable pub set_dir_out : Gpio → ℕ → Gpio
set_dir_out s pin = record s {
  ddr = write_port s.ddr (port_id pin) (set_bits (read_port s.ddr (port_id pin)) (pin_mask pin));
}

unfoldable pub set_dig_out : Gpio → ℕ → Bool → Gpio
set_dig_out s pin v =
    let old = read_port s.port (port_id pin) in
    let new = if v then set_bits old (pin_mask pin) else clear_bits old (pin_mask pin) in
    record s { port = write_port s.port (port_id pin) new }

-- `test::setPORT` and `test::setPIN` store these bits of a value: port G has five pins. A port that
-- is not there is left alone.
unfoldable pub set_raw : Ports → ℕ → ℕ → Ports
set_raw r i v =
    if i == 0
    then record r { a = v }
    else if i == 1
    then record r { b = v }
    else if i == 2
    then record r { c = v }
    else if i == 3
    then record r { d = v }
    else if i == 4
    then record r { e = v }
    else if i == 5
    then record r { f = v }
    else if i == 6
    then record r { g = bit_and v 0x1f }
    else r

-- `test::setDDR` keeps PD6 an input besides.
unfoldable pub set_ddr : Gpio → ℕ → ℕ → Gpio
set_ddr s i v = record s {
  ddr =
      if i == 0
      then record s.ddr { a = v }
      else if i == 1
      then record s.ddr { b = v }
      else if i == 2
      then record s.ddr { c = v }
      else if i == 3
      then record s.ddr { d = clear_bits v (2 ^ 6) }
      else if i == 4
      then record s.ddr { e = v }
      else if i == 5
      then record s.ddr { f = v }
      else if i == 6
      then record s.ddr { g = bit_and v 0x1f }
      else s.ddr;
}

unfoldable pub set_port : Gpio → ℕ → ℕ → Gpio
unfolding set_raw
set_port s i v = record s { port = set_raw s.port i v }

unfoldable pub set_pin : Gpio → ℕ → ℕ → Gpio
unfolding set_raw
set_pin s i v = record s { pin = set_raw s.pin i v }

unfoldable pub get_ddr : Gpio → ℕ → ℕ
unfolding read_port
get_ddr s i = read_port s.ddr i

unfoldable pub get_port : Gpio → ℕ → ℕ
unfolding read_port
get_port s i = read_port s.port i

unfoldable pub get_pin : Gpio → ℕ → ℕ
unfolding read_port
get_pin s i = read_port s.pin i
