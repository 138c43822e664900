-- ===== src/Io/Debounce.antt =====
-- The input and output pins of avr/fw/main.cpp: the debouncing of `onTimer4ms096` and
-- `iterateOutputObjs`. A received object's bits are in the image already.
use byt.Base.{
  ℕ, ◌+◌, ◌-◌, ◌%◌, Bool, not, List, [], ◌∷◌, ltb, ◌==◌, if◌then◌else◌, get_or, set, bit_or,
  bit_and,
}
use byt.Gpio.{Gpio, get_dig_in_val, set_dig_out}
use byt.Pv.{Pv, mark_mob_tx}

-- `DigIN_Obj`.
pub record DigIn : Type 0 where
  pub mob_idx : ℕ
  pub iodata_idx : ℕ
  pub mask : ℕ
  pub pin : ℕ
  pub debounce : ℕ  -- uint8_t
  pub consecutive : ℕ  -- uint8_t

-- `DigOUT_Obj`.
pub record DigOut : Type 0 where
  pub mob_idx : ℕ
  pub iodata_idx : ℕ
  pub mask : ℕ
  pub pin : ℕ

unfoldable pub image_bit : ℕ → ℕ → Pv → Bool
image_bit i mask p = not (bit_and (get_or p.io_data i 0) mask == 0)

-- `iobyte |= mask` and `iobyte &= ~mask`.
unfoldable pub write_bit : ℕ → ℕ → Bool → Pv → Pv
write_bit i mask v p =
    let b = get_or p.io_data i 0 in
    record p { io_data = set p.io_data i (if v then bit_or b mask else bit_and b (255 - mask)) }

-- One round of the loop of `onTimer4ms096`, the pin's level being `v`.
unfoldable pub sample_in : Bool → DigIn → Pv → DigIn × Pv
unfolding image_bit write_bit
sample_in v o p =
    let c = (o.consecutive + 1) % 256 in
    let same = if image_bit o.iodata_idx o.mask p then v else not v in
    if same
    then (record o { consecutive = 0 }, p)
    else if ltb o.debounce c
    then (record o { consecutive = 0 }, mark_mob_tx o.mob_idx (write_bit o.iodata_idx o.mask v p))
    else (record o { consecutive = c }, p)

unfoldable pub sample_all : Gpio → List DigIn → Pv → List DigIn × Pv
sample_all g [] p = ([], p)
sample_all g (o ∷ os) p =
    let (o', q) = sample_in (get_dig_in_val g o.pin) o p in
    let (rest, r) = sample_all g os q in (o' ∷ rest, r)

-- The first loop of `iterateOutputObjs`.
unfoldable pub iterate_output_objs : ℕ → List DigOut → Pv → Gpio → Gpio
unfolding image_bit
iterate_output_objs mob [] p g = g
iterate_output_objs mob (o ∷ os) p g =
    let next =
      if mob == o.mob_idx then set_dig_out g o.pin (image_bit o.iodata_idx o.mask p) else g in
    iterate_output_objs mob os p next
