-- ===== src/Io/Filter.antt =====
-- What the debouncing of an input pin lets through: `onTimer4ms096` of avr/fw/main.cpp.
use byt.Base.{
  ℕ, zero, suc, ◌+◌, ◌%◌, ◌^◌, ◌<◌, ◌≤◌, ◌≡◌, ◌≢◌, refl, ap, ◌∙◌, Bool, true, false, not, ltb, ◌==◌,
  if◌then◌else◌, length, get_or, get_or-set_self, get_or-set_ne, bit_and, set_bits, clear_bits,
  has_bits, has_bits_written, arith,
}
use byt.Pv.{Pv, mark_mob_tx, is_mob_marked_tx}
use byt.Pv.Marks.{is_mob_marked_tx_lem}
use byt.Io.Debounce.{DigIn, image_bit, write_bit, sample_in}

-- `n` rounds in which the pin keeps the level `v`.
pub hold : ℕ → Bool → DigIn → Pv → DigIn × Pv
hold zero v o p = (o, p)
hold (suc n) v o p = let (o', q) = sample_in v o p in hold n v o' q

-- A round with a level that the image does not show.
differing :
    (v : Bool) (o : DigIn) (p : Pv)
    → image_bit o.iodata_idx o.mask p ≡ not v
    → sample_in v o p ≡ (
        if ltb o.debounce ((o.consecutive + 1) % 256)
        then (
          record o { consecutive = 0 },
          mark_mob_tx o.mob_idx (write_bit o.iodata_idx o.mask v p),
        )
        else (record o { consecutive = (o.consecutive + 1) % 256 }, p))
unfolding sample_in
differing true o p h = rw h refl
differing false o p h = rw h refl

hold-last :
    (n : ℕ) (v : Bool) (o : DigIn) (p : Pv)
    → hold (suc n) v o p ≡ sample_in v (hold n v o p).0 (hold n v o p).1
unfolding hold
hold-last zero v o p = refl
hold-last (suc n) v o p = hold-last n v (sample_in v o p).0 (sample_in v o p).1

ignored :
    (n : ℕ) (v : Bool) (o : DigIn) (p : Pv)
    → image_bit o.iodata_idx o.mask p ≡ not v
    → o.debounce < 255
    → n ≤ o.debounce
    → hold n v (record o { consecutive = 0 }) p ≡ (record o { consecutive = n }, p)
unfolding hold
ignored zero v o p h d k = refl
ignored (suc n) v o p h d k =
    let late : ltb o.debounce ((n + 1) % 256) ≡ false = ground arith in
    let next : (n + 1) % 256 ≡ suc n = omega arith in
    rw
      (
        hold-last n v (record o { consecutive = 0 }) p,
        ignored n v o p h d (omega arith),
        differing v (record o { consecutive = n }) p h,
        late,
        next,
      )
      refl

-- The round that takes the level over.
taken_over :
    (v : Bool) (o : DigIn) (p : Pv)
    → image_bit o.iodata_idx o.mask p ≡ not v
    → o.debounce < 255
    → hold (suc o.debounce) v (record o { consecutive = 0 }) p
      ≡ (record o { consecutive = 0 }, mark_mob_tx o.mob_idx (write_bit o.iodata_idx o.mask v p))
taken_over v o p h d =
    let all : ltb o.debounce ((o.debounce + 1) % 256) ≡ true = ground arith in
    rw
      (
        hold-last o.debounce v (record o { consecutive = 0 }) p,
        ignored o.debounce v o p h d (omega arith),
        differing v (record o { consecutive = o.debounce }) p h,
        all,
      )
      refl

-- A bit of a byte of the image, written.
image_bit-write_bit :
    (i k j : ℕ) (v : Bool) (p : Pv)
    → k < 8
    → j < 8
    → i < length p.io_data
    → image_bit i (2 ^ j) (write_bit i (2 ^ k) v p) ≡ (if k == j then v else image_bit i (2 ^ j) p)
unfolding image_bit write_bit set_bits clear_bits has_bits
image_bit-write_bit i k j true p hk hj h =
    ap (λ x. not (bit_and x (2 ^ j) == 0)) (get_or-set_self p.io_data i _ 0 h)
    ∙ has_bits_written true (get_or p.io_data i 0) k j hk hj
image_bit-write_bit i k j false p hk hj h =
    ap (λ x. not (bit_and x (2 ^ j) == 0)) (get_or-set_self p.io_data i _ 0 h)
    ∙ has_bits_written false (get_or p.io_data i 0) k j hk hj

other_byte :
    (i x mob m : ℕ) (v : Bool) (p : Pv)
    → i ≢ x
    → get_or (mark_mob_tx mob (write_bit i m v p)).io_data x 0 ≡ get_or p.io_data x 0
unfolding mark_mob_tx write_bit
other_byte i x mob m v p h = get_or-set_ne p.io_data i x _ 0 h

image_bit-mark_mob_tx : (mob i m : ℕ) (p : Pv) → image_bit i m (mark_mob_tx mob p) ≡ image_bit i m p
unfolding mark_mob_tx image_bit
image_bit-mark_mob_tx mob i m p = refl

-- The input is one bit, `k`, of a byte inside the image, and a pin keeps a level that the image does
-- not show, from a round in which the two agreed on. The level is ignored for as many rounds as
-- `debounce` says, while they are counted. The next round begins the count anew, the bit of the image
-- shows the level, every other bit `j` of the byte and every other byte `x` of the image are as before,
-- and the message object is marked. The limit is below 255, which the 8-bit counter cannot pass.
pub hold-debounce :
    (n k j x : ℕ) (v : Bool) (o : DigIn) (p : Pv)
    → o.mask ≡ 2 ^ k
    → k < 8
    → j < 8
    → o.iodata_idx < length p.io_data
    → o.mob_idx < 16
    → o.iodata_idx ≢ x
    → image_bit o.iodata_idx o.mask p ≡ not v
    → o.debounce < 255
    → n ≤ o.debounce
    → let r = hold (suc o.debounce) v (record o { consecutive = 0 }) p in
      (hold n v (record o { consecutive = 0 }) p ≡ (record o { consecutive = n }, p))
      × (r.0 ≡ record o { consecutive = 0 })
      × (image_bit o.iodata_idx (2 ^ j) r.1
          ≡ (if k == j then v else image_bit o.iodata_idx (2 ^ j) p))
      × (get_or r.1.io_data x 0 ≡ get_or p.io_data x 0)
      × (is_mob_marked_tx o.mob_idx r.1 ≡ true)
hold-debounce n k j x v o p hm hk hj inside mob other h d le =
    let q = write_bit o.iodata_idx o.mask v p in
    rw (taken_over v o p h d) (
      ignored n v o p h d le,
      refl,
      image_bit-mark_mob_tx o.mob_idx o.iodata_idx (2 ^ j) q
          ∙ ap (λ m. image_bit o.iodata_idx (2 ^ j) (write_bit o.iodata_idx m v p)) hm
          ∙ image_bit-write_bit o.iodata_idx k j v p hk hj inside,
      other_byte o.iodata_idx x o.mob_idx o.mask v p other,
      (is_mob_marked_tx_lem o.mob_idx o.mob_idx q mob mob).0 ∙ ground arith,
    )
