-- ===== src/Can/Tests.antt =====
-- The CAN data of the daemon at concrete inputs.
use byt.Base.{
  ltb, ℕ, suc, zero, ◌+◌, ◌<◌, ◌^◌, ◌≡◌, refl, true, false, not, ◌&&◌, some, List, [], ◌∷◌, ◌==◌,
  if◌then◌else◌, length, get_or, has_bits, arith,
}
use byt.Pv.{Pv, read_u16}
use byt.Io.Debounce.{image_bit}
use byt.Io.Mobs.{begin_idx, end_idx, receive, frame_of}
use byt.Can.{CanFrame, dig_out, pwm16, digi_in, word_in, Control, update_data, updated, on_data}
use byt.Can.Drain.{waiting, acks}
use byt.Can.Synced.{output, last_of, mem, AreDistinct}
use byt.Can.Contract.{Reach, here, updates, Reach-drains}
use byt.Can.Items.{dig_out-image, on_data-image}

abbrev frame_5 : CanFrame
frame_5 = record { can_id = 5; can_dlc = 1; bytes = 0 ∷ 0 ∷ 0 ∷ 0 ∷ 0 ∷ 0 ∷ 0 ∷ 0 ∷ [] }

abbrev frame_6 : CanFrame
frame_6 = record frame_5 { can_id = 6; can_dlc = 2 }

abbrev idle_bus : Control
idle_bus = record {
  outputs =
      record { need_update = false; msg = frame_5 }
      ∷ record { need_update = false; msg = frame_6 }
      ∷ [];
  bus = record { pending = false; frame_wr = frame_5; wire = [] };
}

idle_bus-AreDistinct : AreDistinct idle_bus.outputs
idle_bus-AreDistinct zero zero hj hk ne = absurd (ne refl)
idle_bus-AreDistinct zero (suc zero) hj hk ne = omega arith
idle_bus-AreDistinct (suc zero) zero hj hk ne = omega arith
idle_bus-AreDistinct (suc zero) (suc zero) hj hk ne = absurd (ne refl)
idle_bus-AreDistinct (suc (suc j)) k hj hk ne = absurd (omega (arith, hj))
idle_bus-AreDistinct zero (suc (suc k)) hj hk ne = absurd (omega (arith, hk))
idle_bus-AreDistinct (suc zero) (suc (suc k)) hj hk ne = absurd (omega (arith, hk))

abbrev twice : Control
twice = updated 1 (pwm16 0 300) (updated 0 (dig_out 4 0 true) idle_bus)

twice-Reach : Reach idle_bus (1 ∷ 0 ∷ []) twice
unfolding updated
twice-Reach =
    updates 1 (pwm16 0 300) (updates 0 (dig_out 4 0 true) here (omega arith)) (omega arith)

Reach-drains_example :
    let u = acks (waiting twice.outputs) twice in
    (waiting u.outputs ≡ 0)
    × ((j : ℕ)
        → j < length twice.outputs
        → mem j (1 ∷ 0 ∷ []) ≡ true
        → last_of (output j twice.outputs).msg.can_id u.bus.wire
          ≡ some (output j twice.outputs).msg)
Reach-drains_example = Reach-drains refl idle_bus-AreDistinct twice-Reach

abbrev ends : List ℕ
ends = 1 ∷ 3 ∷ []

abbrev image : Pv
image = record { io_data = 9 ∷ 8 ∷ 7 ∷ []; mob_marked_tx = 0 }

dig_out-image_example :
    image_bit
      (begin_idx ends 1 + 1)
      (2 ^ 3)
      (receive ends 1 2 (update_data (dig_out (2 ^ 3) 1 true) (0 ∷ 0 ∷ [])) image)
    ≡ (if (1 == 1) && (3 == 3) then true else has_bits (get_or (0 ∷ 0 ∷ []) 1 0) (2 ^ 3))
unfolding begin_idx end_idx
dig_out-image_example =
    dig_out-image ends 1 2 1 1 3 3 true (0 ∷ 0 ∷ []) image (omega arith) (omega arith) (omega arith)
      (omega arith) (omega arith) (omega arith) (omega arith)

on_data-image_example :
    let f = (frame_of ends 1 image).bytes in
    let v = image_bit (begin_idx ends 1 + 1) 8 image in
    (on_data f (length f) (digi_in 8 1 false []) ≡ (
      if ltb (begin_idx ends 1 + 1) (end_idx ends 1)
      then digi_in 8 1 v (if (if v then false else not false) then [] else v ∷ [])
      else digi_in 8 1 false []))
    × (on_data f (length f) (word_in 1 []) ≡ (
        if ltb (begin_idx ends 1 + 1 + 1) (end_idx ends 1)
        then word_in 1 (read_u16 image.io_data (begin_idx ends 1 + 1) ∷ [])
        else word_in 1 []))
unfolding begin_idx end_idx
on_data-image_example = on_data-image ends 1 8 1 false [] [] image (omega arith)
