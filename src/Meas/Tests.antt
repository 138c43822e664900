-- ===== src/Meas/Tests.antt =====
-- The temperature measurement of avr/fw/main.cpp at concrete inputs.
use byt.Base.{
  ℕ, ◌+◌, ◌%◌, ◌≡◌, ◌≢◌, refl, true, false, [], ◌∷◌, ◌++◌, replicate, ltb, inl, get_or,
  if◌then◌else◌, arith,
}
use byt.Crc.{crc_from}
use byt.Pv.{read_u16, is_mob_marked_tx}
use byt.Ow.Bus.{Ow, no_presence, read_bits_ok}
use byt.Ow.Invariant.{boot}
use byt.Meas.{
  Meas, ow_reading_scratchpad, ow_initing_before_read, ow_relaxing, invalid_value, cur_obj,
  scratchpad_value, measure_ow_temp_sm,
}
use byt.Meas.Publish.{scratchpad_value_corrupted, measure_publishes}
use byt.Meas.Marks.{lost_mark_lem}

different : ◌≢◌ {A = ℕ} 0x50 0x51
different e = omega (arith, e)

scratchpad_value_corrupted_example :
    (scratchpad_value (
        ([] ++ 0x50 ∷ (5 ∷ 0 ∷ 0 ∷ 0x7F ∷ 0xFF ∷ 0x0C ∷ 0x10 ∷ []))
        ++ crc_from 0 ([] ++ 0x50 ∷ (5 ∷ 0 ∷ 0 ∷ 0x7F ∷ 0xFF ∷ 0x0C ∷ 0x10 ∷ [])) ∷ [])
      ≡ read_u16 ([] ++ 0x50 ∷ (5 ∷ 0 ∷ 0 ∷ 0x7F ∷ 0xFF ∷ 0x0C ∷ 0x10 ∷ [])) 0)
    × (scratchpad_value (
          ([] ++ 0x51 ∷ (5 ∷ 0 ∷ 0 ∷ 0x7F ∷ 0xFF ∷ 0x0C ∷ 0x10 ∷ []))
          ++ crc_from 0 ([] ++ 0x50 ∷ (5 ∷ 0 ∷ 0 ∷ 0x7F ∷ 0xFF ∷ 0x0C ∷ 0x10 ∷ [])) ∷ [])
        ≡ invalid_value)
scratchpad_value_corrupted_example =
    scratchpad_value_corrupted [] (5 ∷ 0 ∷ 0 ∷ 0x7F ∷ 0xFF ∷ 0x0C ∷ 0x10 ∷ []) [] 0x50 0x51 tt
      (
        omega arith,
        (
          omega arith,
          (omega arith, (omega arith, (omega arith, (omega arith, (omega arith, tt))))),
        ),
      )
      (omega arith) (omega arith) (omega arith) different

abbrev two_sensors : Meas
two_sensors = record {
  state = ow_reading_scratchpad;
  t0 = 0;
  cur_sensor_idx = 0;
  tmp_mob_marked_tx = 8;
  ow_t_count = 2;
  ow_t_obj = record { mob_idx = 3; iodata_idx = 0 } ∷ record { mob_idx = 4; iodata_idx = 2 } ∷ [];
  temp_sensors = [];
  ow = record boot { response_code = read_bits_ok };
  pv = record { io_data = replicate 4 1; mob_marked_tx = 0 };
}

one_apart : ◌≢◌ {A = ℕ} 0 3
one_apart e = omega (arith, e)

next_apart : ◌≢◌ {A = ℕ} 1 3
next_apart e = omega (arith, e)

other_object : ◌≢◌ {A = ℕ} 4 3
other_object e = omega (arith, e)

-- The scratchpad of eight zeros and their checksum, its second byte changed.
abbrev misread : Meas
misread = record two_sensors {
  ow = record boot {
    response_code = read_bits_ok;
    ow_data =
        ((0 ∷ []) ++ 1 ∷ replicate 6 0)
        ++ crc_from 0 ((0 ∷ []) ++ 0 ∷ replicate 6 0) ∷ replicate 3 0;
  };
}

measure_publishes_example :
    let r = measure_ow_temp_sm 9 false misread in
    (read_u16 r.pv.io_data 0 ≡ invalid_value)
    × (get_or r.pv.io_data 3 0 ≡ 1)
    × (r.state ≡ (if ltb ((0 + 1) % 256) 2 then ow_initing_before_read else ow_relaxing))
unfolding cur_obj
measure_publishes_example =
    measure_publishes 9 false 3 misread (0 ∷ []) (replicate 6 0) (replicate 3 0) 0 1 refl refl refl
      refl (omega arith, tt)
      (omega arith, (omega arith, (omega arith, (omega arith, (omega arith, (omega arith, tt))))))
      (omega arith) (omega arith) (omega arith) (omega arith) (omega arith) one_apart next_apart

abbrev unanswered : Ow
unanswered = record boot { response_code = no_presence }

lost_mark_lem_example :
    let t =
      measure_ow_temp_sm 12 true
        (record (measure_ow_temp_sm 9 false two_sensors) { ow = unanswered }) in
    (read_u16 t.pv.io_data 0 ≡ scratchpad_value two_sensors.ow.ow_data)
    × (is_mob_marked_tx 3 t.pv ≡ is_mob_marked_tx 3 two_sensors.pv)
    × (t.state ≡ ow_relaxing)
unfolding cur_obj scratchpad_value read_u16 crc_from byt.Crc.calc_crc
lost_mark_lem_example =
    lost_mark_lem 9 12 false true two_sensors unanswered refl refl refl refl refl (omega arith)
      (omega arith) (omega arith) (omega arith) other_object (inl (omega arith))
