-- ===== src/Meas/Marks.antt =====
-- The marks of a round of the temperature measurement: `gTmpOwMobMarkedTx` of avr/fw/main.cpp.
use byt.Base.{
  ℕ, ◌+◌, ◌/◌, ◌%◌, ◌^◌, ◌<◌, ◌≡◌, ◌≢◌, ◌⊎◌, inl, inr, refl, ap, ◌∙◌, Bool, true, false, List, ltb,
  length, get_or, set, get_or-set_ne, bit_or, ◌==◌, ==_iff, if◌then◌else◌, if-false, Bool-cases,
  arith,
}
use byt.Pv.{Pv, read_u16, write_u16, mark_mob_tx, is_mob_marked_tx}
use byt.Pv.Marks.{is_mob_marked_tx_lem, read_u16-write_u16, read_u16-write_u16_ne}
use byt.Ow.Bus.{Ow, no_presence, read_bits_ok}
use byt.Ow.Ops.{init}
use byt.Meas.{
  Meas, OwT, invalid_value, cur_obj, scratchpad_value, ow_error, store_reading,
  on_reading_scratchpad, on_initing_before_read, ow_relaxing, ow_reading_scratchpad,
  ow_initing_before_read, measure_ow_temp_sm, measure_in,
}

same_marks :
    (j : ℕ) (d : List ℕ) (s : Pv)
    → is_mob_marked_tx j (record s { io_data = d }) ≡ is_mob_marked_tx j s
unfolding is_mob_marked_tx
same_marks j d s = refl

-- The state after a sensor whose value is new, the next one being asked for.
noted : Bool → Meas → Meas
noted active s =
    let v = scratchpad_value s.ow.ow_data in
    record s {
      cur_sensor_idx = (s.cur_sensor_idx + 1) % 256;
      pv = record s.pv { io_data = write_u16 s.pv.io_data (cur_obj s).iodata_idx v };
      tmp_mob_marked_tx = bit_or s.tmp_mob_marked_tx (2 ^ (cur_obj s).mob_idx);
      ow = init active s.ow;
      state = ow_initing_before_read;
    }

measure-noted :
    (now : ℕ) (active : Bool) (s : Meas)
    → s.state ≡ ow_reading_scratchpad
    → s.ow.response_code ≡ read_bits_ok
    → (read_u16 s.pv.io_data (cur_obj s).iodata_idx == scratchpad_value s.ow.ow_data) ≡ false
    → ltb ((s.cur_sensor_idx + 1) % 256) s.ow_t_count ≡ true
    → measure_ow_temp_sm now active s ≡ noted active s
unfolding measure_ow_temp_sm measure_in on_reading_scratchpad store_reading noted
measure-noted now active s hs hr new next = rw hs (rw hr (rw (new, next) refl))

-- What a sensor that does not answer leaves.
absent : ℕ → Meas → Meas
absent now s =
    let d = write_u16 s.pv.io_data (cur_obj s).iodata_idx invalid_value in
    record s {
      pv =
          if read_u16 s.pv.io_data (cur_obj s).iodata_idx == invalid_value
          then s.pv
          else mark_mob_tx (cur_obj s).mob_idx (record s.pv { io_data = d });
      t0 = now;
      state = ow_relaxing;
    }

measure-absent :
    (now : ℕ) (active : Bool) (s : Meas)
    → s.state ≡ ow_initing_before_read
    → s.ow.response_code ≡ no_presence
    → ltb s.cur_sensor_idx s.ow_t_count ≡ true
    → measure_ow_temp_sm now active s ≡ absent now s
unfolding measure_ow_temp_sm measure_in on_initing_before_read ow_error absent cur_obj
measure-absent now active s hs hr hi = rw hs (rw hr (rw hi refl))

read_u16-write_u16_apart :
    (d : List ℕ) (i j v : ℕ)
    → (j + 1 < i) ⊎ (i + 1 < j)
    → read_u16 (write_u16 d i v) j ≡ read_u16 d j
unfolding read_u16 write_u16
read_u16-write_u16_apart d i j v (inl h) =
    unfold read_u16 write_u16 in read_u16-write_u16_ne d i j v h
read_u16-write_u16_apart d i j v (inr h) = omega (
  arith,
  get_or-set_ne (set d i (v % 256)) (i + 1) j (v / 256 % 256) 0 (omega arith),
  get_or-set_ne (set d i (v % 256)) (i + 1) (j + 1) (v / 256 % 256) 0 (omega arith),
  get_or-set_ne d i j (v % 256) 0 (omega arith),
  get_or-set_ne d i (j + 1) (v % 256) 0 (omega arith),
)

other_mark :
    (i j : ℕ) (d : List ℕ) (p : Pv)
    → i < 16
    → j < 16
    → i ≢ j
    → is_mob_marked_tx j (mark_mob_tx i (record p { io_data = d })) ≡ is_mob_marked_tx j p
other_mark i j d p hi hj ne =
    (is_mob_marked_tx_lem i j (record p { io_data = d }) hi hj).0
    ∙ if-false (i == j) true (is_mob_marked_tx j (record p { io_data = d })) (differ i j ne)
    ∙ same_marks j d p
  where
    differ : (i j : ℕ) → i ≢ j → (i == j) ≡ false
    differ i j ne = elim (Bool-cases (i == j)) [
      | inl e ↦ absurd (ne ((==_iff i j).0 e))
      | inr e ↦ e
    ]

kept : (m : ℕ) (p : Pv) → (mark_mob_tx m p).io_data ≡ p.io_data
unfolding mark_mob_tx
kept m p = refl

-- Another object's value and mark are kept.
absent_keeps :
    (now i j : ℕ) (s : Meas)
    → (cur_obj s).mob_idx < 16
    → j < 16
    → (cur_obj s).mob_idx ≢ j
    → (i + 1 < (cur_obj s).iodata_idx) ⊎ ((cur_obj s).iodata_idx + 1 < i)
    → (read_u16 (absent now s).pv.io_data i ≡ read_u16 s.pv.io_data i)
      × (is_mob_marked_tx j (absent now s).pv ≡ is_mob_marked_tx j s.pv)
unfolding absent
absent_keeps now i j s hm hj ne apart =
    let o = cur_obj s in
    let d = write_u16 s.pv.io_data o.iodata_idx invalid_value in
    elim (Bool-cases (read_u16 s.pv.io_data o.iodata_idx == invalid_value)) [
      | inl e ↦ rw e (refl, refl)
      | inr e ↦ rw e (
        ap (λ x. read_u16 x i) (kept o.mob_idx (record s.pv { io_data = d }))
            ∙ read_u16-write_u16_apart s.pv.io_data o.iodata_idx i invalid_value apart,
        other_mark o.mob_idx j d s.pv hm hj ne,
      )
    ]

-- The object of the next sensor of the table.
abbrev pub next_obj : Meas → OwT
next_obj s =
    get_or s.ow_t_obj ((s.cur_sensor_idx + 1) % 256) (record { mob_idx = 0; iodata_idx = 0 })

-- A sensor's new value is not announced when the next sensor of the round does not answer. The value
-- has been stored in the image, but the mark of its message object is what it was before: it was
-- noted for the end of the round only, which is not reached. The two sensors have different message
-- objects and places in the image.
pub lost_mark_lem :
    (now later : ℕ) (active level : Bool) (s : Meas) (bus : Ow)
    → s.state ≡ ow_reading_scratchpad
    → s.ow.response_code ≡ read_bits_ok
    → (read_u16 s.pv.io_data (cur_obj s).iodata_idx == scratchpad_value s.ow.ow_data) ≡ false
    → ltb ((s.cur_sensor_idx + 1) % 256) s.ow_t_count ≡ true
    → bus.response_code ≡ no_presence
    → scratchpad_value s.ow.ow_data < 65536
    → (cur_obj s).iodata_idx + 1 < length s.pv.io_data
    → (cur_obj s).mob_idx < 16
    → (next_obj s).mob_idx < 16
    → (next_obj s).mob_idx ≢ (cur_obj s).mob_idx
    → ((cur_obj s).iodata_idx + 1 < (next_obj s).iodata_idx)
      ⊎ ((next_obj s).iodata_idx + 1 < (cur_obj s).iodata_idx)
    → let t =
        measure_ow_temp_sm later level (record (measure_ow_temp_sm now active s) { ow = bus }) in
      (read_u16 t.pv.io_data (cur_obj s).iodata_idx ≡ scratchpad_value s.ow.ow_data)
      × (is_mob_marked_tx (cur_obj s).mob_idx t.pv ≡ is_mob_marked_tx (cur_obj s).mob_idx s.pv)
      × (t.state ≡ ow_relaxing)
unfolding noted absent cur_obj
lost_mark_lem now later active level s bus hs hr new next hb fits inside hm hm' ne apart =
    let o = cur_obj s in
    let r = record (noted active s) { ow = bus } in
    let first : record (measure_ow_temp_sm now active s) { ow = bus } ≡ r =
      ap (λ (m : Meas). record m { ow = bus }) (measure-noted now active s hs hr new next) in
    let second : measure_ow_temp_sm later level
          (record (measure_ow_temp_sm now active s) { ow = bus })
        ≡ absent later r =
      ap (measure_ow_temp_sm later level) first ∙ measure-absent later level r refl hb next in
    let k = absent_keeps later o.iodata_idx o.mob_idx r hm' hm ne apart in
    rw second (
      k.0
          ∙ read_u16-write_u16 s.pv.io_data o.iodata_idx (scratchpad_value s.ow.ow_data) inside
              fits,
      k.1 ∙ same_marks o.mob_idx _ s.pv,
      refl,
    )
