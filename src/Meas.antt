-- ===== src/Meas.antt =====
-- The temperature sensors on the 1-wire bus: `measure_ow_temp_sm` of avr/fw/main.cpp, which is
-- called every 4 ms and drives the master of `Ow`. `now` is the coarse clock, `active` what the pin
-- shows when a reset begins.
mod Tests
pub mod Publish
pub mod Marks
pub mod Safety
use byt.Base.{
  ℕ, zero, suc, ◌+◌, ◌-◌, ◌*◌, ◌/◌, ◌%◌, ◌^◌, Bool, true, false, not, List, [], ◌∷◌, ◌++◌, take,
  ltb, leb, ◌==◌, if◌then◌else◌, get_or, set, bit_or,
}
use byt.Clock.{dur_ms, is_timeout}
use byt.Crc.{crc_from}
use byt.Pv.{Pv, mark_mob_tx, read_u16, write_u16}
use byt.Ow.Bus.{
  Response, busy, presence_ok, write_bits_ok, read_bits_ok, rsp_error, bus_failure0, bus_failure1,
  no_presence, bus_failure3, read_bits_failure, write_bits_failure, search_result0, search_result1,
  search_result11, search_result00, Ow,
}
use byt.Ow.Ops.{init, read_bits, write_bits}

pub data State : Type 0 where
  idling ow_initing_before_convert ow_requesting_conver ow_converting : State
  ow_initing_before_read ow_matching_rom ow_reading_scratchpad ow_relaxing : State

-- `OwT_Obj`.
pub record OwT : Type 0 where
  pub mob_idx : ℕ
  pub iodata_idx : ℕ

pub record Meas : Type 0 where
  pub state : State
  pub t0 : ℕ
  pub cur_sensor_idx : ℕ  -- uint8_t
  pub tmp_mob_marked_tx : ℕ  -- uint16_t
  pub ow_t_count : ℕ
  pub ow_t_obj : List OwT
  pub temp_sensors : List (List ℕ)  -- RomData, 8 bytes each
  pub ow : Ow
  pub pv : Pv

-- `ow::cInvalidValue`, -21931 as a 16-bit pattern.
abbrev pub invalid_value : ℕ
invalid_value = 65536 - 21931

abbrev pub cmd_convert : ℕ
cmd_convert = 0x44

abbrev pub cmd_match_rom : ℕ
cmd_match_rom = 0x55

abbrev pub cmd_read_scratchpad : ℕ
cmd_read_scratchpad = 0xBE

abbrev pub cmd_skip_rom : ℕ
cmd_skip_rom = 0xCC

abbrev pub is_busy : Response → Bool
is_busy busy = true
is_busy _ = false

abbrev pub is_presence_ok : Response → Bool
is_presence_ok presence_ok = true
is_presence_ok _ = false

abbrev pub is_write_ok : Response → Bool
is_write_ok write_bits_ok = true
is_write_ok _ = false

abbrev pub is_read_ok : Response → Bool
is_read_ok read_bits_ok = true
is_read_ok _ = false

unfoldable pub cur_obj : Meas → OwT
cur_obj s = get_or s.ow_t_obj s.cur_sensor_idx (record { mob_idx = 0; iodata_idx = 0 })

-- `for(cnt…) ow::gOwData[cnt++] = …`: the bytes at the front of the buffer.
unfoldable pub put_bytes : ℕ → List ℕ → List ℕ → List ℕ
put_bytes i [] d = d
put_bytes i (b ∷ bs) d = put_bytes (i + 1) bs (set d i b)

unfoldable pub send_bytes : List ℕ → ℕ → Bool → Meas → Meas
send_bytes bs cnt strong s = record s {
  ow = write_bits (cnt * 8) strong (record s.ow { ow_data = put_bytes 0 bs s.ow.ow_data });
}

unfoldable pub ow_error : ℕ → Meas → Meas
unfolding cur_obj
ow_error now s =
    let idx = if ltb s.cur_sensor_idx s.ow_t_count then s.cur_sensor_idx else 0 in
    let obj = cur_obj (record s { cur_sensor_idx = idx }) in
    let d = write_u16 s.pv.io_data obj.iodata_idx invalid_value in
    record s {
      cur_sensor_idx = idx;
      pv =
          if read_u16 s.pv.io_data obj.iodata_idx == invalid_value
          then s.pv
          else mark_mob_tx obj.mob_idx (record s.pv { io_data = d });
      t0 = now;
      state = ow_relaxing;
    }

unfoldable pub on_idling : Bool → Meas → Meas
on_idling active s =
    if s.ow_t_count == 0
    then s
    else record s { ow = init active s.ow; state = ow_initing_before_convert }

unfoldable pub on_initing_before_convert : ℕ → Meas → Meas
on_initing_before_convert now s =
    let sent = send_bytes (cmd_skip_rom ∷ cmd_convert ∷ []) 2 true s in
    if is_presence_ok s.ow.response_code
    then record sent { state = ow_requesting_conver }
    else if is_busy s.ow.response_code
    then s
    else ow_error now s

unfoldable pub on_requesting_conver : ℕ → Meas → Meas
on_requesting_conver now s =
    if is_write_ok s.ow.response_code
    then record s { state = ow_converting; t0 = now }
    else if is_busy s.ow.response_code
    then s
    else ow_error now s

unfoldable pub on_converting : ℕ → Bool → Meas → Meas
on_converting now active s =
    if is_timeout now s.t0 (dur_ms 850)
    then record s {
      cur_sensor_idx = 0;
      tmp_mob_marked_tx = 0;
      ow = init active s.ow;
      state = ow_initing_before_read;
    }
    else s

-- With more than one sensor the current one is addressed by its ROM code.
unfoldable pub select_bytes : Meas → List ℕ
select_bytes s =
    if ltb 1 s.ow_t_count
    then cmd_match_rom ∷ take 8 (get_or s.temp_sensors s.cur_sensor_idx [])
      ++ cmd_read_scratchpad ∷ []
    else cmd_skip_rom ∷ cmd_read_scratchpad ∷ []

unfoldable pub select_count : Meas → ℕ
select_count s = if ltb 1 s.ow_t_count then 10 else 2

unfoldable pub on_initing_before_read : ℕ → Meas → Meas
on_initing_before_read now s =
    let sent = send_bytes (select_bytes s) (select_count s) false s in
    if is_presence_ok s.ow.response_code
    then record sent { state = ow_matching_rom }
    else if is_busy s.ow.response_code
    then s
    else ow_error now s

unfoldable pub on_matching_rom : ℕ → Meas → Meas
on_matching_rom now s =
    if is_write_ok s.ow.response_code
    then record s { ow = read_bits (9 * 8) s.ow; state = ow_reading_scratchpad }
    else if is_busy s.ow.response_code
    then s
    else ow_error now s

-- The value of a scratchpad: its first two bytes if the checksum of the first eight is the ninth.
unfoldable pub scratchpad_value : List ℕ → ℕ
scratchpad_value d = if crc_from 0 (take 8 d) == get_or d 8 0 then read_u16 d 0 else invalid_value

-- The value is stored, and a change is noted in the marks of the round.
unfoldable pub store_reading : Meas → Meas
unfolding cur_obj
store_reading s =
    let v = scratchpad_value s.ow.ow_data in
    let obj = cur_obj s in
    let next = record s { cur_sensor_idx = (s.cur_sensor_idx + 1) % 256 } in
    if read_u16 s.pv.io_data obj.iodata_idx == v then next else record next {
      pv = record s.pv { io_data = write_u16 s.pv.io_data obj.iodata_idx v };
      tmp_mob_marked_tx = bit_or s.tmp_mob_marked_tx (2 ^ obj.mob_idx);
    }

unfoldable pub on_reading_scratchpad : ℕ → Bool → Meas → Meas
on_reading_scratchpad now active s =
    let r = store_reading s in
    let done = record r {
      state = ow_relaxing;
      pv = record r.pv { mob_marked_tx = bit_or r.pv.mob_marked_tx r.tmp_mob_marked_tx };
    } in
    if is_read_ok s.ow.response_code
    then if ltb r.cur_sensor_idx s.ow_t_count
      then record r { ow = init active r.ow; state = ow_initing_before_read }
      else done
    else if is_busy s.ow.response_code
    then s
    else ow_error now s

unfoldable pub on_relaxing : ℕ → Meas → Meas
on_relaxing now s = if is_timeout now s.t0 (dur_ms 1000) then record s { state = idling } else s

-- The switch of `measure_ow_temp_sm`.
unfoldable pub measure_in : State → ℕ → Bool → Meas → Meas
measure_in idling now active s = on_idling active s
measure_in ow_initing_before_convert now active s = on_initing_before_convert now s
measure_in ow_requesting_conver now active s = on_requesting_conver now s
measure_in ow_converting now active s = on_converting now active s
measure_in ow_initing_before_read now active s = on_initing_before_read now s
measure_in ow_matching_rom now active s = on_matching_rom now s
measure_in ow_reading_scratchpad now active s = on_reading_scratchpad now active s
measure_in ow_relaxing now active s = on_relaxing now s

unfoldable pub measure_ow_temp_sm : ℕ → Bool → Meas → Meas
unfolding measure_in
measure_ow_temp_sm now active s = measure_in s.state now active s
