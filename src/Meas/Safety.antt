-- ===== src/Meas/Safety.antt =====
-- What the temperature measurement of avr/fw/main.cpp asks of the 1-wire master.
use byt.Base.{
  ℕ, ◌*◌, ◌≤◌, ◌≡◌, inl, inr, refl, sym, subst, Bool, true, false, List, ltb, ◌==◌, if◌then◌else◌,
  Bool-cases, arith,
}
use byt.Clock.{is_timeout, dur_ms}
use byt.Ow.Invariant.{Inv}
use byt.Ow.Safety.{read_bits-Inv, write_bits-Inv, init-Inv}
use byt.Meas.{
  State, idling, ow_initing_before_convert, ow_requesting_conver, ow_converting,
  ow_initing_before_read, ow_matching_rom, ow_reading_scratchpad, ow_relaxing, Meas, send_bytes,
  is_presence_ok, is_write_ok, is_read_ok, is_busy, ow_error, on_idling, on_initing_before_convert,
  on_requesting_conver, on_converting, select_bytes, select_count, on_initing_before_read,
  on_matching_rom, store_reading, on_reading_scratchpad, on_relaxing, measure_in,
}
use byt.Svc.Safety.{put_bytes-Inv}

send_bytes-Inv :
    (bs : List ℕ) (n : ℕ) (strong : Bool) (s : Meas)
    → n ≤ 12
    → Inv s.ow
    → Inv (send_bytes bs n strong s).ow
unfolding send_bytes
send_bytes-Inv bs n strong s h v =
    write_bits-Inv (n * 8) strong _ (omega arith) (put_bytes-Inv bs s.ow v)

ow_error-ow : (now : ℕ) (s : Meas) → (ow_error now s).ow ≡ s.ow
unfolding ow_error
ow_error-ow now s = refl

-- After an answer the machine goes on, waits, or relaxes.
answered :
    (ok waiting : Bool) (now : ℕ) (t s : Meas)
    → Inv t.ow
    → Inv s.ow
    → Inv (if ok then t else if waiting then s else ow_error now s).ow
unfolding ow_error
answered true waiting now t s u v = u
answered false true now t s u v = v
answered false false now t s u v = v

branch : (b : Bool) (s t : Meas) → Inv s.ow → Inv t.ow → Inv (if b then s else t).ow
branch true s t v u = v
branch false s t v u = u

select_count-le : (s : Meas) → select_count s ≤ 12
unfolding select_count
select_count-le s = ground arith

store_reading-ow : (s : Meas) → (store_reading s).ow ≡ s.ow
unfolding store_reading
store_reading-ow s = ground arith

-- A round of the measurement keeps the invariant of the 1-wire master.
pub measure-Inv :
    (st : State) (now : ℕ) (active : Bool) (s : Meas)
    → Inv s.ow
    → Inv (measure_in st now active s).ow
unfolding measure_in on_idling on_initing_before_convert on_requesting_conver on_converting
    on_initing_before_read on_matching_rom on_reading_scratchpad on_relaxing
measure-Inv idling now active s v = elim (Bool-cases (s.ow_t_count == 0)) [
  | inl e ↦ rw e v
  | inr e ↦ rw e (init-Inv active s.ow v)
]
measure-Inv ow_initing_before_convert now active s v =
    answered (is_presence_ok s.ow.response_code) (is_busy s.ow.response_code) now _ s
      (send_bytes-Inv _ 2 true s (omega arith) v) v
measure-Inv ow_requesting_conver now active s v =
    answered (is_write_ok s.ow.response_code) (is_busy s.ow.response_code) now _ s v v
measure-Inv ow_converting now active s v =
    branch (is_timeout now s.t0 (dur_ms 850)) _ s (init-Inv active s.ow v) v
measure-Inv ow_initing_before_read now active s v =
    answered (is_presence_ok s.ow.response_code) (is_busy s.ow.response_code) now _ s
      (send_bytes-Inv (select_bytes s) (select_count s) false s (select_count-le s) v) v
measure-Inv ow_matching_rom now active s v =
    answered (is_write_ok s.ow.response_code) (is_busy s.ow.response_code) now _ s
      (read_bits-Inv 72 s.ow (omega arith) v) v
measure-Inv ow_reading_scratchpad now active s v =
    let r = store_reading s in
    let u : Inv r.ow = subst (λ x. Inv x) (sym (store_reading-ow s)) v in
    answered (is_read_ok s.ow.response_code) (is_busy s.ow.response_code) now _ s
      (branch (ltb r.cur_sensor_idx s.ow_t_count) _ _ (init-Inv active r.ow u) u) v
measure-Inv ow_relaxing now active s v = branch (is_timeout now s.t0 (dur_ms 1000)) _ s v v
