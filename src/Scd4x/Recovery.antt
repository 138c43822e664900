-- ===== src/Scd4x/Recovery.antt =====
-- How the measuring cycle of the CO2 sensor publishes values, counts errors and recovers.
use byt.Base.{
  ℕ, ◌+◌, ◌≤◌, ◌<◌, ◌≡◌, ◌≢◌, ◌⊎◌, inl, inr, refl, ◌∙◌, Bool, true, false, not, ◌&&◌, ◌||◌, List,
  [], ◌∷◌, length, ltb, leb, ◌==◌, if◌then◌else◌, Bool-cases, ==_iff, arith,
}
use byt.Pv.{Pv, mark_mob_tx, is_mob_marked_tx, read_u16, write_u16}
use byt.Pv.Marks.{read_u16-write_u16, read_u16-write_u16_ne, length-write_u16, is_mob_marked_tx_lem}
use byt.Scd4x.Twi.{State, Twi, idle, pending_io, error, check_crc_meas_data, power_off}
use byt.Scd4x.Cycle.{
  relaxing, recover_error, recover_error_power_off, Scd, invalid_value, value_t, value_rh,
  value_co2, publish, update_pvs_with_invalid, error_handle, fail_round, relax, on_reading,
  is_pending, is_idle,
}

abbrev stored : List ℕ → ℕ → ℕ → ℕ → ℕ → List ℕ
stored d i temp rh co2 = write_u16 (write_u16 (write_u16 d i temp) (i + 2) rh) (i + 4) co2

stored_values :
    (d : List ℕ) (i temp rh co2 : ℕ)
    → temp < 65536
    → rh < 65536
    → co2 < 65536
    → i + 6 ≤ length d
    → (read_u16 (stored d i temp rh co2) i ≡ temp)
      × (read_u16 (stored d i temp rh co2) (i + 2) ≡ rh)
      × (read_u16 (stored d i temp rh co2) (i + 4) ≡ co2)
stored_values d i temp rh co2 ht hr hc h =
    let d1 = write_u16 d i temp in
    let d2 = write_u16 d1 (i + 2) rh in
    let l1 : length d1 ≡ length d = length-write_u16 d i temp in
    let l2 : length d2 ≡ length d = length-write_u16 d1 (i + 2) rh ∙ l1 in
    (
      read_u16-write_u16_ne d2 (i + 4) i co2 (omega arith)
          ∙ (read_u16-write_u16_ne d1 (i + 2) i rh (omega arith)
              ∙ read_u16-write_u16 d i temp (omega arith) ht),
      read_u16-write_u16_ne d2 (i + 4) (i + 2) co2 (omega arith)
          ∙ read_u16-write_u16 d1 (i + 2) rh (omega arith) hr,
      read_u16-write_u16 d2 (i + 4) co2 (omega arith) hc,
    )

marks_itself :
    (m : ℕ) (p : Pv)
    → m < 16
    → (d : List ℕ) → is_mob_marked_tx m (mark_mob_tx m (record p { io_data = d })) ≡ true
marks_itself m p h d =
    let e = (is_mob_marked_tx_lem m m (record p { io_data = d }) h h).0 in e ∙ ground arith

any_differs : (a b c : Bool) → (not a || (not b || not c)) ≡ true → (a && (b && c)) ≡ false
any_differs a b c h = ground arith

none_differs :
    (a b c : Bool) → (not a || (not b || not c)) ≡ false → (a ≡ true) × (b ≡ true) × (c ≡ true)
none_differs a b c h = (ground arith, ground arith, ground arith)

-- Publishing three sixteen-bit values into an object that lies inside the image makes them the
-- object's values, and the mark of its message object is set if one of them was different
-- before, and is as before otherwise.
pub publish_lem :
    (temp rh co2 : ℕ) (s : Scd)
    → temp < 65536
    → rh < 65536
    → co2 < 65536
    → s.iodata_idx + 6 ≤ length s.pv.io_data
    → s.mob_idx < 16
    → let t = publish temp rh co2 s in
      let same = (value_t s == temp) && ((value_rh s == rh) && (value_co2 s == co2)) in
      (value_t t ≡ temp)
      × (value_rh t ≡ rh)
      × (value_co2 t ≡ co2)
      × (is_mob_marked_tx s.mob_idx t.pv ≡ (if same then is_mob_marked_tx s.mob_idx s.pv else true))
unfolding publish value_t value_rh value_co2 mark_mob_tx write_u16
publish_lem temp rh co2 s ht hr hc inside hm =
    elim (Bool-cases
      (not (value_t s == temp) || (not (value_rh s == rh) || not (value_co2 s == co2)))) [
        | inl changed ↦
            let f = stored_values s.pv.io_data s.iodata_idx temp rh co2 ht hr hc inside in
            rw changed (
              f.0,
              f.1,
              f.2,
              marks_itself s.mob_idx s.pv hm _
                  ∙ rw
                      (any_differs (value_t s == temp) (value_rh s == rh) (value_co2 s == co2)
                        changed)
                      refl,
            )
        | inr same ↦
            let e = none_differs (value_t s == temp) (value_rh s == rh) (value_co2 s == co2) same in
            rw same (
              (==_iff (value_t s) temp).0 e.0,
              (==_iff (value_rh s) rh).0 e.1,
              (==_iff (value_co2 s) co2).0 e.2,
              rw (e.0, e.1, e.2) refl,
            )
      ]

-- The values of an object in the image are those of an invalid reading.
abbrev pub IsInvalid : Scd → Type 0
IsInvalid s =
    (value_t s ≡ invalid_value) × (value_rh s ≡ invalid_value) × (value_co2 s ≡ invalid_value)

error_handle_keeps :
    (now : ℕ) (s : Scd)
    → let t = (error_handle now s).1 in (t.pv ≡ s.pv) × (t.iodata_idx ≡ s.iodata_idx)
unfolding error_handle
error_handle_keeps now s = (ground arith, ground arith)

fail_round_keeps :
    (now : ℕ) (s : Scd)
    → let t = fail_round now s in
      (t.pv ≡ (update_pvs_with_invalid s).pv)
      × (t.iodata_idx ≡ (update_pvs_with_invalid s).iodata_idx)
unfolding fail_round relax
fail_round_keeps now s =
    let f = error_handle_keeps now (update_pvs_with_invalid s) in
    elim (Bool-cases (error_handle now (update_pvs_with_invalid s)).0) [
      | inl leave ↦ rw leave f
      | inr go ↦ rw go f
    ]

fail_round-IsInvalid :
    (now : ℕ) (s : Scd)
    → s.iodata_idx + 6 ≤ length s.pv.io_data
    → s.mob_idx < 16
    → IsInvalid (fail_round now s)
unfolding value_t value_rh value_co2 update_pvs_with_invalid
fail_round-IsInvalid now s inside hm =
    let f = fail_round_keeps now s in
    let p =
      publish_lem invalid_value invalid_value invalid_value s (omega arith) (omega arith)
        (omega arith) inside hm in
    rw (f.0, f.1) (p.0, p.1, p.2)

not_pending : (x : State) → x ≢ pending_io → is_pending x ≡ false
not_pending idle h = refl
not_pending pending_io h = absurd (h refl)
not_pending error h = refl

bad_answer : (x : State) (c : Bool) → (x ≢ idle) ⊎ (c ≡ false) → (is_idle x && c) ≡ false
bad_answer idle c (inl h) = absurd (h refl)
bad_answer idle c (inr e) = e
bad_answer pending_io c h = refl
bad_answer error c h = refl

-- A round of reading that ends without a good answer (the transfer failed, or a checksum of the three
-- items is wrong) publishes the invalid value for temperature, humidity and CO2.
pub on_reading-IsInvalid :
    (now : ℕ) (s : Scd)
    → s.twi.state ≢ pending_io
    → (s.twi.state ≢ idle) ⊎ (check_crc_meas_data s.twi ≡ false)
    → s.iodata_idx + 6 ≤ length s.pv.io_data
    → s.mob_idx < 16
    → IsInvalid (on_reading now s)
unfolding on_reading
on_reading-IsInvalid now s finished bad inside hm =
    let e1 = not_pending s.twi.state finished in
    let e2 = bad_answer s.twi.state (check_crc_meas_data s.twi) bad in
    rw (e1, e2) (fail_round-IsInvalid now s inside hm)

-- A transfer that is over without a good answer.
abbrev pub IsBad : Twi → Type 0
IsBad w = (w.state ≢ pending_io) × ((w.state ≢ idle) ⊎ (check_crc_meas_data w ≡ false))

-- Readings that end with the given transfers, the last one first.
unfoldable pub readings : List (ℕ × Twi) → Scd → Scd
readings [] s = s
readings ((now, w) ∷ before) s = on_reading now (record (readings before s) { twi = w })

-- The state after `k + 1` errors, the last transfer being `w`.
abbrev Escalated : ℕ → Twi → Scd → Type 0
Escalated k w t =
    (t.err_count ≡ k + 1)
    × (t.state_l2 ≡ (
        if ltb (k + 1) 5
        then relaxing
        else if k + 1 == 5
        then recover_error
        else recover_error_power_off))
    × (t.twi ≡ (if leb (k + 1) 5 then w else power_off w))
