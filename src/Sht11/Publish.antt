-- ===== src/Sht11/Publish.antt =====
-- When the measuring cycle of the humidity sensor publishes values: the namespace sht11 of
-- avr/fw/main.cpp.
use byt.Base.{
  ℕ, ◌+◌, ◌<◌, ◌≤◌, ◌≡◌, ◌⊎◌, inl, inr, refl, ap, ◌∙◌, ◌/◌, ◌%◌, Bool, true, false, not, ◌||◌, ◌==◌,
  length, Bool-cases, ==_iff, arith,
}
use byt.Crc.{calc_crc_8bit, reverse_bits}
use byt.Pv.{Pv, mark_mob_tx, is_mob_marked_tx, read_u16, write_u16}
use byt.Pv.Marks.{read_u16-write_u16, read_u16-write_u16_ne, length-write_u16, is_mob_marked_tx_lem}
use byt.Sht11.Wire.{do_sm_l1}
use byt.Sht11.Wire
use byt.Sht11.Cycle.{
  StateL2, disabled, relax, meas_t_init, meas_t_send_cmd, meas_t_read_h, meas_t_read_l,
  meas_t_read_crc, meas_rh_init, meas_rh_send_cmd, meas_rh_read_h, meas_rh_read_l, meas_rh_read_crc,
  clear_error, Sht11, cmd_meas_temp, update_pvs, is_idle, is_error, to_relax, to_clear_error,
  step_wire, eval_state_helper, on_relax, on_init, on_send_cmd, on_meas_t_read_h, on_meas_t_read_l,
  value_crc, on_meas_t_read_crc, on_meas_rh_read_h, on_meas_rh_read_l, on_meas_rh_read_crc,
  on_clear_error, do_sm_in, do_sm,
}

unchanged : (a b : ℕ) → (not (a == b)) ≡ false → a ≡ b
unchanged a b h = ground arith

marks_self : (m : ℕ) (p : Pv) → m < 16 → is_mob_marked_tx m (mark_mob_tx m p) ≡ true
marks_self m p h = (is_mob_marked_tx_lem m m p h h).0 ∙ ground arith

-- Publishing two sixteen-bit values into an object inside the image makes them the object's
-- values; either the image and the marks are unchanged, or its message object is marked.
pub update_pvs_lem :
    (s : Sht11)
    → s.temp < 65536
    → s.rh < 65536
    → s.iodata_idx + 4 ≤ length s.pv.io_data
    → s.mob_idx < 16
    → let t = update_pvs s in
      (read_u16 t.pv.io_data s.iodata_idx ≡ s.temp)
      × (read_u16 t.pv.io_data (s.iodata_idx + 2) ≡ s.rh)
      × ((t.pv ≡ s.pv) ⊎ (is_mob_marked_tx s.mob_idx t.pv ≡ true))
unfolding update_pvs mark_mob_tx
update_pvs_lem s ht hr hi hm =
    let d1 = write_u16 s.pv.io_data s.iodata_idx s.temp in
    let l1 : length d1 ≡ length s.pv.io_data = length-write_u16 s.pv.io_data s.iodata_idx s.temp in
    let d2 = write_u16 d1 (s.iodata_idx + 2) s.rh in
    elim (Bool-cases (
      not (read_u16 s.pv.io_data s.iodata_idx == s.temp)
      || not (read_u16 s.pv.io_data (s.iodata_idx + 2) == s.rh))) [
        | inl e ↦ rw e (
          read_u16-write_u16_ne d1 (s.iodata_idx + 2) s.iodata_idx s.rh (omega arith)
              ∙ read_u16-write_u16 s.pv.io_data s.iodata_idx s.temp (omega arith) ht,
          read_u16-write_u16 d1 (s.iodata_idx + 2) s.rh (omega arith) hr,
          inr (marks_self s.mob_idx (record s.pv { io_data = d2 }) hm),
        )
        | inr e ↦ rw e (ground arith, ground arith, inl refl)
      ]

-- The image shows two values in the sensor's object, and is as before or the object is marked.
pub Shows : ℕ → ℕ → Sht11 → Pv → Type 0
Shows temp rh s p =
    (read_u16 p.io_data s.iodata_idx ≡ temp)
    × (read_u16 p.io_data (s.iodata_idx + 2) ≡ rh)
    × ((p ≡ s.pv) ⊎ (is_mob_marked_tx s.mob_idx p ≡ true))

-- The three ways in which a call may leave the process image. The checksum is over the command 5 and
-- the two bytes of the value, the higher one first, and comes with its bits reversed.
pub Publishes : Sht11 → Bool → Pv → Type 0
Publishes s line p =
    let w = do_sm_l1 line s.wire in
    let sum = calc_crc_8bit (calc_crc_8bit (calc_crc_8bit 0 5) (s.rh / 256)) (s.rh % 256) in
    (p ≡ s.pv)
    ⊎ (((s.state_l2 ≡ clear_error) × Shows 0xFFFE 0xFFFE s p)
        ⊎ ((s.state_l2 ≡ meas_rh_read_crc)
            × (w.state ≡ Wire.idle)
            × (reverse_bits sum ≡ w.byte)
            × Shows s.temp s.rh s p))

-- The humidity's part of the cycle, whose end publishes the temperature too.
abbrev pub is_rh_phase : StateL2 → Bool
is_rh_phase meas_rh_init = true
is_rh_phase meas_rh_send_cmd = true
is_rh_phase meas_rh_read_h = true
is_rh_phase meas_rh_read_l = true
is_rh_phase meas_rh_read_crc = true
is_rh_phase _ = false

clash {ℓ} : {A : Type ℓ} (b : Bool) → b ≡ false → b ≡ true → A
clash b h k = absurd (ground arith)

checked_crc :
    (now : ℕ) (line : Bool) (s : Sht11)
    → s.state_l2 ≡ meas_t_read_crc
    → is_rh_phase (on_meas_t_read_crc now line s).state_l2 ≡ true
    → (false ≡ true
        ⊎ ((meas_t_read_crc ≡ meas_t_read_crc)
            × (value_crc cmd_meas_temp s.temp ≡ (do_sm_l1 line s.wire).byte)))
      × ((on_meas_t_read_crc now line s).temp ≡ s.temp)
unfolding on_meas_t_read_crc step_wire eval_state_helper to_relax to_clear_error
checked_crc now line s e h = elim (Bool-cases (is_idle (do_sm_l1 line s.wire).state)) [
  | inl i ↦ elim (Bool-cases (value_crc cmd_meas_temp s.temp == (do_sm_l1 line s.wire).byte)) [
    | inl c ↦ (inr (refl, (==_iff _ _).0 c), rw i (rw c refl))
    | inr c ↦ clash _ (rw i (rw c refl)) h
  ]
  | inr i ↦
      clash _
        (elim (Bool-cases (is_error (do_sm_l1 line s.wire).state)) [
          | inl x ↦ rw i (rw x refl)
          | inr x ↦ rw i (rw x (ap is_rh_phase e))
        ])
        h
]

in_checked :
    (st : StateL2) (now : ℕ) (line : Bool) (s : Sht11)
    → s.state_l2 ≡ st
    → is_rh_phase (do_sm_in st now line s).state_l2 ≡ true
    → (is_rh_phase st ≡ true
        ⊎ ((st ≡ meas_t_read_crc) × (value_crc cmd_meas_temp s.temp ≡ (do_sm_l1 line s.wire).byte)))
      × ((do_sm_in st now line s).temp ≡ s.temp)
unfolding do_sm_in step_wire eval_state_helper to_relax to_clear_error on_relax on_init on_send_cmd
    on_meas_t_read_h on_meas_t_read_l on_meas_t_read_crc on_meas_rh_read_h on_meas_rh_read_l
    on_meas_rh_read_crc on_clear_error
in_checked disabled now line s e h = (ground arith, ground arith)
in_checked relax now line s e h = (ground arith, ground arith)
in_checked meas_t_init now line s e h = (ground arith, ground arith)
in_checked meas_t_send_cmd now line s e h = (ground arith, ground arith)
in_checked meas_t_read_h now line s e h = (ground arith, ground arith)
in_checked meas_t_read_l now line s e h = (ground arith, ground arith)
in_checked meas_t_read_crc now line s e h = checked_crc now line s e h
in_checked meas_rh_init now line s e h = (inl refl, ground arith)
in_checked meas_rh_send_cmd now line s e h = (inl refl, ground arith)
in_checked meas_rh_read_h now line s e h = (inl refl, ground arith)
in_checked meas_rh_read_l now line s e h = (inl refl, ground arith)
in_checked meas_rh_read_crc now line s e h = (inl refl, ground arith)
in_checked clear_error now line s e h = (ground arith, ground arith)

-- A call after which the cycle is in the humidity's part keeps the temperature that was measured;
-- it was in that part before, or has just received the checksum of this temperature.
pub rh_phase-checked :
    (now : ℕ) (line : Bool) (s : Sht11)
    → is_rh_phase (do_sm now line s).state_l2 ≡ true
    → (is_rh_phase s.state_l2 ≡ true
        ⊎ ((s.state_l2 ≡ meas_t_read_crc)
            × (value_crc cmd_meas_temp s.temp ≡ (do_sm_l1 line s.wire).byte)))
      × ((do_sm now line s).temp ≡ s.temp)
unfolding do_sm
rh_phase-checked now line s h = in_checked s.state_l2 now line s refl h
