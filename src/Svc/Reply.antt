-- ===== src/Svc/Reply.antt =====
-- The answer of each command of `svc` of avr/fw/main.cpp.
use byt.Base.{
  ℕ, zero, suc, ◌+◌, ◌-◌, ◌/◌, ◌≤◌, ◌≡◌, inl, inr, refl, sym, subst, ◌∙◌, Bool, true, false, not,
  ◌&&◌, ◌||◌, ltb, leb, ◌==◌, if◌then◌else◌, bit_and, set, Bool-cases, arith,
}
use byt.Gpio.{Gpio}
use byt.Svc.State.{Fw, arg, reply_len, refuse, with_scd, cmd_invalid}
use byt.Svc.Config.{
  set_stage, enable_mobs, enable_mob, enable_can_pv_exchange, is_stage, stage_running,
}
use byt.Svc.Ports.{write_ports}
use byt.Svc.Bus.{ow_get_data}
use byt.Svc.Sensor.{
  scd_enable, scd_write, scd_write_read, push_buf, scd_read, scd_diag, scd_sub, scd41_test,
}
use byt.Svc.Ready.{
  Ok, set-Ok, resized, refused, one, push_data-Ready, push_buf-Ready, either, one-At, push-At,
  At-Ready, Ready,
}

pub write_ports-Ready :
    (c : ℕ) (put : Gpio → ℕ → ℕ → Gpio) (n port : ℕ) (s : Fw)
    → Ready c s
    → Ready c (write_ports put n port s)
unfolding write_ports
write_ports-Ready c put zero port s ok = ok
write_ports-Ready c put (suc n) port s ok =
    either c (ltb (port + 1) s.msglen) _ s
      (write_ports-Ready c put n (port + 1) (record s { gpio = put s.gpio port (arg (port + 1) s) })
        ok)
      ok

enable_mobs-msg :
    (mode n mob : ℕ) (s : Fw)
    → ((enable_mobs mode n mob s).msg ≡ s.msg) × ((enable_mobs mode n mob s).msglen ≡ s.msglen)
unfolding enable_mobs enable_mob
enable_mobs-msg mode zero mob s = (refl, refl)
enable_mobs-msg mode (suc n) mob s = enable_mobs-msg mode n (mob + 1) (enable_mob mode mob s)

pub set_stage-Ready : (c : ℕ) (s : Fw) → Ready c s → Ready c (set_stage s)
unfolding set_stage refuse reply_len enable_can_pv_exchange
set_stage-Ready c s ok =
    let answered = record s { msg = set s.msg 2 s.stage } in
    let first = enable_mobs-msg 128 s.mob_first_tx 0 answered in
    let second =
      enable_mobs-msg 0 (s.mob_count - s.mob_first_tx) s.mob_first_tx
        (enable_mobs 128 s.mob_first_tx 0 answered) in
    let set_ok : Ok c (set s.msg 2 s.stage) 3 =
      resized c (set s.msg 2 s.stage) s.msglen 3 (omega arith) (omega arith)
        (set-Ok c s.msg s.msglen 2 s.stage (omega arith) ok) in
    let msg_is = second.0 ∙ first.0 in
    elim (Bool-cases (is_stage (arg 1 s))) [
      | inl e ↦ elim (Bool-cases (not (arg 1 s == s.stage) && arg 1 s == stage_running)) [
        | inl b ↦ rw e (rw b (subst (λ m. Ok c m 3) (sym msg_is) set_ok))
        | inr b ↦ rw e (rw b set_ok)
      ]
      | inr e ↦ rw e (refused c s.msg s.msglen 1 (omega arith) (omega arith) ok)
    ]

scd_enable-Ready : (c : ℕ) (s : Fw) → Ready c s → Ready c (scd_enable s)
unfolding scd_enable with_scd refuse reply_len
scd_enable-Ready c s ok =
    let two : Ok c s.msg 2 = resized c s.msg s.msglen 2 (omega arith) (omega arith) ok in
    let no : Ok c (set s.msg 0 cmd_invalid) 2 =
      refused c s.msg s.msglen 2 (omega arith) (omega arith) ok in
    elim (Bool-cases (s.msglen == 3 && arg 2 s == 1)) [
      | inl a ↦ rw a two
      | inr a ↦ elim (Bool-cases (s.msglen == 3 && arg 2 s == 2)) [
        | inl b ↦ rw a (rw b two)
        | inr b ↦ elim (Bool-cases (s.msglen == 3 && arg 2 s == 0)) [
          | inl d ↦ rw a (rw b (rw d two))
          | inr d ↦ rw a (rw b (rw d no))
        ]
      ]
    ]

scd_write-Ready : (c : ℕ) (s : Fw) → Ready c s → Ready c (scd_write s)
unfolding scd_write with_scd reply_len
scd_write-Ready c s ok = resized c s.msg s.msglen 1 (omega arith) (omega arith) ok

scd_write_read-Ready : (c : ℕ) (s : Fw) → Ready c s → Ready c (scd_write_read s)
unfolding scd_write_read with_scd refuse reply_len
scd_write_read-Ready c s ok = elim (Bool-cases (leb (arg 2 s) 9 && ltb 0 (arg 2 s))) [
  | inl e ↦ rw e (resized c s.msg s.msglen 1 (omega arith) (omega arith) ok)
  | inr e ↦ rw e (refused c s.msg s.msglen 1 (omega arith) (omega arith) ok)
]

-- The answer with bytes of the buffer, or a refusal.
read_or_refused :
    (c len offset : ℕ) (bad : Bool) (s : Fw)
    → (bad ≡ false → len ≤ 7)
    → Ready c s
    → Ready c (if bad then refuse (reply_len 1 s) else push_buf len offset (reply_len 1 s))
unfolding refuse reply_len
read_or_refused c len offset true s h ok = refused c s.msg s.msglen 1 (omega arith) (omega arith) ok
read_or_refused c len offset false s h ok =
    push_buf-Ready c len offset 1 (reply_len 1 s) refl (omega (arith, h refl)) (one c s ok)

scd_read-Ready : (c : ℕ) (s : Fw) → Ready c s → Ready c (scd_read s)
unfolding scd_read
scd_read-Ready c s ok =
    let len = if ltb s.msglen 3 || arg 2 s == 0 then 7 else arg 2 s in
    let offset = if ltb s.msglen 4 then 0 else arg 3 s in
    read_or_refused c len offset
      (ltb 9 (len + offset) || (leb 128 offset || (leb 128 len || ltb 7 len))) s
      (λ e. too_long len offset e) ok
  where
    too_long :
        (len offset : ℕ)
        → (ltb 9 (len + offset) || (leb 128 offset || (leb 128 len || ltb 7 len))) ≡ false
        → len ≤ 7
    too_long len offset e = ground arith

scd_diag-Ready : (c : ℕ) (s : Fw) → Ready c s → Ready c (scd_diag s)
unfolding scd_diag
scd_diag-Ready c s ok = At-Ready c 4 _ (
    push-At c 3 _ _ (omega arith)
      (push-At c 2 _ _ (omega arith) (push-At c 1 _ _ (omega arith) (one-At c s ok))))

pub scd41_test-Ready : (c : ℕ) (s : Fw) → Ready c s → Ready c (scd41_test s)
unfolding scd41_test scd_sub with_scd refuse reply_len Ok
scd41_test-Ready c s ok =
    either c (bit_and s.features 1 == 0) _ _ (refused c s.msg s.msglen s.msglen ok.1 ok.2 ok) (
      either c (arg 1 s == 0) _ _ (scd_enable-Ready c s ok) (
        either c (arg 1 s == 1) _ _ (scd_write-Ready c s ok) (
          either c (arg 1 s == 2) _ _ (scd_write_read-Ready c s ok) (
            either c (arg 1 s == 3) _ _ (scd_read-Ready c s ok) (
              either c (arg 1 s == 4) _ _ (scd_diag-Ready c s ok) (
                either c (arg 1 s == 5) _ _ ok (
                  either c (arg 1 s == 6) _ _ ok (
                    either c (arg 1 s == 7) _ _ ok
                      (refused c s.msg s.msglen 2 (omega arith) (omega arith) ok)))))))))

pub refused_one : (c : ℕ) (s : Fw) → Ready c s → Ready c (refuse (reply_len 1 s))
unfolding refuse reply_len
refused_one c s ok = refused c s.msg s.msglen 1 (omega arith) (omega arith) ok

pub ow_get_data-Ready : (c : ℕ) (s : Fw) → Ready c s → Ready c (ow_get_data s)
unfolding ow_get_data
ow_get_data-Ready c s ok =
    let index = if ltb 1 s.msglen then arg 1 s else 0 in
    let size = (s.ow.bits_count + 7) / 8 in
    either c (ltb size index) (refuse (reply_len 1 s)) _ (refused_one c s ok)
      (push_data-Ready c 7 index size 1 (reply_len 1 s) (one_is s) (omega arith) (one c s ok))
  where
    one_is : (s : Fw) → (reply_len 1 s).msglen ≡ 1
    one_is s = unfold reply_len in refl
