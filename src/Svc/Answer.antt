-- ===== src/Svc/Answer.antt =====
-- The answers of the service protocol: `svc` of avr/fw/main.cpp.
use byt.Base.{
  ℕ, ◌+◌, ◌-◌, ◌*◌, ◌%◌, ◌^◌, ◌<◌, ◌≤◌, ◌≡◌, ◌⊎◌, inl, refl, sym, ap, ◌∙◌, true, false, not, ◌||◌,
  List, [], ◌∷◌, take, drop, length, length-set, ltb, ◌==◌, if◌then◌else◌, get_or, set,
  get_or-set_self, arith,
}
use byt.Ow.Ops.{read_bits, write_bits, search as bus_search_of}
use byt.Meas.{put_bytes}
use byt.Gpio.{Gpio, set_ddr, set_port, set_pin, get_ddr, get_port, get_pin}
use byt.Svc.State.{Fw, arg, reply_len, refuse, cmd_invalid}
use byt.Svc.Config.{
  set_alloc_counts, set_alloc_counts2, get_alloc_counts2, set_ow_obj_params, set_ow_obj_rom_code,
  set_pwm_params, set_pwm_channel_params, set_dig_in_params, set_dig_out_params, set_scd41_params,
  set_sht11_params, set_can_mob, flush_all, init_mob,
}
use byt.Svc.Ports.{test_get, write_ports, test_set, store32, get_git_version}
use byt.Svc.Bus.{ow_init, ow_get_reply_code, ow_read_bits, ow_write_bits, ow_search}
use byt.Svc.Dispatch.{
  Env, Command, status, alloc_counts, get_counts, stage, ow_obj, ow_rom, dig_in, dig_out, can_mob,
  write_ddr, read_ddr, write_port, read_port, write_pin, read_pin, version, bus_init, bus_read,
  bus_write, bus_search, bus_reply, bus_data, scd41, sht11, scd41_by_hand, flush, alloc_counts2,
  get_counts2, pwm, pwm_channel, unknown, command, prepare_status_msg, unknown_command, execute,
  can_tx_svc, svc,
}
use byt.Svc.Ready.{
  Ok, set-Ok, resized, refused, one, push_ports-Ready, either, At, one-At, push-At, At-Ready,
  get_counts-Ready, Ready,
}
use byt.Svc.Sent.{execute-sent}
use byt.Svc.Reply.{
  write_ports-Ready, set_stage-Ready, scd41_test-Ready, ow_get_data-Ready, refused_one,
}

refuse-Ready : (c : ℕ) (s : Fw) → Ready c s → Ready c (refuse s)
unfolding refuse Ok
refuse-Ready c s ok = refused c s.msg s.msglen s.msglen ok.1 ok.2 ok

ow_read_bits-Ready : (c : ℕ) (s : Fw) → Ready c s → Ready c (ow_read_bits s)
unfolding ow_read_bits
ow_read_bits-Ready c s ok =
    let r = record s { ow = read_bits (arg 1 s) s.ow } in
    let bad = ltb s.msglen 2 || ltb 96 (arg 1 s) in
    one c (if bad then refuse s else r) (either c bad (refuse s) r (refuse-Ready c s ok) ok)

ow_search-Ready : (c : ℕ) (s : Fw) → Ready c s → Ready c (ow_search s)
unfolding ow_search
ow_search-Ready c s ok =
    let r = record s { ow = bus_search_of (not (arg 1 s == 0)) s.ow } in
    let good = s.msglen == 2 in
    one c (if good then r else refuse s) (either c good r (refuse s) ok (refuse-Ready c s ok))

ow_write_bits-Ready : (c : ℕ) (s : Fw) → Ready c s → Ready c (ow_write_bits s)
unfolding ow_write_bits
ow_write_bits-Ready c s ok =
    either c (ltb 0 (s.msglen - 2)) _ _ (one c (loaded s) ok) (refused_one c s ok)
  where
    loaded : Fw → Fw
    loaded s =
        let bytes = put_bytes 0 (take (s.msglen - 2) (drop 2 s.msg)) s.ow.ow_data in
        record s {
          ow =
              write_bits (8 * (s.msglen - 2)) (not (arg 1 s == 0))
                (record s.ow { ow_data = bytes });
        }

test_set-Ready : (c : ℕ) (put : Gpio → ℕ → ℕ → Gpio) (s : Fw) → Ready c s → Ready c (test_set put s)
unfolding test_set
test_set-Ready c put s ok = one c (write_ports put 7 0 s) (write_ports-Ready c put 7 0 s ok)

test_get-Ready : (c : ℕ) (get : Gpio → ℕ → ℕ) (s : Fw) → Ready c s → Ready c (test_get get s)
unfolding test_get At
test_get-Ready c get s ok =
    push_ports-Ready c get 7 0 1 (reply_len 1 s) (one-At c s ok).1 (omega arith) (one c s ok)

ow_get_reply_code-Ready : (c : ℕ) (s : Fw) → Ready c s → Ready c (ow_get_reply_code s)
unfolding ow_get_reply_code
ow_get_reply_code-Ready c s ok =
    At-Ready c 3 _ (push-At c 2 _ _ (omega arith) (push-At c 1 _ _ (omega arith) (one-At c s ok)))

get_counts2-Ready : (c : ℕ) (s : Fw) → Ready c s → Ready c (get_alloc_counts2 s)
unfolding get_alloc_counts2
get_counts2-Ready c s ok = At-Ready c 2 _ (push-At c 1 _ _ (omega arith) (one-At c s ok))

store32-Ready : (c k v : ℕ) (s : Fw) → 0 < k → Ready c s → Ready c (store32 k v s)
unfolding store32
store32-Ready c k v s h ok = set-Ok c _ s.msglen (k + 3) _ (omega (arith, h)) (
    set-Ok c _ s.msglen (k + 2) _ (omega (arith, h))
      (set-Ok c _ s.msglen (k + 1) _ (omega (arith, h)) (set-Ok c s.msg s.msglen k _ h ok)))

get_git_version-Ready : (c g b : ℕ) (s : Fw) → Ready c s → Ready c (get_git_version g b s)
unfolding get_git_version
get_git_version-Ready c g b s ok =
    let u = store32-Ready c 4 (b * 256 % 2 ^ 32) s (omega arith) ok in
    let filled = store32 1 g (store32 4 (b * 256 % 2 ^ 32) s) in
    eight c filled (store32-Ready c 1 g (store32 4 (b * 256 % 2 ^ 32) s) (omega arith) u)
  where
    eight : (c : ℕ) (t : Fw) → Ready c t → Ready c (reply_len 8 t)
    eight c t ok = unfold reply_len in resized c t.msg t.msglen 8 (omega arith) (omega arith) ok

prepare_status_msg-Ready :
    (c : ℕ) (env : Env) (s : Fw) → c ≡ 115 → Ready c s → Ready c (prepare_status_msg env s)
unfolding prepare_status_msg
prepare_status_msg-Ready c env s e ok = At-Ready c 4 _ (
    push-At c 3 _ _ (omega arith) (
      push-At c 2 _ _ (omega arith)
        (push-At c 1 _ _ (omega arith) (one-At c (record s { msg = set s.msg 0 115 }) headed))))
  where
    headed : Ready c (record s { msg = set s.msg 0 115 })
    headed =
        unfold Ok in
        (
          inl (get_or-set_self s.msg 0 115 0 (omega (arith, ok.3)) ∙ sym e),
          ok.1,
          ok.2,
          length-set s.msg 0 115 ∙ ok.3,
        )

execute-Ready :
    (k : Command) (c : ℕ) (env : Env) (s : Fw)
    → (k ≡ status → c ≡ 115)
    → Ready c s
    → Ready c (execute k env false s)
unfolding execute unknown_command set_alloc_counts set_alloc_counts2 set_ow_obj_params
    set_ow_obj_rom_code set_pwm_params set_pwm_channel_params set_dig_in_params set_dig_out_params
    set_scd41_params set_sht11_params set_can_mob init_mob flush_all ow_init refuse reply_len
execute-Ready status c env s h ok = prepare_status_msg-Ready c env s (h refl) ok
execute-Ready alloc_counts c env s h ok = resized c s.msg s.msglen 1 (omega arith) (omega arith) ok
execute-Ready get_counts c env s h ok = get_counts-Ready c s ok
execute-Ready stage c env s h ok = set_stage-Ready c s ok
execute-Ready ow_obj c env s h ok = resized c s.msg s.msglen 1 (omega arith) (omega arith) ok
execute-Ready ow_rom c env s h ok =
    resized c _ s.msglen 2 (omega arith) (omega arith)
      (set-Ok c s.msg s.msglen 1 _ (omega arith) ok)
execute-Ready dig_in c env s h ok = resized c s.msg s.msglen 1 (omega arith) (omega arith) ok
execute-Ready dig_out c env s h ok = resized c s.msg s.msglen 1 (omega arith) (omega arith) ok
execute-Ready can_mob c env s h ok = resized c s.msg s.msglen 1 (omega arith) (omega arith) ok
execute-Ready write_ddr c env s h ok = test_set-Ready c set_ddr s ok
execute-Ready read_ddr c env s h ok = test_get-Ready c get_ddr s ok
execute-Ready write_port c env s h ok = test_set-Ready c set_port s ok
execute-Ready read_port c env s h ok = test_get-Ready c get_port s ok
execute-Ready write_pin c env s h ok = test_set-Ready c set_pin s ok
execute-Ready read_pin c env s h ok = test_get-Ready c get_pin s ok
execute-Ready version c env s h ok = get_git_version-Ready c env.git_hash env.built s ok
execute-Ready bus_init c env s h ok = ok
execute-Ready bus_read c env s h ok = ow_read_bits-Ready c s ok
execute-Ready bus_write c env s h ok = ow_write_bits-Ready c s ok
execute-Ready bus_search c env s h ok = ow_search-Ready c s ok
execute-Ready bus_reply c env s h ok = ow_get_reply_code-Ready c s ok
execute-Ready bus_data c env s h ok = ow_get_data-Ready c s ok
execute-Ready scd41 c env s h ok = resized c s.msg s.msglen 1 (omega arith) (omega arith) ok
execute-Ready sht11 c env s h ok = resized c s.msg s.msglen 1 (omega arith) (omega arith) ok
execute-Ready scd41_by_hand c env s h ok = scd41_test-Ready c s ok
execute-Ready flush c env s h ok = ok
execute-Ready alloc_counts2 c env s h ok = resized c s.msg s.msglen 1 (omega arith) (omega arith) ok
execute-Ready get_counts2 c env s h ok = get_counts2-Ready c s ok
execute-Ready pwm c env s h ok = resized c s.msg s.msglen 1 (omega arith) (omega arith) ok
execute-Ready pwm_channel c env s h ok = resized c s.msg s.msglen 1 (omega arith) (omega arith) ok
execute-Ready unknown c env s h ok =
    resized c _ s.msglen 1 (omega arith) (omega arith)
      (set-Ok c s.msg s.msglen 1 cmd_invalid (omega arith) ok)

command-status : (c : ℕ) → command c ≡ status → c ≡ 115
command-status c e = ground arith

can_tx_svc-sent : (c : ℕ) (s : Fw) → Ready c s → (can_tx_svc s).sent ≡ take s.msglen s.msg ∷ s.sent
unfolding can_tx_svc Ok
can_tx_svc-sent c s ok = ground (arith, ok.1, ok.2)

-- A service message of 1 to 8 bytes to this node, of any content, is answered by exactly one frame: it
-- has 1 to 8 bytes and begins with the code of the command or with the mark of a refusal.
pub svc-answers :
    (env : Env) (s : Fw)
    → 0 < s.msglen
    → s.msglen ≤ 8
    → length s.msg ≡ 8
    → let c = get_or s.msg 0 0 in
      let t = execute (command c) env false s in
      ((svc env false s).sent ≡ take t.msglen t.msg ∷ s.sent)
      × (0 < t.msglen)
      × (t.msglen ≤ 8)
      × ((get_or t.msg 0 0 ≡ c) ⊎ (get_or t.msg 0 0 ≡ cmd_invalid))
unfolding svc Ok
svc-answers env s h h' e =
    let c = get_or s.msg 0 0 in
    let t = execute (command c) env false s in
    let ok = execute-Ready (command c) c env s (command-status c) (inl refl, h, h', e) in
    (
      can_tx_svc-sent c t ok
          ∙ ap (λ q. take t.msglen t.msg ∷ q) (execute-sent (command c) env false s),
      ok.1,
      ok.2,
      ok.0,
    )

-- A command that the switch does not know is answered by its own code alone if it comes to this node,
-- and is not answered if it is broadcast.
pub unknown_command_lem :
    (env : Env) (s : Fw)
    → 0 < length s.msg
    → command (get_or s.msg 0 0) ≡ unknown
    → ((svc env false s).sent ≡ (get_or s.msg 0 0 ∷ []) ∷ s.sent) × ((svc env true s).sent ≡ s.sent)
unfolding svc can_tx_svc execute unknown_command reply_len
unknown_command_lem env s h e = (rw e (ap (λ q. q ∷ s.sent) (first s.msg h)), rw e refl)
  where
    first : (m : List ℕ) → 0 < length m → take 1 (set m 1 cmd_invalid) ≡ get_or m 0 0 ∷ []
    first [] h = absurd (omega (arith, h))
    first (x ∷ m) h = refl
