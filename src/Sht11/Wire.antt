-- ===== src/Sht11/Wire.antt =====
-- avr/fw/sht11_sm.cpp and sht11_swi2c.cpp: the two wires of the humidity sensor and the state
-- machine that moves bits over them, one edge per call. `line` is what `data()` reads in a call.
use byt.Base.{
  ℕ, ◌+◌, ◌-◌, ◌*◌, ◌%◌, ◌^◌, Bool, true, false, to_nat, ltb, ◌==◌, if◌then◌else◌, bit_and, bit_or,
}

pub data State : Type 0 where
  idle error finising : State
  init_transfer init_transfer_data_pull init_transfer_low_pulse_clk0 : State
  init_transfer_low_pulse_clk1 init_transfer_data_release init_transfer_clk0 : State
  send8bit send8bit_hi_pulse_clk1 send8bit_hi_pulse_clk0 send8bit_release_b_ack : State
  send8bit_hi_pluse_ack_clk1 send8bit_hi_pluse_ack_clk0 send8bit_wait_meas : State
  recv8bit recv8_hi_pulse_clk1 recv8_hi_pulse_clk0 recv8bit_send_ack : State
  recv8bit_send_ack_clk1 recv8bit_send_ack_clk0 recv8bit_send_ack_release : State
  reset_clk1 reset_clk0 : State

-- `clk_dir` is DDRC PC5, `clk` PORTC PC5 and `pulled` DDRC PC3. The state `Reset` of the source is
-- `reset_clk1` here.
pub record Sht : Type 0 where
  pub state : State
  pub byte : ℕ  -- uint8_t
  pub bit_cnt : ℕ  -- uint8_t
  pub with_ack : Bool
  pub clk_dir : Bool
  pub clk : Bool
  pub pulled : Bool

unfoldable pub enable : Sht → Sht
enable s = record s { clk_dir = true }

unfoldable pub clk0 : Sht → Sht
clk0 s = record s { clk = false }

unfoldable pub clk1 : Sht → Sht
clk1 s = record s { clk = true }

unfoldable pub data_pull : Sht → Sht
data_pull s = record s { pulled = true }

unfoldable pub data_release : Sht → Sht
data_release s = record s { pulled = false }

unfoldable pub goto : State → Sht → Sht
goto st s = record s { state = st }

unfoldable pub init : Sht → Sht
init s = record s { state = init_transfer }

unfoldable pub send_byte : ℕ → Sht → Sht
send_byte v s = record s { byte = v; bit_cnt = 0; state = send8bit }

unfoldable pub recv_byte : Bool → Sht → Sht
recv_byte ack s = record s { byte = 0; bit_cnt = 0; with_ack = ack; state = recv8bit }

unfoldable pub reset : Sht → Sht
unfolding clk0 data_release
reset s = record (clk0 (data_release (record s { bit_cnt = 0 }))) { state = reset_clk1 }

-- `++bit_cnt`
unfoldable pub count_bit : Sht → Sht
count_bit s = record s { bit_cnt = (s.bit_cnt + 1) % 256 }

unfoldable pub send_bit : Sht → Sht
unfolding data_pull data_release goto
send_bit s =
    let put = if bit_and s.byte 0x80 == 0 then data_pull s else data_release s in
    goto send8bit_hi_pulse_clk1 (record put { byte = s.byte * 2 % 256 })

unfoldable pub sent_bit : Sht → Sht
unfolding clk0 count_bit goto
sent_bit s =
    let c = count_bit (clk0 s) in
    goto (if ltb c.bit_cnt 8 then send8bit else send8bit_release_b_ack) c

unfoldable pub read_ack : Bool → Sht → Sht
unfolding clk0 goto
read_ack line s = goto (if line then error else send8bit_wait_meas) (clk0 s)

unfoldable pub recv_bit : Bool → Sht → Sht
unfolding clk0 count_bit goto
recv_bit line s =
    let b = bit_or s.byte (to_nat line * 2 ^ (7 - s.bit_cnt)) in
    let c = count_bit (clk0 (record s { byte = b })) in
    goto (if ltb c.bit_cnt 8 then recv8bit else if s.with_ack then recv8bit_send_ack else finising)
      c

unfoldable pub reset_pulsed : Sht → Sht
unfolding clk0 count_bit goto
reset_pulsed s =
    let c = count_bit (clk0 s) in goto (if ltb c.bit_cnt 12 then reset_clk1 else finising) c

-- The switch of `do_smL1`.
unfoldable pub do_sm_l1_in : State → Bool → Sht → Sht
unfolding clk0 clk1 data_pull data_release goto
do_sm_l1_in idle line s = s
do_sm_l1_in error line s = s
do_sm_l1_in finising line s = goto idle s
do_sm_l1_in init_transfer line s = goto init_transfer_data_pull (clk1 s)
do_sm_l1_in init_transfer_data_pull line s = goto init_transfer_low_pulse_clk0 (data_pull s)
do_sm_l1_in init_transfer_low_pulse_clk0 line s = goto init_transfer_low_pulse_clk1 (clk0 s)
do_sm_l1_in init_transfer_low_pulse_clk1 line s = goto init_transfer_data_release (clk1 s)
do_sm_l1_in init_transfer_data_release line s = goto init_transfer_clk0 (data_release s)
do_sm_l1_in init_transfer_clk0 line s = goto finising (clk0 s)
do_sm_l1_in send8bit line s = send_bit s
do_sm_l1_in send8bit_hi_pulse_clk1 line s = goto send8bit_hi_pulse_clk0 (clk1 s)
do_sm_l1_in send8bit_hi_pulse_clk0 line s = sent_bit s
do_sm_l1_in send8bit_release_b_ack line s = goto send8bit_hi_pluse_ack_clk1 (data_release s)
do_sm_l1_in send8bit_hi_pluse_ack_clk1 line s = goto send8bit_hi_pluse_ack_clk0 (clk1 s)
do_sm_l1_in send8bit_hi_pluse_ack_clk0 line s = read_ack line s
do_sm_l1_in send8bit_wait_meas line s = if line then s else goto finising s
do_sm_l1_in recv8bit line s = goto recv8_hi_pulse_clk1 s
do_sm_l1_in recv8_hi_pulse_clk1 line s = goto recv8_hi_pulse_clk0 (clk1 s)
do_sm_l1_in recv8_hi_pulse_clk0 line s = recv_bit line s
do_sm_l1_in recv8bit_send_ack line s = goto recv8bit_send_ack_clk1 (data_pull s)
do_sm_l1_in recv8bit_send_ack_clk1 line s = goto recv8bit_send_ack_clk0 (clk1 s)
do_sm_l1_in recv8bit_send_ack_clk0 line s = goto recv8bit_send_ack_release (clk0 s)
do_sm_l1_in recv8bit_send_ack_release line s = goto finising (data_release s)
do_sm_l1_in reset_clk1 line s = goto reset_clk0 (clk1 s)
do_sm_l1_in reset_clk0 line s = reset_pulsed s

-- The state that the source's function returns is the one of the result.
unfoldable pub do_sm_l1 : Bool → Sht → Sht
unfolding do_sm_l1_in
do_sm_l1 line s = do_sm_l1_in s.state line s
