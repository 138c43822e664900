-- ===== src/Reku.antt =====
-- The firmware of the heat recovery unit, rekuperacia_fw/main.c, and the daemon at the other end of its
-- serial line, bytd/src/Reku.cpp. Here: the frames, the outputs and the two directions of the line.
-- The registers that a call reads (timers, flags and data of the USART) are inputs of the call.
mod Tests
pub mod Receive
pub mod Polls
pub mod Reports
pub mod Loop
pub mod Safety
pub mod Measure
pub mod Median
pub mod Daemon
pub mod Exchange
pub mod Transmit
use byt.Base.{
  ℕ, ◌+◌, ◌-◌, ◌*◌, ◌/◌, ◌%◌, ◌^◌, Bool, true, false, not, ◌||◌, List, [], ◌∷◌, ◌++◌, ltb, ◌==◌,
  if◌then◌else◌, get_or, set, set_bits, clear_bits, bit_and, bit_or, take,
}
use byt.Crc.{crc_from}

-- `VentCh`.
pub record VentCh : Type 0 where
  pub period : ℕ
  pub temp : ℕ

-- `CommState`.
pub data CommState : Type 0 where
  no_comm communicating comm_lost : CommState

abbrev pub comm_bits : CommState → ℕ
comm_bits no_comm = 0
comm_bits communicating = 1
comm_bits comm_lost = 2

pub data TxState : Type 0 where
  tx_idle tx_pending : TxState

pub data RxState : Type 0 where
  rx_reading rx_err : RxState

-- The outputs: the bypass at RC0 and the registers of the two PWM channels.
pub record Outputs : Type 0 where
  pub bypass : Bool
  pub ccp1con : ℕ
  pub ccp2con : ℕ
  pub ccpr1l : ℕ
  pub ccpr2l : ℕ

pub record Reku : Type 0 where
  pub outputs : Outputs
  pub intk : VentCh
  pub exht : VentCh
  pub comm_state : CommState
  pub tx_state : TxState
  pub tx_idx : ℕ
  pub reku_tx : List ℕ
  pub rx_state : RxState
  pub rx_idx : ℕ
  pub t0_err : ℕ
  pub t0_comm : ℕ
  pub reku_rx : List ℕ
  pub reset_condition_flags : ℕ
  pub cren : Bool
  pub led : ℕ
  pub sent : List ℕ  -- what was written to TXREG1

abbrev pub mark_mask : ℕ
mark_mask = 0xFC

abbrev pub ctrl_bypass : ℕ
ctrl_bypass = 1

abbrev pub ctrl_off : ℕ
ctrl_off = 2

abbrev pub mark_cmd : ℕ
mark_cmd = 0x54

abbrev pub mark_cnf : ℕ
mark_cnf = 0x8C

abbrev pub mark_ind : ℕ
mark_ind = 0x4C

-- `MS2TICK`.
abbrev pub ms_ticks : ℕ → ℕ
ms_ticks ms = ms * 5

-- `timeout16`, with what TMR0 reads.
unfoldable pub timeout16 : ℕ → ℕ → ℕ → Bool
timeout16 tmr0 t0 delay =
    let t2 = if ltb tmr0 t0 then tmr0 + 0x10000 else tmr0 in ltb delay (t2 - t0)

-- The bits of `CCP1CON` and `CCP2CON` with the low part of the duty cycle.
abbrev pub duty_low : ℕ
duty_low = 0x30

-- `updateControlPVs`.
unfoldable pub update_control_pvs : List ℕ → Outputs → Outputs
unfolding set_bits clear_bits
update_control_pvs rx o =
    let ctrl = get_or rx 0 0 in
    if not (bit_and ctrl ctrl_off == 0)
    then record {
      bypass = false;
      ccp1con = clear_bits o.ccp1con duty_low;
      ccp2con = clear_bits o.ccp2con duty_low;
      ccpr1l = 0;
      ccpr2l = 0;
    }
    else record {
      bypass = not (bit_and ctrl ctrl_bypass == 0);
      ccp1con = set_bits o.ccp1con duty_low;
      ccp2con = set_bits o.ccp2con duty_low;
      ccpr1l = get_or rx 1 0;
      ccpr2l = get_or rx 2 0;
    }

-- `updateControlPVsFailsafe`.
unfoldable pub failsafe : Outputs → Outputs
failsafe o = record o { ccpr1l = 64; ccpr2l = 64; bypass = false }

-- A 16-bit value as it lies in memory.
abbrev pub bytes16 : ℕ → List ℕ
bytes16 v = v % 256 ∷ v / 256 % 256 ∷ []

abbrev pub channel_bytes : VentCh → List ℕ
channel_bytes c = bytes16 c.period ++ bytes16 c.temp

-- `RekuTx` without its checksum.
unfoldable pub report : ℕ → Reku → List ℕ
report mark s =
    let flags = s.reset_condition_flags in
    bit_or mark (comm_bits s.comm_state)
      ∷ channel_bytes (record s.intk { temp = bit_or s.intk.temp (bit_and flags 0x1F * 2 ^ 10) })
    ++ channel_bytes (record s.exht { temp = bit_or s.exht.temp (flags / 2 ^ 6 * 2 ^ 10) })

-- `start_tx`.
unfoldable pub start_tx : ℕ → Reku → Reku
unfolding report crc_from
start_tx mark s = elim s.tx_state [
  | tx_pending ↦ s
  | tx_idle ↦
      let d = report mark s in
      record s { reku_tx = d ++ crc_from 0 d ∷ []; tx_idx = 0; tx_state = tx_pending }
]

-- `do_tx`, with TX1IF and TRMT.
unfoldable pub do_tx : Bool → Bool → Reku → Reku
do_tx tx1if trmt s = elim s.tx_state [
  | tx_idle ↦ s
  | tx_pending ↦
      if ltb s.tx_idx 10
      then (if tx1if
          then record s { tx_idx = s.tx_idx + 1; sent = s.sent ++ get_or s.reku_tx s.tx_idx 0 ∷ [] }
          else s)
      else if trmt
      then record s { tx_state = tx_idle; led = 1 - s.led }
      else s
]

-- What the USART has: nothing, or a byte and whether the error bits are set.
pub data Incoming : Type 0 where
  quiet : Incoming
  byte : ℕ → Bool → Incoming

-- A frame with the right checksum.
unfoldable pub on_good_frame : ℕ → Reku → Reku
unfolding update_control_pvs start_tx
on_good_frame tmr0 s = start_tx mark_cnf (record s {
  t0_comm = tmr0;
  comm_state = communicating;
  outputs = update_control_pvs s.reku_rx s.outputs;
})

-- The branch for a complete frame.
unfoldable pub on_frame : ℕ → Reku → Reku
unfolding on_good_frame crc_from
on_frame tmr0 s =
    let t =
      if crc_from 0 (take 3 s.reku_rx) == get_or s.reku_rx 3 0
      then on_good_frame tmr0 s
      else record s { rx_state = rx_err } in
    record t { rx_idx = 0 }

-- What `do_rx` makes of a byte that it has stored.
unfoldable pub on_stored : ℕ → Reku → Reku
unfolding on_frame
on_stored tmr0 s = elim s.rx_state [
  | rx_err ↦ record s { rx_idx = 0 }
  | rx_reading ↦
      if s.rx_idx == 1
      then (if bit_and (get_or s.reku_rx 0 0) mark_mask == mark_cmd
          then record s { led = 0 }
          else record s { rx_state = rx_err; rx_idx = 0 })
      else if s.rx_idx == 4
      then on_frame tmr0 s
      else s
]

abbrev pub is_err : RxState → Bool
is_err rx_err = true
is_err rx_reading = false

-- The branch of `do_rx` for a byte; `checkRxErr` clears CREN on an error.
unfoldable pub on_byte : ℕ → ℕ → Bool → Reku → Reku
unfolding on_stored
on_byte tmr0 v error s =
    let stored = record s { reku_rx = set s.reku_rx s.rx_idx v; rx_idx = s.rx_idx + 1 } in
    let checked =
      if error then record stored { cren = false; rx_state = rx_err; rx_idx = 0 } else stored in
    let t = on_stored tmr0 checked in
    if is_err t.rx_state || t.rx_idx == 1 then record t { t0_err = tmr0 } else t

-- `commState != NO_COMM`.
abbrev pub has_comm : CommState → Bool
has_comm no_comm = false
has_comm _ = true

-- What `do_rx` does when no command has come for 1500 ms.
unfoldable pub on_silence : ℕ → Reku → Reku
unfolding failsafe start_tx
on_silence tmr0 s =
    let lost =
      if has_comm s.comm_state
      then record s { comm_state = comm_lost; outputs = failsafe s.outputs }
      else s in
    start_tx mark_ind (record lost { t0_comm = tmr0 })

-- The branch of `do_rx` for no byte.
unfoldable pub on_quiet : ℕ → Reku → Reku
unfolding timeout16 on_silence
on_quiet tmr0 s = elim s.rx_state [
  | rx_err ↦
      if timeout16 tmr0 s.t0_err (ms_ticks 50)
      then record s { rx_state = rx_reading; cren = true }
      else s
  | rx_reading ↦
      if ltb 0 s.rx_idx
      then (if timeout16 tmr0 s.t0_err (ms_ticks 50)
          then record s { rx_state = rx_err; rx_idx = 0; t0_err = tmr0 }
          else s)
      else if timeout16 tmr0 s.t0_comm (ms_ticks 1500)
      then on_silence tmr0 s
      else s
]

-- `do_rx`.
unfoldable pub do_rx : ℕ → Incoming → Reku → Reku
unfolding on_byte on_quiet
do_rx tmr0 quiet s = on_quiet tmr0 s
do_rx tmr0 (byte v error) s = on_byte tmr0 v error s
