-- ===== src/Pru/Message.antt =====
-- The messages from the daemon and the main loop, pru/main.c.
use byt.Base.{
  ℕ, ◌+◌, ◌-◌, ◌/◌, ◌^◌, Bool, true, false, ◌&&◌, List, [], ◌∷◌, ◌++◌, ltb, leb, ◌==◌,
  if◌then◌else◌, take, drop,
}
use byt.Pru.{rsp_error}
use byt.Pru.Wire.{Wire, send_status}
use byt.Pru.Master.{ow_init, ow_read_bits, ow_write_bits, ow_search, ow_sm_do}
use byt.Pru.Opentherm.{Ot, ot_transmit, ot_sm_do}

-- `Commands` of pru/rpm_iface.h; `other` is every other number.
pub data Command : Type 0 where
  cmd_halt cmd_ow_init cmd_ow_search_dir0 cmd_ow_search_dir1 : Command
  cmd_ow_write cmd_ow_read cmd_ow_write_power cmd_ot_transmit other : Command

-- A message: its command, its length, its first word, and the bytes after this word.
pub record Request : Type 0 where
  pub cmd : Command
  pub len : ℕ
  pub word : ℕ
  pub bytes : List ℕ

-- Both machines. The messages sent are those of the 1-wire master and those of the OpenTherm line, each
-- newest first.
pub record Pru : Type 0 where
  pub ow : Wire
  pub ot : Ot

-- `gOwBitsCount > 0`.
unfoldable pub is_positive : ℕ → Bool
is_positive w = ltb 0 w && ltb w (2 ^ 31)

-- `bytelen`.
unfoldable pub byte_len : ℕ → ℕ
byte_len count = (count - 1) / 8 + 1

unfoldable pub refuse : Pru → Pru
unfolding send_status
refuse s = record s { ow = send_status rsp_error s.ow }

unfoldable pub on_read : Request → Pru → Pru
unfolding is_positive byte_len refuse ow_read_bits
on_read r s =
    let t = record s { ow = record s.ow { bits_count = r.word } } in
    if r.len == 8
    then (if is_positive r.word && leb (byte_len r.word) 12
        then record t { ow = ow_read_bits t.ow }
        else refuse t)
    else refuse s

unfoldable pub on_write : Bool → Request → Pru → Pru
unfolding is_positive byte_len refuse ow_write_bits
on_write power r s =
    let t = record s { ow = record s.ow { bits_count = r.word } } in
    let n = byte_len r.word in
    if ltb 8 r.len
    then (if is_positive r.word && (leb n 12 && leb (8 + n) r.len)
        then record t {
          ow =
              ow_write_bits power (record t.ow { ow_data = take n r.bytes ++ drop n t.ow.ow_data });
        }
        else refuse t)
    else refuse s

-- `process_message`, with the timer and whether the 1-wire line is low.
unfoldable pub process_message : ℕ → Bool → Request → Pru → Pru
unfolding on_read on_write refuse ow_init ow_search ot_transmit
process_message now active r s = elim r.cmd [
  | cmd_ow_init ↦ if r.len == 4 then record s { ow = ow_init now active s.ow } else refuse s
  | cmd_ow_search_dir0 ↦ if r.len == 4 then record s { ow = ow_search false s.ow } else refuse s
  | cmd_ow_search_dir1 ↦ if r.len == 4 then record s { ow = ow_search true s.ow } else refuse s
  | cmd_ow_read ↦ on_read r s
  | cmd_ow_write ↦ on_write false r s
  | cmd_ow_write_power ↦ on_write true r s
  | cmd_ot_transmit ↦ if r.len == 8 then record s { ot = ot_transmit now r.word s.ot } else refuse s
  | _ ↦ refuse s
]

-- The messages of one round.
unfoldable pub process_all : ℕ → Bool → List Request → Pru → Pru
process_all now active [] s = s
process_all now active (r ∷ rs) s = process_all now active rs (process_message now active r s)

-- A round of the loop of `main`: the messages, and a call of each machine, with the two lines.
unfoldable pub round : ℕ → Bool → Bool → List Request → Pru → Pru
unfolding process_all ow_sm_do ot_sm_do
round now ow_active ot_line rs s =
    let t = process_all now ow_active rs s in
    record { ow = ow_sm_do now ow_active t.ow; ot = ot_sm_do now ot_line t.ot }
