-- ===== src/Svc/Bus.antt =====
-- The commands of `svc` (avr/fw/main.cpp) for the 1-wire bus. `active` is what the bus shows when a
-- reset begins.
use byt.Base.{
  ℕ, zero, suc, ◌+◌, ◌-◌, ◌*◌, ◌/◌, ◌%◌, Bool, not, ◌||◌, take, drop, ltb, ◌==◌, if◌then◌else◌,
  get_or,
}
use byt.Ow.Bus.{
  Response, busy, rsp_error, presence_ok, bus_failure0, bus_failure1, no_presence, bus_failure3,
  read_bits_ok, read_bits_failure, write_bits_ok, write_bits_failure, search_result0,
  search_result1, search_result11, search_result00,
}
use byt.Ow.Ops.{init, read_bits, write_bits, search}
use byt.Meas.{put_bytes}
use byt.Svc.State.{Fw, arg, reply_len, push, refuse}

-- The codes of the enumeration, counted from 1.
abbrev pub response_number : Response → ℕ
response_number busy = 1
response_number rsp_error = 2
response_number presence_ok = 3
response_number bus_failure0 = 4
response_number bus_failure1 = 5
response_number no_presence = 6
response_number bus_failure3 = 7
response_number read_bits_ok = 8
response_number read_bits_failure = 9
response_number write_bits_ok = 10
response_number write_bits_failure = 11
response_number search_result0 = 12
response_number search_result1 = 13
response_number search_result11 = 14
response_number search_result00 = 15

unfoldable pub ow_init : Bool → Fw → Fw
ow_init active s = record s { ow = init active s.ow }

unfoldable pub ow_get_reply_code : Fw → Fw
unfolding reply_len push
ow_get_reply_code s =
    push (s.ow.bits_count % 256) (push (response_number s.ow.response_code) (reply_len 1 s))

-- `n` rounds of the loop that answers with the bytes of the buffer from `index` to `size`.
unfoldable pub push_data : ℕ → ℕ → ℕ → Fw → Fw
unfolding push
push_data zero index size s = s
push_data (suc n) index size s =
    let rest = push_data n (index + 1) size (push (get_or s.ow.ow_data index 0) s) in
    if ltb index size then rest else s

-- The message has room for seven bytes.
unfoldable pub ow_get_data : Fw → Fw
unfolding arg reply_len refuse push_data
ow_get_data s =
    let index = if ltb 1 s.msglen then arg 1 s else 0 in
    let size = (s.ow.bits_count + 7) / 8 in
    let r = reply_len 1 s in if ltb size index then refuse r else push_data 7 index size r

unfoldable pub ow_read_bits : Fw → Fw
unfolding arg reply_len refuse
ow_read_bits s =
    let bitcount = arg 1 s in
    let r =
      if ltb s.msglen 2 || ltb 96 bitcount
      then refuse s
      else record s { ow = read_bits bitcount s.ow } in
    reply_len 1 r

-- `bytecount` is the length of the message less 2, above 0 or not.
unfoldable pub ow_write_bits : Fw → Fw
unfolding arg reply_len refuse
ow_write_bits s =
    let bytecount = s.msglen - 2 in
    let pwr_strong = not (arg 1 s == 0) in
    let loaded = record s.ow {
      ow_data = put_bytes 0 (take bytecount (drop 2 s.msg)) s.ow.ow_data;
    } in
    if ltb 0 bytecount
    then reply_len 1 (record s { ow = write_bits (8 * bytecount) pwr_strong loaded })
    else refuse (reply_len 1 s)

unfoldable pub ow_search : Fw → Fw
unfolding arg reply_len refuse
ow_search s =
    let r =
      if s.msglen == 2 then record s { ow = search (not (arg 1 s == 0)) s.ow } else refuse s in
    reply_len 1 r
