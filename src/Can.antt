-- ===== src/Can.antt =====
-- The CAN data of the daemon: bytd/src/candata.h and candata.cpp, and the queue of one frame of
-- bytd/src/canbus.cpp. The socket and the kernel are outside: what is written to the socket is listed,
-- and each frame that it gives back is an input.
mod Tests
pub mod Drain
pub mod Synced
pub mod Contract
pub mod Items
use byt.Base.{
  ℕ, zero, suc, ◌+◌, ◌-◌, ◌*◌, ◌/◌, ◌%◌, ◌^◌, Bool, true, false, not, ◌&&◌, ◌||◌, Option, none,
  some, List, [], ◌∷◌, take, replicate, ◌==◌, ltb, leb, if◌then◌else◌, get_or, length, set,
  set_bits, clear_bits, has_bits,
}
use byt.Pv.{read_u16, write_u16}

-- `can_frame`, its data in 8 bytes.
pub record CanFrame : Type 0 where
  pub can_id : ℕ
  pub can_dlc : ℕ
  pub bytes : List ℕ

-- `can::Frame(id, len)`: `setSize` throws above 8 bytes.
unfoldable pub make_frame : ℕ → ℕ → Option CanFrame
make_frame id len =
    if ltb 8 len then none else some (record { can_id = id; can_dlc = len; bytes = replicate 8 0 })

-- `mkMsgSetAllStageOperating`: `CmdSetStage` is 3 and `stage3run` 192.
unfoldable pub mk_msg_set_all_stage_operating : Option CanFrame
unfolding make_frame
mk_msg_set_all_stage_operating = elim (make_frame (0x1D867E00 + 2 ^ 31) 2) [
  | none ↦ none
  | some f ↦ some (record f { bytes = set (set f.bytes 0 3) 1 192 })
]

pub record OutputMsg : Type 0 where
  pub need_update : Bool
  pub msg : CanFrame

-- `IOutputItem`: the bit of a `DigOutItem`, and the value of a `Pwm16Item`.
pub data OutputItem : Type 0 where
  dig_out : (mask offset : ℕ) (value : Bool) → OutputItem
  pwm16 : (offset value : ℕ) → OutputItem

-- `update(Data&)` of both.
unfoldable pub update_data : OutputItem → List ℕ → List ℕ
update_data (dig_out mask offset value) d =
    set d offset
      (if value then set_bits (get_or d offset 0) mask else clear_bits (get_or d offset 0) mask)
update_data (pwm16 offset value) d = write_u16 d offset value

-- `CanBus`: a frame is pending until the socket gives it back. `wire` is what was written, newest
-- first.
pub record CanBus : Type 0 where
  pub pending : Bool
  pub frame_wr : CanFrame
  pub wire : List CanFrame

unfoldable pub send : CanFrame → CanBus → Bool × CanBus
send f b =
    if b.pending
    then (false, b)
    else (true, record { pending = true; frame_wr = f; wire = f ∷ b.wire })

unfoldable pub same_bytes : List ℕ → List ℕ → Bool
same_bytes [] [] = true
same_bytes [] (b ∷ bs) = false
same_bytes (a ∷ xs) [] = false
same_bytes (a ∷ xs) (b ∷ bs) = (a == b) && same_bytes xs bs

-- `operator==` of two frames.
unfoldable pub same_frame : CanFrame → CanFrame → Bool
unfolding same_bytes
same_frame a b =
    ((a.can_id == b.can_id) && (a.can_dlc == b.can_dlc))
    && same_bytes (take a.can_dlc a.bytes) (take a.can_dlc b.bytes)

-- `OutputControl` and its bus.
pub record Control : Type 0 where
  pub outputs : List OutputMsg
  pub bus : CanBus

abbrev pub no_output : OutputMsg
no_output = record { need_update = false; msg = record { can_id = 0; can_dlc = 0; bytes = [] } }

-- The frame of the output `idx` with the item's value in it.
unfoldable pub item_frame : ℕ → OutputItem → Control → CanFrame
unfolding update_data
item_frame idx item s =
    let f = (get_or s.outputs idx no_output).msg in record f { bytes = update_data item f.bytes }

unfoldable pub updated : ℕ → OutputItem → Control → Control
unfolding item_frame send
updated idx item s =
    let f = item_frame idx item s in
    let (sent, b) = send f s.bus in
    record { outputs = set s.outputs idx (record { need_update = not sent; msg = f }); bus = b }

-- `OutputControl::update`: `at` throws for an index past the end.
unfoldable pub update : ℕ → OutputItem → Control → Option Control
unfolding updated
update idx item s = if ltb idx (length s.outputs) then some (updated idx item s) else none

-- `OutputControl::writeReady`: a `send` that fails ends the loop.
unfoldable pub write_ready : List OutputMsg → CanBus → List OutputMsg × CanBus
unfolding send
write_ready [] b = ([], b)
write_ready (o ∷ os) b =
    let (sent, c) = send o.msg b in
    let (after, d) = write_ready os c in
    let (rest, e) = write_ready os b in
    if o.need_update
    then (if sent then (record o { need_update = false } ∷ after, d) else (o ∷ os, b))
    else (o ∷ rest, e)

-- `CanBus::read` for a frame that came: the pending one, given back, or one for `onRecv`.
unfoldable pub on_read : CanFrame → Control → Option CanFrame × Control
unfolding same_frame write_ready
on_read f s =
    let (os, b) = write_ready s.outputs (record s.bus { pending = false }) in
    if s.bus.pending && same_frame f s.bus.frame_wr
    then (none, record { outputs = os; bus = b })
    else (some f, s)

-- `DigOutItem::set` and `Pwm16Item::set`: the new item, and whether it is sent.
unfoldable pub set_dig : Bool → OutputItem → OutputItem × Bool
set_dig v (dig_out mask offset value) =
    let same = if v then value else not value in
    if same then (dig_out mask offset value, false) else (dig_out mask offset v, true)
set_dig v (pwm16 offset value) = (pwm16 offset value, false)

unfoldable pub set_pwm16 : ℕ → OutputItem → OutputItem × Bool
set_pwm16 v (dig_out mask offset value) = (dig_out mask offset value, false)
set_pwm16 v (pwm16 offset value) =
    if v == value then (pwm16 offset value, false) else (pwm16 offset v, true)

-- `DigiInItem`, with the values given to `Changed`, newest first; and an item with a 16-bit value
-- (`OwTempItem`, `SensorionItem`), with those given to the sensor.
pub data InputItem : Type 0 where
  digi_in : (mask offset : ℕ) (value : Bool) (changed : List Bool) → InputItem
  word_in : (offset : ℕ) (values : List ℕ) → InputItem

-- `update(data, len)` of these.
unfoldable pub on_data : List ℕ → ℕ → InputItem → InputItem
on_data d len (digi_in mask offset value changed) =
    let v = has_bits (get_or d offset 0) mask in
    let same = if v then value else not value in
    if ltb offset len && not same
    then digi_in mask offset v (v ∷ changed)
    else digi_in mask offset value changed
on_data d len (word_in offset values) =
    if leb (offset + 2) len
    then word_in offset (read_u16 d offset ∷ values)
    else word_in offset values

unfoldable pub on_data_all : List ℕ → ℕ → List InputItem → List InputItem
unfolding on_data
on_data_all d len [] = []
on_data_all d len (x ∷ xs) = on_data d len x ∷ on_data_all d len xs

-- `InputControl::onRecvMsg`, the map being a list of identifiers and items.
unfoldable pub on_recv_msg : CanFrame → List (ℕ × List InputItem) → List (ℕ × List InputItem)
unfolding on_data_all
on_recv_msg f [] = []
on_recv_msg f ((id, items) ∷ rest) =
    let others = on_recv_msg f rest in
    if id == f.can_id
    then (id, on_data_all f.bytes f.can_dlc items) ∷ rest
    else (id, items) ∷ others
