-- ===== src/Pru/Safety.antt =====
-- The memory of the real-time unit under the messages of the daemon, pru/main.c.
use byt.Base.{
  ℕ, ◌+◌, ◌-◌, ◌/◌, ◌^◌, ◌≤◌, ◌<◌, ◌≡◌, refl, Bool, true, false, List, [], ◌∷◌, ◌++◌, leb, to_nat,
  length, length-set, length-append, length-take, length-drop, take, drop, replicate, arith,
}
use byt.Pru.{status, rsp_error}
use byt.Pru.Wire.{OwState, idle, finished_ok, strong0, released, Wire}
use byt.Pru.Master.{ow_search, ow_init}
use byt.Pru.Opentherm
use byt.Pru.Opentherm.{Ot, ot_transmit, ot_sm_do}
use byt.Pru.Message.{
  Command, cmd_halt, cmd_ow_init, cmd_ow_search_dir0, cmd_ow_search_dir1, cmd_ow_write, cmd_ow_read,
  cmd_ow_write_power, cmd_ot_transmit, other, Request, Pru, refuse, on_read, on_write,
  process_message, process_all, round,
}
use byt.Pru.Bounds.{Inv, ow_sm_do-Inv}

refuse-Inv : (s : Pru) → Inv s.ow → Inv (refuse s).ow
unfolding refuse
refuse-Inv s h = ground (arith)

-- A count of an idle master is not looked at.
recounted : (n : ℕ) (s : Wire) → s.state ≡ idle → Inv s → Inv (record s { bits_count = n })
recounted n s e h = ground (arith)

on_read-Inv : (r : Request) (s : Pru) → s.ow.state ≡ idle → Inv s.ow → Inv (on_read r s).ow
unfolding on_read
on_read-Inv r s e h =
    let t = record s { ow = record s.ow { bits_count = r.word } } in
    ground (arith, refuse-Inv s, refuse-Inv t, recounted r.word s.ow)

filled :
    (n : ℕ) (bs d : List ℕ)
    → n ≤ 12
    → n ≤ length bs
    → length d ≡ 12
    → length (take n bs ++ drop n d) ≡ 12
filled n bs d h k e =
    omega (arith, length-append (take n bs) (drop n d), length-take n bs, length-drop n d)

-- The length that a message states is the length that it has.
abbrev pub IsWhole : Request → Type 0
IsWhole r = r.len ≤ 8 + length r.bytes

on_write-Inv :
    (power : Bool) (r : Request) (s : Pru)
    → IsWhole r
    → s.ow.state ≡ idle
    → Inv s.ow
    → Inv (on_write power r s).ow
unfolding on_write
on_write-Inv power r s w e h =
    let t = record s { ow = record s.ow { bits_count = r.word } } in
    let n = (r.word - 1) / 8 + 1 in
    ground (arith, refuse-Inv s, refuse-Inv t, recounted r.word s.ow, filled n r.bytes s.ow.ow_data)

ow_init-Inv : (now : ℕ) (active : Bool) (s : Wire) → Inv s → Inv (ow_init now active s)
unfolding ow_init
ow_init-Inv now active s h = ground (arith, length-drop 4 s.ow_data)

ow_search-Inv : (d : Bool) (s : Wire) → Inv s → Inv (ow_search d s)
unfolding ow_search
ow_search-Inv d s h = ground (arith, length-set s.ow_data 1 (to_nat d))

command-Inv :
    (now : ℕ) (active : Bool) (r : Request) (s : Pru) (c : Command)
    → r.cmd ≡ c
    → IsWhole r
    → s.ow.state ≡ idle
    → Inv s.ow
    → Inv (process_message now active r s).ow
unfolding process_message
command-Inv now active r s cmd_ow_init e w i h =
    rw (e, process_message) (ground (arith, ow_init-Inv now active s.ow h, refuse-Inv s h))
command-Inv now active r s cmd_ow_search_dir0 e w i h =
    rw (e, process_message) (ground (arith, ow_search-Inv false s.ow h, refuse-Inv s h))
command-Inv now active r s cmd_ow_search_dir1 e w i h =
    rw (e, process_message) (ground (arith, ow_search-Inv true s.ow h, refuse-Inv s h))
command-Inv now active r s cmd_ow_read e w i h = rw (e, process_message) (on_read-Inv r s i h)
command-Inv now active r s cmd_ow_write e w i h =
    rw (e, process_message) (on_write-Inv false r s w i h)
command-Inv now active r s cmd_ow_write_power e w i h =
    rw (e, process_message) (on_write-Inv true r s w i h)
command-Inv now active r s cmd_ot_transmit e w i h =
    rw (e, process_message) (ground (arith, refuse-Inv s h))
command-Inv now active r s cmd_halt e w i h = rw (e, process_message) (refuse-Inv s h)
command-Inv now active r s other e w i h = rw (e, process_message) (refuse-Inv s h)

-- The static variables at the start.
abbrev pub power_up : Pru
power_up = record {
  ow = record {
    state = idle;
    bit_io = finished_ok;
    strong = strong0;
    t0 = 0;
    bitidx = 0;
    bits_count = 0;
    ow_data = replicate 12 0;
    line = released;
    replies = [];
  };
  ot = record {
    state = Opentherm.idle;
    prev_v = false;
    t0 = 0;
    t0_frame = 0;
    left = 0;
    value = 0;
    bus = false;
    replies = [];
  };
}

-- Rounds of the main loop: without a message, or with one of any content for a 1-wire master that is
-- idle.
pub data Reach : Pru → Type 0 where
  start : Reach power_up
  quiet : {s : Pru} (now : ℕ) (active line : Bool) → Reach s → Reach (round now active line [] s)
  asked :
      {s : Pru} (now : ℕ) (active line : Bool) (r : Request)
      → s.ow.state ≡ idle
      → IsWhole r
      → Reach s
      → Reach (round now active line (r ∷ []) s)

pub Reach-Inv : {s : Pru} → Reach s → Inv s.ow
unfolding round process_all
Reach-Inv start = record {
  room = refl;
  reading = λ e. absurd (ground (arith, e));
  writing = λ e. absurd (ground (arith, e));
  searching = λ e. omega arith;
}
Reach-Inv (quiet {s = s} now active line h) = ow_sm_do-Inv now active s.ow (Reach-Inv h)
Reach-Inv (asked {s = s} now active line r i w h) =
    ow_sm_do-Inv now active (process_message now active r s).ow
      (command-Inv now active r s r.cmd refl w i (Reach-Inv h))

-- The states in which `gOwData` is read or written at the index of a bit.
abbrev pub uses_bits : OwState → Bool
uses_bits OwState.read_bits = true
uses_bits OwState.write_bits = true
uses_bits OwState.search = true
uses_bits _ = false

-- With a daemon that sends its messages, of any content, when no 1-wire operation is running: from the
-- start on, whatever the timer and the lines show, `gOwData` has its twelve bytes, and while bits are
-- read, written or searched, the byte of the current bit is one of them.
pub Reach-in_buffer :
    {s : Pru}
    → Reach s
    → uses_bits s.ow.state ≡ true
    → (length s.ow.ow_data ≡ 12) × (s.ow.bitidx / 8 < length s.ow.ow_data)
Reach-in_buffer {s} r e = let h = Reach-Inv r in (h.room, inside s.ow h s.ow.state refl e)
  where
    inside :
        (s : Wire)
        → Inv s
        → (x : OwState) → s.state ≡ x
        → uses_bits x ≡ true
        → s.bitidx / 8 < length s.ow_data
    inside s h OwState.read_bits e u = omega (arith, h.reading e, h.room)
    inside s h OwState.write_bits e u = omega (arith, h.writing e, h.room)
    inside s h OwState.search e u = omega (arith, h.searching e, h.room)
    inside s h idle e u = absurd (ground (arith, u))
    inside s h OwState.init_wait_reset_pulse_falling_edge e u = absurd (ground (arith, u))
    inside s h OwState.init_wait_reset_pulse_finished e u = absurd (ground (arith, u))
    inside s h OwState.init_wait_presence e u = absurd (ground (arith, u))
    inside s h OwState.init_wait_presence_cleared e u = absurd (ground (arith, u))
    inside s h OwState.init_wait_recovery e u = absurd (ground (arith, u))

-- A request to read more bits than the buffer has, which comes while bits are being read, is refused,
-- but the reading goes on with the refused count, up to 2^31 - 1.
pub refused_read_lem :
    (now : ℕ) (active : Bool) (r : Request) (s : Pru)
    → r.cmd ≡ cmd_ow_read
    → r.len ≡ 8
    → 96 < r.word
    → r.word < 2 ^ 31
    → s.ow.state ≡ OwState.read_bits
    → let t = process_message now active r s in
      (t.ow.replies ≡ status rsp_error ∷ s.ow.replies)
      × (t.ow.state ≡ OwState.read_bits)
      × (t.ow.bitidx ≡ s.ow.bitidx)
      × (t.ow.bits_count ≡ r.word)
unfolding process_message on_read refuse
refused_read_lem now active r s c l n m e =
    let long : leb ((r.word - 1) / 8 + 1) 12 ≡ false = ground (arith) in
    rw (c, process_message) (ground (arith))
