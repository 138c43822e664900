-- ===== src/Node/Safety.antt =====
-- The 1-wire master inside the whole firmware, `run` of avr/fw/main.cpp.
use byt.Base.{
  ℕ, ◌/◌, ◌≤◌, ◌<◌, ◌≡◌, ◌≢◌, inl, inr, Bool, true, false, Option, none, some, length, ltb, leb,
  not, ◌&&◌, ◌||◌, ◌+◌, take, get_or, Bool-cases, ◌==◌, bit_and, arith, List, [], ◌∷◌,
}
use byt.Ow.Bus.{Ow, read_bits_failure, write_bits_failure}
use byt.Ow.Invariant.{Inv}
use byt.Ow.Safety.{ow_sm_do-Inv, IsBusy}
use byt.Meas.{OwT, measure_ow_temp_sm, put_bytes}
use byt.Meas.Safety.{measure-Inv}
use byt.Io.Debounce.{DigIn}
use byt.Svc.State.{Fw, with_scd}
use byt.Svc.State.{arg}
use byt.Svc.Dispatch.{
  Env, Command, command, ow_obj, ow_rom, dig_in, dig_out, pwm_channel, can_mob, scd41, sht11,
}
use byt.Svc.Safety.{serve-Inv}
use byt.Node.Loop.{
  Node, Sense, Arrived, measure, humidity, co2, sample_inputs, on_timer, is_svc_rx, receive_pv,
  on_can, send_marked, round, start_sensors, on_interrupt,
}

-- The object and the places of the image that a service message names lie inside the tables.
abbrev pub is_inside : Command → Fw → Bool
is_inside ow_obj s = ltb (arg 1 s) (length s.ow_t_obj) && ltb (arg 3 s + 1) (length s.pv.io_data)
is_inside ow_rom s = ltb (arg 1 s) (length s.ow_temp_sensors)
is_inside dig_in s = ltb (arg 1 s) (length s.dig_in_obj) && ltb (arg 3 s) (length s.pv.io_data)
is_inside dig_out s = ltb (arg 1 s) (length s.dig_out_obj)
is_inside pwm_channel s = ltb (arg 1 s) (length s.pwm_obj)
is_inside can_mob s = ltb (arg 1 s) (length s.mob_end_idx) && leb (arg 2 s) (length s.pv.io_data)
is_inside scd41 s = leb (arg 2 s + 6) (length s.pv.io_data)
is_inside sht11 s = leb (arg 2 s + 4) (length s.pv.io_data)
is_inside _ s = true

abbrev pub all_are {ℓ} : {A : Type ℓ} → (A → Bool) → List A → Bool
all_are test [] = true
all_are test (x ∷ xs) = test x && all_are test xs

-- The objects of the tables lie inside the image, those of the sensors if the node has them.
abbrev pub is_configured : Fw → Bool
is_configured s =
    let size = length s.pv.io_data in
    all_are (λ (o : DigIn). ltb o.iodata_idx size) s.dig_in_obj
    && all_are (λ (o : OwT). ltb (o.iodata_idx + 1) size) s.ow_t_obj
    && all_are (λ (e : ℕ). leb e size) s.mob_end_idx
    && (bit_and s.features 1 == 0 || leb (s.scd.iodata_idx + 6) size)
    && (bit_and s.features 2 == 0 || leb (s.sht_iodata_idx + 4) size)

-- A frame that came, if any, has up to eight bytes, and a service message names nothing outside.
abbrev pub Fits : Option Arrived → Fw → Type 0
Fits none s = Unit {0}
Fits (some a) s =
    let got = record s { msg = put_bytes 0 (take a.dlc a.bytes) s.msg } in
    (a.dlc ≤ 8) × ((not (is_svc_rx a.mob) || is_inside (command (get_or got.msg 0 0)) got) ≡ true)

bus_safe :
    (s : Ow)
    → Inv s
    → IsBusy s
    → (s.bitidx / 8 < length s.ow_data)
      × ((0 < s.tccr0a) × (s.timsk0 ≡ 1))
      × ((s.response_code ≢ read_bits_failure) × (s.response_code ≢ write_bits_failure))
bus_safe s v (inl e) = (
  ground (arith, v.in_transfer (inl e), v.buffer, v.count_fits),
  v.timer_on (ground (arith)),
  v.no_failure,
)
bus_safe s v (inr (inl e)) = (
  ground (arith, v.in_transfer (inr e), v.buffer, v.count_fits),
  v.timer_on (ground (arith)),
  v.no_failure,
)
bus_safe s v (inr (inr e)) =
    (ground (arith, v.in_search e, v.buffer), v.timer_on (ground (arith)), v.no_failure)

-- What happens to the node: a round of the loop, the start of the sensors, and the interrupt, each
-- with any inputs.
pub data Step (n : Node) : Node → Type 0 where
  rounds :
      (env : Env) (arrived : Option Arrived) (busy : ℕ → Bool) (ticked : Bool) (i : Sense)
      → Fits arrived n.fw
      → is_configured n.fw ≡ true
      → Step n (round env arrived busy ticked i n)
  starts : Step n (start_sensors n)
  interrupts : (active : Bool) → Step n (on_interrupt active n)

pub data Reach (n : Node) : Node → Type 0 where
  here : Reach n n
  next : {m k : Node} → Reach n m → Step m k → Reach n k

on_can-Inv :
    (env : Env) (arrived : Option Arrived) (s : Fw)
    → Fits arrived s
    → Inv s.ow
    → Inv (on_can env arrived s).ow
unfolding on_can receive_pv
on_can-Inv env none s h v = v
on_can-Inv env (some a) s h v = elim (Bool-cases (is_svc_rx a.mob)) [
  | inl e ↦ rw e (serve-Inv env a.mob a.dlc a.bytes s (omega (arith, h.0)) v)
  | inr e ↦ rw e (elim (Bool-cases (ltb a.mob s.mob_first_tx)) [ inl f ↦ rw f v | inr f ↦ rw f v ])
]

on_timer-Inv : (i : Sense) (n : Node) → Inv n.fw.ow → Inv (on_timer i n).fw.ow
unfolding on_timer measure humidity co2 sample_inputs with_scd measure_ow_temp_sm
on_timer-Inv i n v = measure-Inv _ i.now i.active _ v

start-Inv : (n : Node) → Inv n.fw.ow → Inv (start_sensors n).fw.ow
unfolding start_sensors with_scd
start-Inv n v = elim (Bool-cases (bit_and n.fw.features 1 == 0)) [ inl e ↦ rw e v | inr e ↦ rw e v ]

round-Inv :
    (env : Env) (arrived : Option Arrived) (busy : ℕ → Bool) (ticked : Bool) (i : Sense) (n : Node)
    → Fits arrived n.fw
    → Inv n.fw.ow
    → Inv (round env arrived busy ticked i n).fw.ow
unfolding round send_marked
round-Inv env arrived busy true i n h v =
    on_timer-Inv i (send_marked busy (record n { fw = on_can env arrived n.fw }))
      (on_can-Inv env arrived n.fw h v)
round-Inv env arrived busy false i n h v = on_can-Inv env arrived n.fw h v

pub Step-Inv : {n m : Node} → Step n m → Inv n.fw.ow → Inv m.fw.ow
unfolding on_interrupt
Step-Inv {n} (rounds env arrived busy ticked i h inside) v =
    round-Inv env arrived busy ticked i n h v
Step-Inv {n} starts v = start-Inv n v
Step-Inv {n} (interrupts active) v = ow_sm_do-Inv active n.fw.ow v

pub Reach-Inv : {n m : Node} → Inv n.fw.ow → Reach n m → Inv m.fw.ow
Reach-Inv v here = v
Reach-Inv v (next r st) = Step-Inv st (Reach-Inv v r)

-- In the whole firmware, from reset on, with the objects of the tables inside the image in every round,
-- with frames of up to eight bytes, with service messages of any content that name objects of the tables
-- and places of the image, and with any clocks, levels of the bus and interrupts: while bits are on the wire their index stands inside the buffer of 12 bytes, the
-- timer runs with its interrupt enabled, and no failure of the bit machine has been reported.
pub Reach-bus_safe :
    {n m : Node}
    → Inv n.fw.ow
    → Reach n m
    → IsBusy m.fw.ow
    → (m.fw.ow.bitidx / 8 < length m.fw.ow.ow_data)
      × ((0 < m.fw.ow.tccr0a) × (m.fw.ow.timsk0 ≡ 1))
      × ((m.fw.ow.response_code ≢ read_bits_failure) × (m.fw.ow.response_code ≢ write_bits_failure))
Reach-bus_safe {n} {m} v r busy = bus_safe m.fw.ow (Reach-Inv v r) busy
