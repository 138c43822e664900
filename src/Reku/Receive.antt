-- ===== src/Reku/Receive.antt =====
-- The receiver of rekuperacia_fw/main.c: when it is ready for a frame, and what it makes of one.
use byt.Base.{
  ℕ, ◌+◌, ◌≤◌, ◌<◌, ◌≡◌, ◌⊎◌, inl, inr, refl, true, false, List, [], ◌∷◌, ◌==◌, if◌then◌else◌, set,
  length, length-set, Bool-cases, bit_and, arith,
}
use native.Mathlib.Decide.{dec_lt}
use byt.Crc.{crc_from}
use byt.Reku.{
  Reku, communicating, tx_idle, tx_pending, TxState, RxState, rx_reading, rx_err, mark_mask,
  mark_cmd, mark_cnf, mark_ind, ms_ticks, timeout16, update_control_pvs, failsafe, start_tx,
  Incoming, quiet, byte, on_good_frame, on_frame, on_stored, on_byte, has_comm, on_silence,
  comm_lost, on_quiet, do_rx,
}

-- What always holds of the receiver.
pub record Inv (s : Reku) : Type 0 where
  pub inside : s.rx_idx < 4
  pub room : length s.reku_rx ≡ 4
  pub dropped : s.rx_state ≡ rx_err → s.rx_idx ≡ 0

pub record IsReady (s : Reku) : Type 0 where
  pub reading : s.rx_state ≡ rx_reading
  pub at_start : s.rx_idx ≡ 0
  pub room : length s.reku_rx ≡ 4

pub TxState-cases : (x : TxState) → (x ≡ tx_idle) ⊎ (x ≡ tx_pending)
TxState-cases tx_idle = inl refl
TxState-cases tx_pending = inr refl

RxState-cases : (x : RxState) → (x ≡ rx_reading) ⊎ (x ≡ rx_err)
RxState-cases rx_reading = inl refl
RxState-cases rx_err = inr refl

-- Starting a transmission leaves the receiver and the outputs alone.
pub start_tx_keeps :
    (mark : ℕ) (s : Reku)
    → let t = start_tx mark s in
      (t.rx_state ≡ s.rx_state)
      × (t.rx_idx ≡ s.rx_idx)
      × (t.reku_rx ≡ s.reku_rx)
      × (t.outputs ≡ s.outputs)
      × (t.comm_state ≡ s.comm_state)
      × (t.tx_state ≡ tx_pending)
unfolding start_tx
start_tx_keeps mark s = elim (TxState-cases s.tx_state) [
  | inl e ↦ rw (e, start_tx) (refl, refl, refl, refl, refl, refl)
  | inr e ↦ rw (e, start_tx) (refl, refl, refl, refl, refl, e)
]

-- A long silence changes nothing in the receiver.
pub on_silence_keeps :
    (t : ℕ) (s : Reku)
    → let u = on_silence t s in
      (u.rx_state ≡ s.rx_state) × (u.rx_idx ≡ s.rx_idx) × (u.reku_rx ≡ s.reku_rx)
unfolding on_silence
on_silence_keeps t s = elim (Bool-cases (has_comm s.comm_state)) [
  | inl e ↦
      let u = record s { comm_state = comm_lost; outputs = failsafe s.outputs; t0_comm = t } in
      let k = start_tx_keeps mark_ind u in rw (e, on_silence) (k.0, k.1, k.2)
  | inr e ↦
      let k = start_tx_keeps mark_ind (record s { t0_comm = t }) in
      rw (e, on_silence) (k.0, k.1, k.2)
]

pub on_quiet-Inv : (t : ℕ) (s : Reku) → Inv s → Inv (on_quiet t s)
unfolding on_quiet
on_quiet-Inv t s h = ground (arith, on_silence_keeps t s)

pub on_good_frame_keeps :
    (t : ℕ) (s : Reku)
    → let u = on_good_frame t s in
      (u.rx_state ≡ s.rx_state)
      × (u.reku_rx ≡ s.reku_rx)
      × (u.outputs ≡ update_control_pvs s.reku_rx s.outputs)
      × (u.comm_state ≡ communicating)
      × (u.tx_state ≡ tx_pending)
unfolding on_good_frame
on_good_frame_keeps t s =
    let o = update_control_pvs s.reku_rx s.outputs in
    let k =
      start_tx_keeps mark_cnf (record s { t0_comm = t; comm_state = communicating; outputs = o }) in
    (k.0, k.2, k.3, k.4, k.5)

on_frame-Inv : (t : ℕ) (s : Reku) → length s.reku_rx ≡ 4 → Inv (on_frame t s)
unfolding on_frame
on_frame-Inv t s h = ground (arith, on_good_frame_keeps t s)

-- `on_stored` keeps the room of the buffer and the index inside it.
on_stored-Inv : (t : ℕ) (s : Reku) → length s.reku_rx ≡ 4 → s.rx_idx ≤ 4 → Inv (on_stored t s)
unfolding on_stored
on_stored-Inv t s h k = ground (arith, on_frame-Inv t s h)

pub do_rx-Inv : (t : ℕ) (i : Incoming) (s : Reku) → Inv s → Inv (do_rx t i s)
unfolding do_rx on_byte
do_rx-Inv t quiet s h = on_quiet-Inv t s h
do_rx-Inv t (byte v true) s h =
    let u = record s {
      reku_rx = set s.reku_rx s.rx_idx v;
      rx_idx = 0;
      cren = false;
      rx_state = rx_err;
    } in
    ground (arith, on_stored-Inv t u, length-set s.reku_rx s.rx_idx v)
do_rx-Inv t (byte v false) s h =
    let u = record s { reku_rx = set s.reku_rx s.rx_idx v; rx_idx = s.rx_idx + 1 } in
    ground (arith, on_stored-Inv t u, length-set s.reku_rx s.rx_idx v)

pub on_quiet-IsReady : (t : ℕ) (s : Reku) → IsReady s → IsReady (on_quiet t s)
unfolding on_quiet
on_quiet-IsReady t s h = ground (arith, on_silence_keeps t s)

recovers :
    (t : ℕ) (s : Reku)
    → Inv s
    → s.rx_state ≡ rx_err
    → timeout16 t s.t0_err (ms_ticks 50) ≡ true
    → IsReady (on_quiet t s)
unfolding on_quiet
recovers t s h e p = ground (arith)

gives_up :
    (t : ℕ) (s : Reku)
    → s.rx_state ≡ rx_reading
    → 0 < s.rx_idx
    → timeout16 t s.t0_err (ms_ticks 50) ≡ true
    → ((on_quiet t s).rx_state ≡ rx_err) × ((on_quiet t s).t0_err ≡ t)
unfolding on_quiet
gives_up t s e k p = ground (arith)

-- After two quiet polls, each more than 50 ms after what it waits for, the receiver is ready.
pub silence-IsReady :
    (t u : ℕ) (s : Reku)
    → Inv s
    → timeout16 t s.t0_err (ms_ticks 50) ≡ true
    → timeout16 u t (ms_ticks 50) ≡ true
    → IsReady (on_quiet u (on_quiet t s))
silence-IsReady t u s h p q = elim (RxState-cases s.rx_state) [
  | inr e ↦ on_quiet-IsReady u (on_quiet t s) (recovers t s h e p)
  | inl e ↦ elim (dec_lt 0 s.rx_idx) [
    | yes k ↦
        let g = gives_up t s e k p in
        recovers u (on_quiet t s) (on_quiet-Inv t s h) (g.0) (rw (g.1) q)
    | no k ↦
        on_quiet-IsReady u (on_quiet t s)
          (on_quiet-IsReady t s (record { reading = e; at_start = omega arith; room = h.room }))
  ]
]

-- A frame of four bytes, the last one its checksum.
abbrev pub feed : ℕ → ℕ → ℕ → ℕ → ℕ → ℕ → ℕ → ℕ → Reku → Reku
feed t0 t1 t2 t3 c p0 p1 k s =
    do_rx t3 (byte k false)
      (do_rx t2 (byte p1 false) (do_rx t1 (byte p0 false) (do_rx t0 (byte c false) s)))

-- The receiver in the middle of a frame.
unfoldable pub middle : ℕ → List ℕ → ℕ → ℕ → Reku → Reku
middle idx rx led t s = record s {
  rx_state = rx_reading;
  rx_idx = idx;
  reku_rx = rx;
  led = led;
  t0_err = t;
}

pub first_byte :
    (t c a b d e : ℕ) (s : Reku)
    → s.rx_state ≡ rx_reading
    → s.rx_idx ≡ 0
    → s.reku_rx ≡ a ∷ b ∷ d ∷ e ∷ []
    → bit_and c mark_mask ≡ mark_cmd
    → do_rx t (byte c false) s ≡ middle 1 (c ∷ b ∷ d ∷ e ∷ []) 0 t s
unfolding do_rx on_byte on_stored middle
first_byte t c a b d e s hs hi hr m = ground (arith)

pub next_byte :
    (t u v c b d e : ℕ) (s : Reku)
    → do_rx t (byte v false) (middle 1 (c ∷ b ∷ d ∷ e ∷ []) 0 u s)
      ≡ middle 2 (c ∷ v ∷ d ∷ e ∷ []) 0 u s
unfolding do_rx on_byte on_stored middle
next_byte t u v c b d e s = refl

pub third_byte :
    (t u v c b d e : ℕ) (s : Reku)
    → do_rx t (byte v false) (middle 2 (c ∷ b ∷ d ∷ e ∷ []) 0 u s)
      ≡ middle 3 (c ∷ b ∷ v ∷ e ∷ []) 0 u s
unfolding do_rx on_byte on_stored middle
third_byte t u v c b d e s = refl

module _ (t u v c b d e : ℕ) (s : Reku) where
  last_byte :
      let w = do_rx t (byte v false) (middle 3 (c ∷ b ∷ d ∷ e ∷ []) 0 u s) in
      let good = crc_from 0 (c ∷ b ∷ d ∷ []) == v in
      (w.outputs ≡ (if good then update_control_pvs (c ∷ b ∷ d ∷ v ∷ []) s.outputs else s.outputs))
      × (w.comm_state ≡ (if good then communicating else s.comm_state))
      × (w.rx_state ≡ (if good then rx_reading else rx_err))
      × (w.rx_idx ≡ 0)
      × (w.tx_state ≡ (if good then tx_pending else s.tx_state))
  unfolding do_rx on_byte on_stored on_frame middle
  last_byte = ground (arith, on_good_frame_keeps t (middle 4 (c ∷ b ∷ d ∷ v ∷ []) 0 u s))

pub four :
    (xs : List ℕ)
    → length xs ≡ 4
    → (a : ℕ) × (b : ℕ) × (c : ℕ) × (d : ℕ) × (xs ≡ a ∷ b ∷ c ∷ d ∷ [])
four (a ∷ b ∷ c ∷ d ∷ []) h = (a, b, c, d, refl)
four [] h = absurd (omega arith)
four (a ∷ []) h = absurd (omega arith)
four (a ∷ b ∷ []) h = absurd (omega arith)
four (a ∷ b ∷ c ∷ []) h = absurd (omega arith)
four (a ∷ b ∷ c ∷ d ∷ e ∷ xs) h = absurd (omega arith)

-- A frame that begins with the mark, received by a receiver that is ready, whatever the clock: if its
-- checksum is right, it is obeyed and confirmed; otherwise nothing but the receiver changes.
pub feed_lem :
    (t0 t1 t2 t3 c p0 p1 k : ℕ) (s : Reku)
    → IsReady s
    → bit_and c mark_mask ≡ mark_cmd
    → let u = feed t0 t1 t2 t3 c p0 p1 k s in
      let good = crc_from 0 (c ∷ p0 ∷ p1 ∷ []) == k in
      (u.outputs
        ≡ (if good then update_control_pvs (c ∷ p0 ∷ p1 ∷ k ∷ []) s.outputs else s.outputs))
      × (u.comm_state ≡ (if good then communicating else s.comm_state))
      × (u.rx_state ≡ (if good then rx_reading else rx_err))
      × (u.rx_idx ≡ 0)
      × (u.tx_state ≡ (if good then tx_pending else s.tx_state))
feed_lem t0 t1 t2 t3 c p0 p1 k s h m =
    let (a, b, d, e, r) = four s.reku_rx h.room in
    rw
      (
        first_byte t0 c a b d e s h.reading h.at_start r m,
        next_byte t1 t0 p0 c b d e s,
        third_byte t2 t0 p1 c p0 d e s,
      )
      (last_byte t3 t0 k c p0 p1 e s)
