-- ===== src/Scd4x/Transfer.antt =====
-- A whole transfer over the two-wire bus: what is sent, and where the answer ends up.
use byt.Base.{
  ℕ, zero, suc, ◌+◌, ◌-◌, ◌≤◌, ◌<◌, ◌≡◌, refl, sym, ap, ap₂, ◌∙◌, true, false, ◌&&◌, List, [], ◌∷◌,
  length, length-set, get_or, set, get_or-set_self, get_or-set_ne, replicate, ltb, leb, ◌==◌,
  if◌then◌else◌, Bool-cases, inl, inr, ==_iff, arith,
}
use native.Mathlib.Nat.{sub-zero}
use byt.Scd4x.Twi.{
  idle, pending_io, error, Control, go, go_ack, start_cond, stop_cond, Status, start, rep_start,
  mt_sla_ack, mt_data_ack, mr_sla_ack, mr_data_ack, mr_data_nack, Twi, sla_w, sla_r, put, on_mt_ack,
  on_mr_data_ack, on_mr_data_nack, twi_vect, run, init_i2c_generic_wr_rd, start_io,
}

-- The bytes of the buffer from an index on, pushed on what was sent before.
abbrev pub pushed : List ℕ → ℕ → ℕ → List ℕ → List ℕ
pushed buf i zero acc = acc
pushed buf i (suc n) acc = pushed buf (i + 1) n (get_or buf i 0 ∷ acc)

abbrev acks : ℕ → List (Status × ℕ)
acks n = replicate n (mt_data_ack, 0)

-- The slave takes the address and every byte.
abbrev pub write_session : ℕ → List (Status × ℕ)
write_session n = (start, 0) ∷ (mt_sla_ack, 0) ∷ acks n

-- What the write phase leaves.
record Sent (n : ℕ) (s t : Twi) : Type 0 where
  bytes : t.sent ≡ pushed s.buf s.byte_in n s.sent
  same_buf : t.buf ≡ s.buf
  same_rd : t.byte_req_rd ≡ s.byte_req_rd
  ended : t.state ≡ (if s.byte_req_rd == 0 then idle else s.state)
  told : t.twcr ≡ (if s.byte_req_rd == 0 then stop_cond else start_cond)
  rewound : (0 < s.byte_req_rd) → t.byte_in ≡ 0

-- One byte more goes out.
sent_one : Twi → Twi
sent_one s = record (put (get_or s.buf s.byte_in 0) s) { byte_in = s.byte_in + 1; twcr = go }

acks_step :
    (n : ℕ) (s : Twi) → s.byte_in < s.byte_req_wr → run (acks (suc n)) s ≡ run (acks n) (sent_one s)
unfolding run twi_vect on_mt_ack sent_one
acks_step n s h =
    let inside : ltb s.byte_in s.byte_req_wr ≡ true = ground arith in
    let e : on_mt_ack s ≡ sent_one s = rw inside refl in ap (run (acks n)) e

acks-Sent : (n : ℕ) (s : Twi) → s.byte_in + n ≡ s.byte_req_wr → Sent n s (run (acks (suc n)) s)
unfolding sent_one put
acks-Sent zero s e = unfold run twi_vect on_mt_ack in ground arith
acks-Sent (suc n) s e = rw (acks_step (suc n) s (omega arith)) (
    let ih = acks-Sent n (sent_one s) (omega arith) in
    record {
      bytes = ih.bytes;
      same_buf = ih.same_buf;
      same_rd = ih.same_rd;
      ended = ih.ended;
      told = ih.told;
      rewound = ih.rewound;
    })

-- The status that the hardware reports for a byte received: it has acknowledged the byte exactly if
-- the handler set TWEA before.
abbrev pub data_status : Control → Status
data_status go_ack = mr_data_ack
data_status _ = mr_data_nack

-- The slave sends bytes.
unfoldable pub recv : List ℕ → Twi → Twi
recv [] s = s
recv (b ∷ bs) s = recv bs (twi_vect (data_status s.twcr) b s)

abbrev received : List ℕ → ℕ → ℕ → List ℕ → ℕ → ℕ
received bs i n old j = if leb i j && ltb j n then get_or bs (j - i) 0 else get_or old j 0

record Got (bs : List ℕ) (j : ℕ) (s t : Twi) : Type 0 where
  ended : t.state ≡ idle
  told : t.twcr ≡ stop_cond
  bytes : get_or t.buf j 0 ≡ received bs s.byte_in s.byte_req_rd s.buf j
  same_sent : t.sent ≡ s.sent

received_step :
    (b : ℕ) (bs : List ℕ) (i n j : ℕ) (old : List ℕ)
    → i + 1 < n
    → n ≤ length old
    → received bs (i + 1) n (set old i b) j ≡ received (b ∷ bs) i n old j
received_step b bs i n j old h fits = elim (Bool-cases (i == j)) [
  | inl here ↦
      let e : i ≡ j = (==_iff i j).0 here in
      let z : j - i ≡ 0 = omega arith in
      rw (z, sym e) (ground (arith, get_or-set_self old i b 0 (omega arith)))
  | inr other ↦ elim (Bool-cases (leb i j)) [
    | inl later ↦
        let e : j - i ≡ suc (j - (i + 1)) = ground arith in
        rw e (ground (arith, get_or-set_ne old i j b 0 (λ x. ground arith)))
    | inr before ↦ ground (arith, get_or-set_ne old i j b 0 (λ x. ground arith))
  ]
]

-- One byte more is stored, with the acknowledgement asked for that the next one needs.
stored : ℕ → Twi → Twi
stored b s = record s {
  buf = set s.buf s.byte_in b;
  byte_in = s.byte_in + 1;
  twcr = if s.byte_in + 1 + 1 == s.byte_req_rd then go else go_ack;
}

recv_step :
    (b : ℕ) (bs : List ℕ) (s : Twi)
    → s.byte_in < s.byte_req_rd
    → s.twcr ≡ go_ack
    → recv (b ∷ bs) s ≡ recv bs (stored b s)
unfolding recv twi_vect on_mr_data_ack stored
recv_step b bs s h c =
    let inside : ltb s.byte_in s.byte_req_rd ≡ true = ground arith in
    let e : twi_vect (data_status s.twcr) b s ≡ stored b s = rw c (rw inside refl) in ap (recv bs) e

recv-Got :
    (b : ℕ) (bs : List ℕ) (s : Twi) (j : ℕ)
    → s.byte_in + suc (length bs) ≡ s.byte_req_rd
    → s.byte_req_rd ≤ length s.buf
    → s.twcr ≡ (if s.byte_in + 1 == s.byte_req_rd then go else go_ack)
    → Got (b ∷ bs) j s (recv (b ∷ bs) s)
unfolding stored
recv-Got b [] s j n fits c =
    let last : (s.byte_in + 1 == s.byte_req_rd) ≡ true = ground arith in
    let nacked : s.twcr ≡ go = c ∙ rw last refl in
    let e : recv (b ∷ []) s ≡ on_mr_data_nack b s =
      unfold recv twi_vect in ap (λ k. twi_vect (data_status k) b s) nacked in
    rw e (
      unfold on_mr_data_nack in
      rw last
        (record { ended = refl; told = refl; bytes = last_byte b s j n fits; same_sent = refl }))
  where
    last_byte :
        (b : ℕ) (s : Twi) (j : ℕ)
        → s.byte_in + 1 ≡ s.byte_req_rd
        → s.byte_req_rd ≤ length s.buf
        → get_or (set s.buf s.byte_in b) j 0 ≡ received (b ∷ []) s.byte_in s.byte_req_rd s.buf j
    last_byte b s j n fits = elim (Bool-cases (s.byte_in == j)) [
      | inl here ↦
          let e : s.byte_in ≡ j = (==_iff s.byte_in j).0 here in
          let z : j - s.byte_in ≡ 0 = omega arith in
          rw z (
            ground (
              arith,
              get_or-set_self s.buf s.byte_in b 0 (omega arith),
              ap (λ k. get_or (set s.buf s.byte_in b) k 0) e,
            ))
      | inr other ↦ ground (arith, get_or-set_ne s.buf s.byte_in j b 0 (λ x. ground arith))
    ]
recv-Got b (b' ∷ bs) s j n fits c =
    let on : (s.byte_in + 1 == s.byte_req_rd) ≡ false = ground arith in
    rw (recv_step b (b' ∷ bs) s (omega arith) (c ∙ rw on refl)) (
      let ih =
        recv-Got b' bs (stored b s) j (omega arith) (rw (length-set s.buf s.byte_in b) fits) refl in
      record {
        ended = ih.ended;
        told = ih.told;
        bytes =
            ih.bytes ∙ received_step b (b' ∷ bs) s.byte_in s.byte_req_rd j s.buf (omega arith) fits;
        same_sent = ih.same_sent;
      })

-- The state after the write address is out.
addressed : ℕ → ℕ → Twi → Twi
addressed n m s = record (init_i2c_generic_wr_rd n m s) { sent = sla_w ∷ s.sent; twcr = go }

session-Sent :
    (n m : ℕ) (s : Twi)
    → Sent n (addressed n m s) (run (write_session n) (init_i2c_generic_wr_rd n m s))
unfolding run twi_vect put addressed init_i2c_generic_wr_rd
session-Sent n m s = acks-Sent n (addressed n m s) (omega arith)

-- A transfer that the slave accepts and that asks for no answer: the bytes of the buffer follow
-- the write address on the wire in order, the bus is stopped, the machine is idle and the buffer
-- is unchanged.
pub write_transfer :
    (n : ℕ) (s : Twi)
    → let t = run (write_session n) (init_i2c_generic_wr_rd n 0 s) in
      (t.state ≡ idle)
      × (t.twcr ≡ stop_cond)
      × (t.sent ≡ pushed s.buf 0 n (sla_w ∷ s.sent))
      × (t.buf ≡ s.buf)
unfolding addressed init_i2c_generic_wr_rd
write_transfer n s = let f = session-Sent n 0 s in (f.ended, f.told, f.bytes, f.same_buf)

-- The whole transfer with an answer.
abbrev pub exchange : ℕ → List ℕ → Twi → Twi
exchange n bs s = recv bs (
    run ((rep_start, 0) ∷ (mr_sla_ack, 0) ∷ [])
      (run (write_session n) (init_i2c_generic_wr_rd n (length bs) s)))

-- A transfer that the slave accepts and answers with two or more bytes, no more than the buffer
-- holds: the command goes out before the read address, the answer stands at the front of the buffer,
-- the rest of the buffer is unchanged, the bus is stopped and the machine is idle.
pub exchange_lem :
    (n : ℕ) (b b' : ℕ) (bs : List ℕ) (s : Twi) (j : ℕ)
    → length (b ∷ b' ∷ bs) ≤ length s.buf
    → let t = exchange n (b ∷ b' ∷ bs) s in
      (t.state ≡ idle)
      × (t.twcr ≡ stop_cond)
      × (t.sent ≡ sla_r ∷ pushed s.buf 0 n (sla_w ∷ s.sent))
      × (get_or t.buf j 0
          ≡ (if ltb j (length (b ∷ b' ∷ bs)) then get_or (b ∷ b' ∷ bs) j 0 else get_or s.buf j 0))
exchange_lem n b b' bs s j h =
    let m = length (b ∷ b' ∷ bs) in
    let w = run (write_session n) (init_i2c_generic_wr_rd n m s) in
    let f = session-Sent n m s in
    let r : Twi = record w { sent = sla_r ∷ w.sent; twcr = go_ack } in
    let rd : r.byte_req_rd ≡ m = unfold addressed init_i2c_generic_wr_rd in f.same_rd in
    let at : r.byte_in ≡ 0 = f.rewound (unfold addressed init_i2c_generic_wr_rd in omega arith) in
    let buf : r.buf ≡ s.buf = unfold addressed init_i2c_generic_wr_rd in f.same_buf in
    let got =
      recv-Got b (b' ∷ bs) r j (rw (at, rd) (omega arith)) (rw (rd, buf) h)
        (rw (at, rd) (ground arith)) in
    unfold run twi_vect put in
    (
      got.ended,
      got.told,
      got.same_sent ∙ ap (λ t. sla_r ∷ t) (unfold addressed init_i2c_generic_wr_rd in f.bytes),
      got.bytes
          ∙ (ap₂ (λ i k. received (b ∷ b' ∷ bs) i k r.buf j) at rd
              ∙ (ap (λ d. received (b ∷ b' ∷ bs) 0 m d j) buf ∙ rw sub-zero (ground arith))),
    )

-- A transfer that asks for a single byte cannot succeed: the handler acknowledges the byte, so that
-- the transfer is still pending after it, and the next byte of the slave ends it in an error.
pub exchange_single :
    (n b b' : ℕ) (s : Twi)
    → let t =
        run
          ((rep_start, 0) ∷ (mr_sla_ack, 0) ∷ [])
          (run (write_session n) (init_i2c_generic_wr_rd n 1 s)) in
      ((recv (b ∷ []) t).state ≡ pending_io) × ((recv (b ∷ b' ∷ []) t).state ≡ error)
unfolding recv twi_vect on_mr_data_ack put
exchange_single n b b' s =
    let w = run (write_session n) (init_i2c_generic_wr_rd n 1 s) in
    let f = session-Sent n 1 s in
    let rd : w.byte_req_rd ≡ 1 = unfold addressed init_i2c_generic_wr_rd in f.same_rd in
    let at : w.byte_in ≡ 0 = f.rewound (unfold addressed init_i2c_generic_wr_rd in omega arith) in
    let pending : w.state ≡ pending_io =
      unfold addressed init_i2c_generic_wr_rd start_io in f.ended in
    unfold run in rw (rd, at) (pending, refl)
