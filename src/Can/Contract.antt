-- ===== src/Can/Contract.antt =====
-- The contract of the outputs of bytd/src/candata.cpp: what was set reaches the bus.
use byt.Base.{
  ℕ, zero, suc, ◌<◌, ◌≡◌, inl, inr, refl, sym, ap, subst, ◌∙◌, Bool, true, false, not, ◌&&◌, some,
  List, [], ◌∷◌, ◌==◌, ==_iff, length, length-set, set, Bool-cases, if-true, if-false, arith,
}
use byt.Can.{
  CanFrame, OutputMsg, OutputItem, CanBus, Control, item_frame, updated, send, same_frame, on_read,
}
use byt.Can.Drain.{
  waiting, written, IsLive, acks, on_read-own, on_read-other, on_read-IsLive, acks-waiting,
}
use byt.Can.Synced.{
  output, last_of, mem, AreDistinct, AreSynced, changed, at_self, at_other, changed-AreDistinct,
  changed-written, changed-waits, Wrote, nothing, one, write_ready-Wrote,
}

-- The invariant of the outputs that were updated.
pub record Inv (l : List ℕ) (s : Control) : Type 0 where
  pub live : IsLive s
  pub distinct : AreDistinct s.outputs
  pub synced : AreSynced l s.outputs s.bus.wire

Wrote-Inv :
    (l : List ℕ) (os : List OutputMsg) (b : CanBus) (os' : List OutputMsg) (b' : CanBus)
    → AreDistinct os
    → AreSynced l os b.wire
    → Wrote os b os' b'
    → AreDistinct os' × AreSynced l os' b'.wire
Wrote-Inv l os b os' b' d v nothing = (d, v)
Wrote-Inv l os b os' b' d v (one k h) = (
  changed-AreDistinct k false (output k os).msg os h refl d,
  (λ j hj m c.
      changed-written k (output k os).msg l os b.wire h refl d v j hj (ground (arith, m)) c),
)

free : CanBus → CanBus
free b = record b { pending = false }

on_read-Inv : (l : List ℕ) (f : CanFrame) (s : Control) → Inv l s → Inv l (on_read f s).1
unfolding free
on_read-Inv l f s v = elim (Bool-cases (s.bus.pending && same_frame f s.bus.frame_wr)) [
  | inl h ↦
      let w =
        Wrote-Inv l s.outputs (free s.bus) _ _ v.distinct v.synced
          (write_ready-Wrote s.outputs (free s.bus) refl) in
      record {
        live = on_read-IsLive f s v.live;
        distinct = subst (λ t. AreDistinct t.outputs) (sym (on_read-own f s h)) w.0;
        synced = subst (λ t. AreSynced l t.outputs t.bus.wire) (sym (on_read-own f s h)) w.1;
      }
  | inr h ↦ subst (λ t. Inv l t) (sym (on_read-other f s h)) v
]

-- What an update does while a frame is pending, and while none is.
updated-busy :
    (idx : ℕ) (item : OutputItem) (s : Control)
    → s.bus.pending ≡ true
    → updated idx item s
      ≡ record { outputs = changed idx true (item_frame idx item s) s.outputs; bus = s.bus }
unfolding updated send
updated-busy idx item s p =
    let f = item_frame idx item s in
    ap
      (λ q. record {
        outputs = set s.outputs idx (record { need_update = not q.0; msg = f });
        bus = q.1;
      })
      (if-true {A = Bool × CanBus} s.bus.pending (false, s.bus) (true, written f s.bus) p)

updated-free :
    (idx : ℕ) (item : OutputItem) (s : Control)
    → s.bus.pending ≡ false
    → updated idx item s ≡ record {
      outputs = changed idx false (item_frame idx item s) s.outputs;
      bus = written (item_frame idx item s) s.bus;
    }
unfolding updated send
updated-free idx item s p =
    let f = item_frame idx item s in
    ap
      (λ q. record {
        outputs = set s.outputs idx (record { need_update = not q.0; msg = f });
        bus = q.1;
      })
      (if-false {A = Bool × CanBus} s.bus.pending (false, s.bus) (true, written f s.bus) p)

item_frame-id :
    (idx : ℕ) (item : OutputItem) (s : Control)
    → (item_frame idx item s).can_id ≡ (output idx s.outputs).msg.can_id
unfolding item_frame
item_frame-id idx item s = refl

updated-Inv :
    (l : List ℕ) (idx : ℕ) (item : OutputItem) (s : Control)
    → idx < length s.outputs
    → Inv l s
    → Inv (idx ∷ l) (updated idx item s)
updated-Inv l idx item s h v =
    let f = item_frame idx item s in
    let id_is = item_frame-id idx item s in
    elim (Bool-cases s.bus.pending) [
      | inl p ↦
          subst (λ t. Inv (idx ∷ l) t) (sym (updated-busy idx item s p))
            (record {
              live = inr p;
              distinct = changed-AreDistinct idx true f s.outputs h id_is v.distinct;
              synced = changed-waits idx f l s.outputs s.bus.wire h v.synced;
            })
      | inr p ↦
          subst (λ t. Inv (idx ∷ l) t) (sym (updated-free idx item s p))
            (record {
              live = inr refl;
              distinct = changed-AreDistinct idx false f s.outputs h id_is v.distinct;
              synced = changed-written idx f l s.outputs s.bus.wire h id_is v.distinct v.synced;
            })
    ]

-- From a state on, any updates of outputs that there are and any frames given by the socket, the
-- outputs that were updated being listed.
pub data Reach (s : Control) : List ℕ → Control → Type 0 where
  here : Reach s [] s
  updates :
      {l : List ℕ} {t : Control} (idx : ℕ) (item : OutputItem)
      → Reach s l t
      → idx < length t.outputs
      → Reach s (idx ∷ l) (updated idx item t)
  reads : {l : List ℕ} {t : Control} (f : CanFrame) → Reach s l t → Reach s l (on_read f t).1

Reach-Inv : {s t : Control} {l : List ℕ} → Inv [] s → Reach s l t → Inv l t
Reach-Inv v here = v
Reach-Inv v (updates {l} {t} idx item r h) = updated-Inv l idx item t h (Reach-Inv v r)
Reach-Inv v (reads {l} {t} f r) = on_read-Inv l f t (Reach-Inv v r)

acks-Inv : (n : ℕ) (l : List ℕ) (s : Control) → Inv l s → Inv l (acks n s)
acks-Inv zero l s v = v
acks-Inv (suc n) l s v =
    acks-Inv n l (on_read s.bus.frame_wr s).1 (on_read-Inv l s.bus.frame_wr s v)

none_waits : (os : List OutputMsg) (j : ℕ) → waiting os ≡ 0 → (output j os).need_update ≡ false
none_waits [] j e = refl
none_waits (o ∷ os) zero e = ground (arith, e)
none_waits (o ∷ os) (suc j) e = none_waits os j (omega (arith, e))

-- The frames of the outputs stay while what waits is written.
Wrote-frames :
    (os : List OutputMsg) (b : CanBus) (os' : List OutputMsg) (b' : CanBus) (j : ℕ)
    → Wrote os b os' b'
    → ((output j os').msg ≡ (output j os).msg) × (length os' ≡ length os)
Wrote-frames os b os' b' j nothing = (refl, refl)
Wrote-frames os b os' b' j (one k h) = (
  elim (Bool-cases (k == j)) [
    | inl q ↦
        ap (λ o. o.msg) (at_self k j false (output k os).msg os h q)
        ∙ ap (λ i. (output i os).msg) ((==_iff k j).0 q)
    | inr q ↦ ap (λ o. o.msg) (at_other k j false (output k os).msg os q)
  ],
  length-set os k _,
)

on_read-frames :
    (f : CanFrame) (s : Control) (j : ℕ)
    → ((output j (on_read f s).1.outputs).msg ≡ (output j s.outputs).msg)
      × (length (on_read f s).1.outputs ≡ length s.outputs)
unfolding free
on_read-frames f s j = elim (Bool-cases (s.bus.pending && same_frame f s.bus.frame_wr)) [
  | inl h ↦
      subst
        (λ t.
          ((output j t.outputs).msg ≡ (output j s.outputs).msg)
          × (length t.outputs ≡ length s.outputs))
        (sym (on_read-own f s h))
        (Wrote-frames s.outputs (free s.bus) _ _ j (write_ready-Wrote s.outputs (free s.bus) refl))
  | inr h ↦
      subst
        (λ t.
          ((output j t.outputs).msg ≡ (output j s.outputs).msg)
          × (length t.outputs ≡ length s.outputs))
        (sym (on_read-other f s h)) (refl, refl)
]

acks-frames :
    (n : ℕ) (s : Control) (j : ℕ)
    → ((output j (acks n s).outputs).msg ≡ (output j s.outputs).msg)
      × (length (acks n s).outputs ≡ length s.outputs)
acks-frames zero s j = (refl, refl)
acks-frames (suc n) s j =
    let one_more = on_read-frames s.bus.frame_wr s j in
    let rest = acks-frames n (on_read s.bus.frame_wr s).1 j in
    (rest.0 ∙ one_more.0, rest.1 ∙ one_more.1)

-- From a state where no output waits, after any updates and any frames given by the socket: once the
-- socket has given back as many pending frames as outputs wait, no output waits, and for each output
-- that was updated the last frame on the wire with its identifier is the output's frame, unchanged
-- since. (The outputs have distinct identifiers.)
pub Reach-drains :
    {s t : Control} {l : List ℕ}
    → waiting s.outputs ≡ 0
    → AreDistinct s.outputs
    → Reach s l t
    → let u = acks (waiting t.outputs) t in
      (waiting u.outputs ≡ 0)
      × ((j : ℕ)
          → j < length t.outputs
          → mem j l ≡ true
          → last_of (output j t.outputs).msg.can_id u.bus.wire ≡ some (output j t.outputs).msg)
Reach-drains {s} {t} {l} e d r =
    let v =
      Reach-Inv
        (record { live = inl e; distinct = d; synced = λ j h m c. absurd (ground (arith, m)) }) r in
    let n = waiting t.outputs in
    let u = acks n t in
    let done = acks-waiting n t (omega arith) v.live in
    let w = acks-Inv n l t v in
    (
      done,
      λ j h m.
          let same = acks-frames n t j in
          subst (λ (f : CanFrame). last_of f.can_id u.bus.wire ≡ some f) same.0
            (w.synced j (omega (arith, h, same.1)) m (none_waits u.outputs j done)),
    )
