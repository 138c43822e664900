-- ===== src/Can/Drain.antt =====
-- Every output of bytd/src/candata.cpp that waits is written in the end.
use byt.Base.{
  ℕ, zero, suc, ◌+◌, ◌-◌, ◌≤◌, ◌≡◌, ◌⊎◌, inl, inr, refl, sym, ap, subst, ◌∙◌, Bool, true, false,
  not, ◌&&◌, Option, none, some, List, [], ◌∷◌, ◌==◌, take, Bool-cases, to_nat, if-true, if-false,
  arith,
}
use byt.Can.{
  CanFrame, OutputMsg, OutputItem, CanBus, Control, send, updated, same_bytes, same_frame,
  write_ready, on_read,
}

-- How many outputs wait.
abbrev pub waiting : List OutputMsg → ℕ
waiting [] = 0
waiting (o ∷ os) = to_nat o.need_update + waiting os

same_bytes_refl : (xs : List ℕ) → same_bytes xs xs ≡ true
unfolding same_bytes
same_bytes_refl [] = refl
same_bytes_refl (x ∷ xs) = ground (arith, same_bytes_refl xs)

pub same_frame_refl : (f : CanFrame) → same_frame f f ≡ true
unfolding same_frame
same_frame_refl f = ground (arith, same_bytes_refl (take f.can_dlc f.bytes))

-- While a frame is pending the loop writes nothing.
pub write_ready-pending :
    (os : List OutputMsg) (b : CanBus) → b.pending ≡ true → write_ready os b ≡ (os, b)
unfolding write_ready send
write_ready-pending [] b e = refl
write_ready-pending (o ∷ os) b e =
    let rest = write_ready-pending os b e in
    elim (Bool-cases o.need_update) [
      | inl n ↦ rw n (rw e refl)
      | inr n ↦
          if-false o.need_update _ (o ∷ (write_ready os b).0, (write_ready os b).1) n
          ∙ ap (λ q. (o ∷ q.0, q.1)) rest
    ]

-- The bus after an output was written to the socket.
abbrev pub written : CanFrame → CanBus → CanBus
written f b = record { pending = true; frame_wr = f; wire = f ∷ b.wire }

pub write_ready-clean :
    (o : OutputMsg) (os : List OutputMsg) (b : CanBus)
    → o.need_update ≡ false
    → write_ready (o ∷ os) b ≡ (o ∷ (write_ready os b).0, (write_ready os b).1)
unfolding write_ready
write_ready-clean o os b n =
    if-false o.need_update _ (o ∷ (write_ready os b).0, (write_ready os b).1) n

pub write_ready-sent :
    (o : OutputMsg) (os : List OutputMsg) (b : CanBus)
    → o.need_update ≡ true
    → b.pending ≡ false
    → write_ready (o ∷ os) b ≡ (record o { need_update = false } ∷ os, written o.msg b)
unfolding write_ready send
write_ready-sent o os b n e =
    if-true o.need_update _ _ n
    ∙ rw e (
        ap (λ q. (record o { need_update = false } ∷ q.0, q.1))
          (write_ready-pending os (written o.msg b) refl))

-- Otherwise it writes one output if one waits.
pub write_ready-free :
    (os : List OutputMsg) (b : CanBus)
    → b.pending ≡ false
    → (waiting (write_ready os b).0 ≡ waiting os - 1)
      × ((write_ready os b).1.pending ≡ not (waiting os == 0))
unfolding write_ready
write_ready-free [] b e = (refl, e)
write_ready-free (o ∷ os) b e =
    let rest = write_ready-free os b e in
    elim (Bool-cases o.need_update) [
      | inl n ↦
          let same = write_ready-sent o os b n e in
          subst
            (λ q.
              (waiting q.0 ≡ waiting (o ∷ os) - 1) × (q.1.pending ≡ not (waiting (o ∷ os) == 0)))
            (sym same) (ground (arith, n), ground (arith, n))
      | inr n ↦
          let same = write_ready-clean o os b n in
          subst
            (λ q.
              (waiting q.0 ≡ waiting (o ∷ os) - 1) × (q.1.pending ≡ not (waiting (o ∷ os) == 0)))
            (sym same) (ground (arith, n, rest.0), rest.1 ∙ ground (arith, n))
    ]

-- An output waits only while a frame is pending.
abbrev pub IsLive : Control → Type 0
IsLive s = (waiting s.outputs ≡ 0) ⊎ (s.bus.pending ≡ true)

-- The socket gives back the pending frame, `n` times over.
abbrev pub acks : ℕ → Control → Control
acks zero s = s
acks (suc n) s = acks n (on_read s.bus.frame_wr s).1

pub on_read-own :
    (f : CanFrame) (s : Control)
    → (s.bus.pending && same_frame f s.bus.frame_wr) ≡ true
    → let r = write_ready s.outputs (record s.bus { pending = false }) in
      (on_read f s).1 ≡ record { outputs = r.0; bus = r.1 }
unfolding on_read
on_read-own f s h =
    let r = write_ready s.outputs (record s.bus { pending = false }) in
    ap (λ q. q.1)
      (if-true {A = Option CanFrame × Control} (s.bus.pending && same_frame f s.bus.frame_wr)
        (none, record { outputs = r.0; bus = r.1 }) (some f, s) h)

pub on_read-other :
    (f : CanFrame) (s : Control)
    → (s.bus.pending && same_frame f s.bus.frame_wr) ≡ false
    → (on_read f s).1 ≡ s
unfolding on_read
on_read-other f s h =
    let r = write_ready s.outputs (record s.bus { pending = false }) in
    ap (λ q. q.1)
      (if-false {A = Option CanFrame × Control} (s.bus.pending && same_frame f s.bus.frame_wr)
        (none, record { outputs = r.0; bus = r.1 }) (some f, s) h)

acknowledged :
    (f : CanFrame) (s : Control)
    → (s.bus.pending && same_frame f s.bus.frame_wr) ≡ true
    → (waiting (on_read f s).1.outputs ≡ waiting s.outputs - 1) × IsLive (on_read f s).1
acknowledged f s h =
    let b = record s.bus { pending = false } in
    let free = write_ready-free s.outputs b refl in
    let r = write_ready s.outputs b in
    subst (λ (t : Control). (waiting t.outputs ≡ waiting s.outputs - 1) × IsLive t)
      (sym (on_read-own f s h))
      (free.0, live (waiting s.outputs) (waiting r.0) r.1.pending free.0 free.1)
  where
    live : (n m : ℕ) (p : Bool) → m ≡ n - 1 → p ≡ not (n == 0) → (m ≡ 0) ⊎ (p ≡ true)
    live zero m p e h = inl (omega (arith, e))
    live (suc n) m p e h = inr (ground (arith, h))

pub on_read-IsLive : (f : CanFrame) (s : Control) → IsLive s → IsLive (on_read f s).1
on_read-IsLive f s v = elim (Bool-cases (s.bus.pending && same_frame f s.bus.frame_wr)) [
  | inl h ↦ (acknowledged f s h).1
  | inr h ↦ subst (λ t. IsLive t) (sym (on_read-other f s h)) v
]

pub acks-waiting :
    (n : ℕ) (s : Control) → waiting s.outputs ≤ n → IsLive s → waiting (acks n s).outputs ≡ 0
acks-waiting zero s h v = omega (arith, h)
acks-waiting (suc n) s h v = elim (Bool-cases s.bus.pending) [
  | inl p ↦
      let done =
        acknowledged s.bus.frame_wr s (ground (arith, p, same_frame_refl s.bus.frame_wr)) in
      acks-waiting n (on_read s.bus.frame_wr s).1 (omega (arith, done.0, h)) done.1
  | inr p ↦
      let same = on_read-other s.bus.frame_wr s (ground (arith, p)) in
      let none_waits : waiting s.outputs ≡ 0 = ground (arith, v, p) in
      subst (λ t. waiting (acks n t).outputs ≡ 0) (sym same)
        (acks-waiting n s (omega (arith, none_waits)) v)
]

pub updated-IsLive : (idx : ℕ) (item : OutputItem) (s : Control) → IsLive (updated idx item s)
unfolding updated send
updated-IsLive idx item s = elim (Bool-cases s.bus.pending) [
  | inl p ↦ inr (rw p refl)
  | inr p ↦ inr (rw p refl)
]
