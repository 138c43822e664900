-- ===== src/Can/Synced.antt =====
-- What the bus has last seen of each output of bytd/src/candata.cpp.
use byt.Base.{
  ℕ, suc, ◌<◌, ◌≡◌, ◌≢◌, inl, inr, sym, ap, subst, ◌∙◌, Bool, true, false, ◌||◌, Option, none, some,
  List, [], ◌∷◌, ◌==◌, ==_iff, if◌then◌else◌, length, length-set, get_or, set, get_or-set_self,
  get_or-set_ne, Bool-cases, if-true, if-false, arith,
}
use byt.Can.{CanFrame, OutputMsg, CanBus, no_output, write_ready}
use byt.Can.Drain.{written, write_ready-clean, write_ready-sent}

abbrev pub output : ℕ → List OutputMsg → OutputMsg
output j os = get_or os j no_output

-- The last frame with an identifier on the wire.
abbrev pub last_of : ℕ → List CanFrame → Option CanFrame
last_of id [] = none
last_of id (f ∷ fs) = if f.can_id == id then some f else last_of id fs

abbrev pub mem : ℕ → List ℕ → Bool
mem j [] = false
mem j (i ∷ is_) = (i == j) || mem j is_

-- Two outputs have two identifiers.
abbrev pub AreDistinct : List OutputMsg → Type 0
AreDistinct os =
    (j k : ℕ)
    → j < length os
    → k < length os
    → j ≢ k
    → (output j os).msg.can_id ≢ (output k os).msg.can_id

-- Of the outputs that were updated, those that do not wait are on the wire as they are.
abbrev pub AreSynced : List ℕ → List OutputMsg → List CanFrame → Type 0
AreSynced l os wire =
    (j : ℕ)
    → j < length os
    → mem j l ≡ true
    → (output j os).need_update ≡ false
    → last_of (output j os).msg.can_id wire ≡ some (output j os).msg

abbrev pub changed : ℕ → Bool → CanFrame → List OutputMsg → List OutputMsg
changed k need f os = set os k (record { need_update = need; msg = f })

pub at_self :
    (k j : ℕ) (need : Bool) (f : CanFrame) (os : List OutputMsg)
    → k < length os
    → (k == j) ≡ true
    → output j (changed k need f os) ≡ record { need_update = need; msg = f }
at_self k j need f os h q =
    subst (λ i. output i (changed k need f os) ≡ record { need_update = need; msg = f })
      ((==_iff k j).0 q) (get_or-set_self os k _ no_output h)

pub at_other :
    (k j : ℕ) (need : Bool) (f : CanFrame) (os : List OutputMsg)
    → (k == j) ≡ false
    → output j (changed k need f os) ≡ output j os
at_other k j need f os q = get_or-set_ne os k j _ no_output (λ i. absurd (ground (arith, q, i)))

-- The identifiers stay.
changed-id :
    (k : ℕ) (need : Bool) (f : CanFrame) (os : List OutputMsg)
    → k < length os
    → f.can_id ≡ (output k os).msg.can_id
    → (j : ℕ) → (output j (changed k need f os)).msg.can_id ≡ (output j os).msg.can_id
changed-id k need f os h e j = elim (Bool-cases (k == j)) [
  | inl q ↦
      ap (λ o. o.msg.can_id) (at_self k j need f os h q)
      ∙ subst (λ i. f.can_id ≡ (output i os).msg.can_id) ((==_iff k j).0 q) e
  | inr q ↦ ap (λ o. o.msg.can_id) (at_other k j need f os q)
]

pub changed-AreDistinct :
    (k : ℕ) (need : Bool) (f : CanFrame) (os : List OutputMsg)
    → k < length os
    → f.can_id ≡ (output k os).msg.can_id
    → AreDistinct os
    → AreDistinct (changed k need f os)
changed-AreDistinct k need f os h e d i j hi hj ne q =
    let len = length-set os k (record { need_update = need; msg = f }) in
    d i j (omega (arith, hi, len)) (omega (arith, hj, len)) ne
      (sym (changed-id k need f os h e i) ∙ q ∙ changed-id k need f os h e j)

-- An output written with a new frame.
pub changed-written :
    (k : ℕ) (f : CanFrame) (l : List ℕ) (os : List OutputMsg) (wire : List CanFrame)
    → k < length os
    → f.can_id ≡ (output k os).msg.can_id
    → AreDistinct os
    → AreSynced l os wire
    → AreSynced (k ∷ l) (changed k false f os) (f ∷ wire)
changed-written k f l os wire h e d v j hj touched clean = elim (Bool-cases (k == j)) [
  | inl q ↦
      subst (λ (o : OutputMsg). last_of o.msg.can_id (f ∷ wire) ≡ some o.msg)
        (sym (at_self k j false f os h q))
        (if-true (f.can_id == f.can_id) (some f) _ (ground arith))
  | inr q ↦
      let old = at_other k j false f os q in
      let inside : j < length os =
        omega (arith, hj, length-set os k (record { need_update = false; msg = f })) in
      let apart : f.can_id ≢ (output j os).msg.can_id =
        (λ i. d k j h inside (λ r. absurd (ground (arith, q, r))) (sym e ∙ i)) in
      subst (λ (o : OutputMsg). last_of o.msg.can_id (f ∷ wire) ≡ some o.msg) (sym old)
        (if-false (f.can_id == (output j os).msg.can_id) (some f) _ (ground (arith, apart))
          ∙ v j inside (ground (arith, touched, q)) (ap (λ o. o.need_update) (sym old) ∙ clean))
]

-- An output with a new frame that waits.
pub changed-waits :
    (k : ℕ) (f : CanFrame) (l : List ℕ) (os : List OutputMsg) (wire : List CanFrame)
    → k < length os
    → AreSynced l os wire
    → AreSynced (k ∷ l) (changed k true f os) wire
changed-waits k f l os wire h v j hj touched clean = elim (Bool-cases (k == j)) [
  | inl q ↦
      let waits : (output j (changed k true f os)).need_update ≡ true =
        ap (λ o. o.need_update) (at_self k j true f os h q) in
      absurd (ground (arith, waits, clean))
  | inr q ↦
      let old = at_other k j true f os q in
      let inside : j < length os =
        omega (arith, hj, length-set os k (record { need_update = true; msg = f })) in
      subst (λ (o : OutputMsg). last_of o.msg.can_id wire ≡ some o.msg) (sym old)
        (v j inside (ground (arith, touched, q)) (ap (λ o. o.need_update) (sym old) ∙ clean))
]

-- What `write_ready` does on a free bus: nothing, or one output written.
pub data Wrote (os : List OutputMsg) (b : CanBus) : List OutputMsg → CanBus → Type 0 where
  nothing : Wrote os b os b
  one :
      (k : ℕ)
      → k < length os
      → Wrote os b (changed k false (output k os).msg os) (written (output k os).msg b)

pub write_ready-Wrote :
    (os : List OutputMsg) (b : CanBus)
    → b.pending ≡ false
    → Wrote os b (write_ready os b).0 (write_ready os b).1
write_ready-Wrote [] b e = unfold write_ready in nothing
write_ready-Wrote (o ∷ os) b e = elim (Bool-cases o.need_update) [
  | inl n ↦
      subst (λ q. Wrote (o ∷ os) b q.0 q.1) (sym (write_ready-sent o os b n e))
        (one 0 (omega arith))
  | inr n ↦
      subst (λ q. Wrote (o ∷ os) b q.0 q.1) (sym (write_ready-clean o os b n))
        (lift o os b _ _ (write_ready-Wrote os b e))
]
  where
    lift :
        (o : OutputMsg) (os : List OutputMsg) (b : CanBus) (q : List OutputMsg) (c : CanBus)
        → Wrote os b q c
        → Wrote (o ∷ os) b (o ∷ q) c
    lift o os b q c nothing = nothing
    lift o os b q c (one k h) = one (suc k) (omega (arith, h))
