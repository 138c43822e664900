-- ===== src/Device/Laws.antt =====
-- What the devices of bytd/src/Pumpa.cpp and OnOffDevice.cpp promise.
use byt.Base.{
  ℕ, zero, suc, ◌+◌, ◌≤◌, ◌≡◌, inl, inr, refl, sym, ap, subst, ◌∙◌, Bool, true, false, not, Option,
  none, some, List, ◌∷◌, ltb, leb, if◌then◌else◌, if-true, if-false, Bool-cases, arith,
}
use byt.Device.{
  differ, Pump, max_plamen_off, set_pumpa, start, stop, on_plamen_off, OnOff, make_on_off, get,
  toggle, set_on,
}

-- The flame goes off `n` times.
abbrev pub flame_offs : ℕ → Pump → Pump
flame_offs zero s = s
flame_offs (suc n) s = flame_offs n (on_plamen_off s)

abbrev running : ℕ → List Bool → Pump
running k p = record { out = true; plamen_off_count = some k; published = p }

abbrev stopped : List Bool → Pump
stopped p = record { out = false; plamen_off_count = none; published = false ∷ p }

stays_stopped : (n : ℕ) (p : List Bool) → flame_offs n (stopped p) ≡ stopped p
unfolding on_plamen_off
stays_stopped zero p = refl
stays_stopped (suc n) p = stays_stopped n p

one_off :
    (k : ℕ) (p : List Bool)
    → on_plamen_off (running k p) ≡ (if leb (suc k) 6 then running (suc k) p else stopped p)
unfolding on_plamen_off stop set_pumpa
one_off k p =
    let next : k + 1 ≡ suc k = omega arith in
    elim (Bool-cases (leb (suc k) 6)) [
      | inl e ↦
          if-false (ltb max_plamen_off (k + 1)) _ (running (k + 1) p) (ground (arith, e))
          ∙ ap (λ q. running q p) next
          ∙ sym (if-true (leb (suc k) 6) (running (suc k) p) (stopped p) e)
      | inr e ↦
          if-true (ltb max_plamen_off (k + 1)) _ (running (k + 1) p) (ground (arith, e))
          ∙ sym (if-false (leb (suc k) 6) (running (suc k) p) (stopped p) e)
    ]

running_lem :
    (n k : ℕ) (p : List Bool)
    → k ≤ 6
    → flame_offs n (running k p) ≡ (if leb (k + n) 6 then running (k + n) p else stopped p)
running_lem zero k p h =
    let same : k ≡ k + 0 = omega arith in
    ap (λ q. running q p) same
    ∙ sym (if-true (leb (k + 0) 6) (running (k + 0) p) (stopped p) (ground (arith, h)))
running_lem (suc n) k p h =
    let same : suc k + n ≡ k + suc n = omega arith in
    elim (Bool-cases (leb (suc k) 6)) [
      | inl e ↦
          ap (flame_offs n)
            (one_off k p ∙ if-true (leb (suc k) 6) (running (suc k) p) (stopped p) e)
          ∙ running_lem n (suc k) p (ground (arith, e))
          ∙ ap (λ q. if leb q 6 then running q p else stopped p) same
      | inr e ↦
          ap (flame_offs n)
            (one_off k p ∙ if-false (leb (suc k) 6) (running (suc k) p) (stopped p) e)
          ∙ stays_stopped n p
          ∙ sym
              (if-false (leb (k + suc n) 6) (running (k + suc n) p) (stopped p) (ground (arith, e)))
    ]

started :
    (out : Bool) (c : Option ℕ) (p : List Bool)
    → start (record { out = out; plamen_off_count = c; published = p })
      ≡ running 0 (if out then p else true ∷ p)
unfolding start set_pumpa
started true c p = refl
started false c p = refl

after :
    (b : Bool) (k : ℕ) (p : List Bool)
    → let t = if b then running k p else stopped p in
      (t.out ≡ b) × (t.published ≡ (if b then p else false ∷ p))
after true k p = (refl, refl)
after false k p = (refl, refl)

-- A started pump runs while the flame has gone off up to six times; the seventh time stops it, which is
-- published once, and it stays stopped.
pub pump_lem :
    (n : ℕ) (s : Pump)
    → let t = flame_offs n (start s) in
      let p = if s.out then s.published else true ∷ s.published in
      (t.out ≡ leb n 6) × (t.published ≡ (if leb n 6 then p else false ∷ p))
pump_lem n s =
    let p = if s.out then s.published else true ∷ s.published in
    let run =
      ap (flame_offs n) (started s.out s.plamen_off_count s.published)
      ∙ running_lem n 0 p (omega arith) in
    let same : 0 + n ≡ n = omega arith in
    subst (λ t. (t.out ≡ leb n 6) × (t.published ≡ (if leb n 6 then p else false ∷ p)))
      (sym (run ∙ ap (λ q. if leb q 6 then running q p else stopped p) same)) (after (leb n 6) n p)

-- Whether the output is inverted or not, a device that is set shows what it was set to, one that is
-- toggled the opposite of what it showed, and a new one is off; a toggle is published, and a setting
-- that changes the device and did not come by MQTT.
pub on_off_lem :
    (on by_mqtt inverted : Bool) (s : OnOff)
    → (get (make_on_off inverted) ≡ false)
      × (get (set_on on by_mqtt s) ≡ on)
      × ((set_on on by_mqtt s).published ≡ (
          if differ on (get s)
          then (if by_mqtt then s.published else on ∷ s.published)
          else s.published))
      × (get (toggle s) ≡ not (get s))
      × ((toggle s).published ≡ not (get s) ∷ s.published)
unfolding get toggle set_on make_on_off
on_off_lem on by_mqtt inverted s =
    (ground (arith), ground (arith), ground (arith), ground (arith), refl)
