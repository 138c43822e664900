-- ===== src/Pwm.antt =====
-- avr/fw/pwm16_at90.cpp: the three PWM outputs of timer 3 and the loop of `iterateOutputObjs`
-- (avr/fw/main.cpp) that sets them from the process image.
use byt.Base.{
  ℕ, ◌≡◌, refl, ap, ◌∙◌, Bool, true, false, List, [], ◌∷◌, ◌==◌, if◌then◌else◌, bit_or, bit_and,
  inl, inr, Bool-cases,
}
use byt.Pv.{Pv, read_u16}

-- The registers.
pub record Timer3 : Type 0 where
  pub tccr3a : ℕ
  pub tccr3b : ℕ
  pub icr3 : ℕ
  pub ddre : ℕ
  pub ocr3a : ℕ
  pub ocr3b : ℕ
  pub ocr3c : ℕ

-- `Channel`, and any other value of the byte that is cast to it.
pub data Channel : Type 0 where
  pe3_oc3a pe4_oc3b pe5_oc3c none_of_them : Channel

-- `1 << WGM33` is 16.
unfoldable pub init : ℕ → ℕ → Timer3 → Timer3
init prescaler top s = record s { tccr3b = bit_or 16 (bit_and prescaler 7); icr3 = top }

-- `COM3A1`, `COM3B1` and `COM3C1` are bits 7, 5 and 3.
unfoldable pub enable_out : Channel → Timer3 → Timer3
enable_out pe3_oc3a s = record s { tccr3a = bit_or s.tccr3a 128; ddre = bit_or s.ddre 8 }
enable_out pe4_oc3b s = record s { tccr3a = bit_or s.tccr3a 32; ddre = bit_or s.ddre 16 }
enable_out pe5_oc3c s = record s { tccr3a = bit_or s.tccr3a 8; ddre = bit_or s.ddre 32 }
enable_out none_of_them s = s

unfoldable pub set_pwm : Channel → ℕ → Timer3 → Timer3
set_pwm pe3_oc3a v s = record s { ocr3a = v }
set_pwm pe4_oc3b v s = record s { ocr3b = v }
set_pwm pe5_oc3c v s = record s { ocr3c = v }
set_pwm none_of_them v s = s

-- `Pwm16At90_Obj`.
pub record PwmOut : Type 0 where
  pub mob_idx : ℕ
  pub iodata_idx : ℕ
  pub ch : Channel

-- The second loop of `iterateOutputObjs`.
unfoldable pub iterate_pwm_objs : ℕ → List PwmOut → Pv → Timer3 → Timer3
unfolding set_pwm
iterate_pwm_objs mob [] p s = s
iterate_pwm_objs mob (o ∷ os) p s =
    let next = if mob == o.mob_idx then set_pwm o.ch (read_u16 p.io_data o.iodata_idx) s else s in
    iterate_pwm_objs mob os p next

-- The compare value of a channel.
abbrev pub duty : Channel → Timer3 → ℕ
duty pe3_oc3a s = s.ocr3a
duty pe4_oc3b s = s.ocr3b
duty pe5_oc3c s = s.ocr3c
duty none_of_them s = 0

-- The comparison of two channels of the chip.
abbrev pub is_same : Channel → Channel → Bool
is_same pe3_oc3a pe3_oc3a = true
is_same pe4_oc3b pe4_oc3b = true
is_same pe5_oc3c pe5_oc3c = true
is_same _ _ = false

-- The values that the objects of a message object ask a channel for: the last one counts.
abbrev pub asked : ℕ → Channel → List PwmOut → Pv → ℕ → ℕ
asked mob c [] p v = v
asked mob c (o ∷ os) p v =
    let w =
      if mob == o.mob_idx
      then if is_same o.ch c then read_u16 p.io_data o.iodata_idx else v
      else v in
    asked mob c os p w

duty-set_pwm :
    (k c : Channel) (v : ℕ) (s : Timer3)
    → duty c (set_pwm k v s) ≡ (if is_same k c then v else duty c s)
unfolding set_pwm
duty-set_pwm pe3_oc3a pe3_oc3a v s = refl
duty-set_pwm pe3_oc3a pe4_oc3b v s = refl
duty-set_pwm pe3_oc3a pe5_oc3c v s = refl
duty-set_pwm pe3_oc3a none_of_them v s = refl
duty-set_pwm pe4_oc3b pe3_oc3a v s = refl
duty-set_pwm pe4_oc3b pe4_oc3b v s = refl
duty-set_pwm pe4_oc3b pe5_oc3c v s = refl
duty-set_pwm pe4_oc3b none_of_them v s = refl
duty-set_pwm pe5_oc3c pe3_oc3a v s = refl
duty-set_pwm pe5_oc3c pe4_oc3b v s = refl
duty-set_pwm pe5_oc3c pe5_oc3c v s = refl
duty-set_pwm pe5_oc3c none_of_them v s = refl
duty-set_pwm none_of_them pe3_oc3a v s = refl
duty-set_pwm none_of_them pe4_oc3b v s = refl
duty-set_pwm none_of_them pe5_oc3c v s = refl
duty-set_pwm none_of_them none_of_them v s = refl

-- When a message object has been received, each channel has the value that the last of the outputs
-- that belong to this object and drive this channel reads from the process image, and its former
-- value if there is none.
pub iterate_pwm_objs_lem :
    (mob : ℕ) (c : Channel) (os : List PwmOut) (p : Pv) (s : Timer3)
    → duty c (iterate_pwm_objs mob os p s) ≡ asked mob c os p (duty c s)
unfolding iterate_pwm_objs
iterate_pwm_objs_lem mob c [] p s = refl
iterate_pwm_objs_lem mob c (o ∷ os) p s =
    let v = read_u16 p.io_data o.iodata_idx in
    elim (Bool-cases (mob == o.mob_idx)) [
      | inl e ↦ rw e (
          iterate_pwm_objs_lem mob c os p (set_pwm o.ch v s)
          ∙ ap (λ d. asked mob c os p d) (duty-set_pwm o.ch c v s))
      | inr e ↦ rw e (iterate_pwm_objs_lem mob c os p s)
    ]
