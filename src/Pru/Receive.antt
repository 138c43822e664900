-- ===== src/Pru/Receive.antt =====
-- How pru/opentherm_sm.c receives a frame: from the transitions of the line and their times.
use byt.Base.{
  ℕ, zero, suc, ◌+◌, ◌-◌, ◌%◌, ◌^◌, ◌≤◌, ◌<◌, ◌≡◌, refl, ap, ◌∙◌, Bool, true, false, not, List, [],
  ◌∷◌, ltb, leb, ◌==◌, if◌then◌else◌, All, length, set_bits, bit_at, bit_at-set_bits, byte_eq,
  all_below, all_below_sound, ltb→lt, or_below, ==_iff, bit_at-le, bit_at-zero, if-true, Bool-cases,
  inl, inr, arith,
}
use byt.Pru.{frame, ot_ok, elapsed}
use byt.Pru.Opentherm.{
  Ot, idle, wait_frame, read_bits, dur_bit_capture_min, dur_bit_capture_max, dur_half_bit, differ,
  on_bit, on_read, on_wait_frame, ot_sm_do,
}
use byt.Pru.Transmit.{bits_from, timeout_lem}

-- The calls of one bit, by the ticks since the middle of the bit before: those that see no change, the
-- transition between two equal bits if there is one, those after it, and the transition in the middle.
pub record Slot : Type 0 where
  pub still : List ℕ
  pub border : ℕ
  pub steady : List ℕ
  pub middle : ℕ

-- No call without a transition comes too late, the transition at the border comes early, and the one
-- in the middle does not.
abbrev pub IsInTime : Slot → Type 0
IsInTime p =
    All (λ d. d ≤ dur_bit_capture_max) p.still
    × (p.border ≤ dur_bit_capture_min)
    × All (λ d. d ≤ dur_bit_capture_max) p.steady
    × (dur_bit_capture_min < p.middle)
    × (p.middle < 2 ^ 32)

-- Calls so many ticks after the time `t0`, with a level.
abbrev pub look : ℕ → Bool → ℕ → Ot → Ot
look t0 line d s = ot_sm_do ((t0 + d) % 2 ^ 32) line s

abbrev pub looks : ℕ → Bool → List ℕ → Ot → Ot
looks t0 line [] s = s
looks t0 line (d ∷ ds) s = looks t0 line ds (look t0 line d s)

-- The line before the middle of a bit: where the level has to change first, it changes at the border.
abbrev pub approach : Slot → Bool → Ot → Ot
approach p v s =
    if differ s.prev_v v
    then looks s.t0 v p.steady (look s.t0 v p.border (looks s.t0 (not v) p.still s))
    else looks s.t0 v p.steady s

-- A bit: its level, and in its middle the opposite one.
abbrev pub hear_bit : Slot → Bool → Ot → Ot
hear_bit p v s = look s.t0 (not v) p.middle (approach p v s)

abbrev pub hear : List Slot → List Bool → Ot → Ot
hear [] bs s = s
hear (p ∷ ps) [] s = s
hear (p ∷ ps) (b ∷ bs) s = hear ps bs (hear_bit p b s)

-- A reader at a place of its frame.
abbrev reader : ℕ → ℕ → Bool → ℕ → Ot → Ot
reader t0 left prev value s = record s {
  state = read_bits;
  t0 = t0;
  left = left;
  prev_v = prev;
  value = value;
}

module _ (t0 left value : ℕ) (s : Ot) (fits : t0 < 2 ^ 32) where
  still_look :
      (v : Bool) (d : ℕ)
      → d ≤ dur_bit_capture_max
      → look t0 v d (reader t0 left v value s) ≡ reader t0 left v value s
  unfolding ot_sm_do on_read
  still_look true d h = ground (arith, timeout_lem t0 d dur_bit_capture_max fits)
  still_look false d h = ground (arith, timeout_lem t0 d dur_bit_capture_max fits)

  border_look :
      (v : Bool) (d : ℕ)
      → d ≤ dur_bit_capture_min
      → look t0 v d (reader t0 left (not v) value s) ≡ reader t0 left v value s
  unfolding ot_sm_do on_read
  border_look true d h = ground (arith, timeout_lem t0 d dur_bit_capture_min fits)
  border_look false d h = ground (arith, timeout_lem t0 d dur_bit_capture_min fits)

  middle_look :
      (v : Bool) (d : ℕ)
      → dur_bit_capture_min < d
      → d < 2 ^ 32
      → look t0 (not v) d (reader t0 left v value s)
        ≡ record (on_bit ((t0 + d) % 2 ^ 32) (reader t0 left v value s)) { prev_v = not v }
  unfolding ot_sm_do on_read
  middle_look true d h k = ground (arith, timeout_lem t0 d dur_bit_capture_min fits)
  middle_look false d h k = ground (arith, timeout_lem t0 d dur_bit_capture_min fits)

still_looks :
    (t0 left value : ℕ) (s : Ot) (v : Bool) (ds : List ℕ)
    → t0 < 2 ^ 32
    → All (λ d. d ≤ dur_bit_capture_max) ds
    → looks t0 v ds (reader t0 left v value s) ≡ reader t0 left v value s
still_looks t0 left value s v [] fits h = refl
still_looks t0 left value s v (d ∷ ds) fits h =
    ap (looks t0 v ds) (still_look t0 left value s fits v d (h.0))
    ∙ still_looks t0 left value s v ds fits (h.1)

module _ (t0 left value : ℕ) (s : Ot) (p : Slot) (fits : t0 < 2 ^ 32) (h : IsInTime p) where
  crossed :
      (v : Bool)
      → looks t0 v p.steady
          (look t0 v p.border (looks t0 (not v) p.still (reader t0 left (not v) value s)))
        ≡ reader t0 left v value s
  crossed v =
      ap (λ q. looks t0 v p.steady (look t0 v p.border q))
        (still_looks t0 left value s (not v) p.still fits (h.0))
      ∙ ap (looks t0 v p.steady) (border_look t0 left value s fits v p.border (h.1))
      ∙ still_looks t0 left value s v p.steady fits (h.2)

  approach_lem :
      (prev v : Bool) → approach p v (reader t0 left prev value s) ≡ reader t0 left v value s
  approach_lem true true = still_looks t0 left value s true p.steady fits (h.2)
  approach_lem false false = still_looks t0 left value s false p.steady fits (h.2)
  approach_lem true false = crossed false
  approach_lem false true = crossed true

  -- A bit ends in what `on_bit` makes of its level.
  hear_bit_lem :
      (prev v : Bool)
      → hear_bit p v (reader t0 left prev value s)
        ≡ record (on_bit ((t0 + p.middle) % 2 ^ 32) (reader t0 left v value s)) { prev_v = not v }
  hear_bit_lem prev v =
      ap (look t0 (not v) p.middle) (approach_lem prev v)
      ∙ middle_look t0 left value s fits v p.middle (h.3) (h.4)

-- The value after a bit of the frame.
abbrev joined : Bool → ℕ → ℕ → ℕ
joined v i value = if v then set_bits value (2 ^ i) else value

middle_bit :
    (now t0 i value : ℕ) (v : Bool) (s : Ot)
    → i < 32
    → record (on_bit now (reader t0 (suc (suc i)) v value s)) { prev_v = not v }
      ≡ reader now (suc i) (not v) (joined v i value) s
unfolding on_bit
middle_bit now t0 i value true s h =
    let e : suc (suc i) - 2 ≡ i = omega arith in
    let f : suc (suc i) - 1 ≡ suc i = omega arith in ground (arith)
middle_bit now t0 i value false s h =
    let f : suc (suc i) - 1 ≡ suc i = omega arith in ground (arith)

-- The bits from a place on are those of the frame, the others are 0.
record Holds (w i value : ℕ) : Type 0 where
  fits : value < 2 ^ 32
  bits : (j : ℕ) → j < 32 → bit_at value j ≡ (if leb i j then bit_at w j else 0)

pow_fits : (k : ℕ) → k < 32 → 2 ^ k < 2 ^ 32
unfolding all_below
pow_fits k h = ltb→lt (2 ^ k) (2 ^ 32) (all_below_sound 32 (λ j. ltb (2 ^ j) (2 ^ 32)) k table h)
  where
    table : all_below 32 (λ j. ltb (2 ^ j) (2 ^ 32)) ≡ true
    table = refl

joined_bit :
    (w i value j : ℕ) (v : Bool)
    → (bit_at w i == 1) ≡ v
    → bit_at value j ≡ (if leb (suc i) j then bit_at w j else 0)
    → bit_at (joined v i value) j ≡ (if leb i j then bit_at w j else 0)
joined_bit w i value j true e h = elim (Bool-cases (i == j)) [
  | inl q ↦
      let same : i ≡ j = (==_iff i j).0 q in
      ground (arith, bit_at-set_bits value i j, ap (bit_at w) same)
  | inr q ↦ ground (arith, bit_at-set_bits value i j)
]
joined_bit w i value j false e h = elim (Bool-cases (i == j)) [
  | inl q ↦ let same : i ≡ j = (==_iff i j).0 q in ground (arith, bit_at-le w i, ap (bit_at w) same)
  | inr q ↦ ground (arith)
]

joined-Holds :
    (w i value : ℕ) (v : Bool)
    → i < 32
    → (bit_at w i == 1) ≡ v
    → Holds w (suc i) value
    → Holds w i (joined v i value)
joined-Holds w i value true h e k = record {
  fits = unfold set_bits in or_below 32 value (2 ^ i) k.fits (pow_fits i h);
  bits = λ j hj. joined_bit w i value j true e (k.bits j hj);
}
joined-Holds w i value false h e k = record {
  fits = k.fits;
  bits = λ j hj. joined_bit w i value j false e (k.bits j hj);
}

Holds-all : (w value : ℕ) → w < 2 ^ 32 → Holds w 0 value → value ≡ w
Holds-all w value h k =
    byte_eq 32 value w k.fits h
      (λ j hj. k.bits j hj ∙ if-true (leb 0 j) (bit_at w j) 0 (ground (arith)))

-- The bits from a place on, and the message at the end of the frame.
frame_from :
    (i w t0 value : ℕ) (prev : Bool) (s : Ot) (ps : List Slot)
    → t0 < 2 ^ 32
    → w < 2 ^ 32
    → i ≤ 32
    → Holds w i value
    → length ps ≡ suc i
    → All IsInTime ps
    → let t = hear ps (bits_from i w) (reader t0 (suc i) prev value s) in
      (t.replies ≡ frame ot_ok w ∷ s.replies) × (t.state ≡ idle)
frame_from zero w t0 value prev s (p ∷ []) fits hw h k n times =
    let e = hear_bit_lem t0 1 value s p fits (times.0) prev true in
    let same = Holds-all w value hw k in
    (
      ap (λ (q : Ot). q.replies) e
          ∙ last_replies ((t0 + p.middle) % 2 ^ 32) t0 value s
          ∙ ap (λ q. frame ot_ok q ∷ s.replies) same,
      ap (λ (q : Ot). q.state) e ∙ last_state ((t0 + p.middle) % 2 ^ 32) t0 value s,
    )
  where
    last_replies :
        (now t0 value : ℕ) (s : Ot)
        → (on_bit now (reader t0 1 true value s)).replies ≡ frame ot_ok value ∷ s.replies
    last_replies now t0 value s = unfold on_bit in refl

    last_state : (now t0 value : ℕ) (s : Ot) → (on_bit now (reader t0 1 true value s)).state ≡ idle
    last_state now t0 value s = unfold on_bit in refl
frame_from (suc i) w t0 value prev s (p ∷ ps) fits hw h k n times =
    let v : Bool = bit_at w i == 1 in
    let now = (t0 + p.middle) % 2 ^ 32 in
    let e =
      hear_bit_lem t0 (suc (suc i)) value s p fits (times.0) prev v
      ∙ middle_bit now t0 i value v s (omega arith) in
    let rest =
      frame_from i w now (joined v i value) (not v) s ps (omega arith) hw (omega arith)
        (joined-Holds w i value v (omega arith) refl k) (omega arith) (times.1) in
    (
      ap (λ q. (hear ps (bits_from i w) q).replies) e ∙ rest.0,
      ap (λ q. (hear ps (bits_from i w) q).state) e ∙ rest.1,
    )
frame_from zero w t0 value prev s [] fits hw h k n times = absurd (omega arith)
frame_from zero w t0 value prev s (p ∷ q ∷ ps) fits hw h k n times = absurd (omega arith)
frame_from (suc i) w t0 value prev s [] fits hw h k n times = absurd (omega arith)

Holds-none : (w : ℕ) → Holds w 32 0
Holds-none w = record { fits = omega arith; bits = λ j h. ground (arith, bit_at-zero j) }

-- A unit that waits for a frame, and a line that becomes active and then carries, at times within the
-- limits of the capture and however often it is looked at, the start bit, the 32 bits of a word from
-- the highest on and the stop bit, each as its level and then the opposite one: the unit sends exactly
-- this word to the daemon, as a good frame, and is idle.
pub hear_lem :
    (now w : ℕ) (s : Ot) (ps : List Slot)
    → now < 2 ^ 32
    → w < 2 ^ 32
    → s.state ≡ wait_frame
    → length ps ≡ 34
    → All IsInTime ps
    → let t = hear ps (true ∷ bits_from 32 w) (ot_sm_do now true s) in
      (t.replies ≡ frame ot_ok w ∷ s.replies) × (t.state ≡ idle)
unfolding on_bit
hear_lem now w s [] fits hw e n times = absurd (omega arith)
hear_lem now w s (p ∷ ps) fits hw e n times =
    let t0 = elapsed now dur_half_bit in
    let t : Ot = record s { t0_frame = now } in
    let begun : ot_sm_do now true s ≡ reader t0 34 true 0 t = awake now s e in
    let first = hear_bit_lem t0 34 0 t p (elapsed-lt now dur_half_bit) (times.0) true true in
    let rest =
      frame_from 32 w ((t0 + p.middle) % 2 ^ 32) 0 false t ps (omega arith) hw (omega arith)
        (Holds-none w) (omega arith) (times.1) in
    (
      ap (λ q. (hear (p ∷ ps) (true ∷ bits_from 32 w) q).replies) begun
          ∙ ap (λ q. (hear ps (bits_from 32 w) q).replies) first
          ∙ rest.0,
      ap (λ q. (hear (p ∷ ps) (true ∷ bits_from 32 w) q).state) begun
          ∙ ap (λ q. (hear ps (bits_from 32 w) q).state) first
          ∙ rest.1,
    )
  where
    awake :
        (now : ℕ) (s : Ot)
        → s.state ≡ wait_frame
        → ot_sm_do now true s
          ≡ reader (elapsed now dur_half_bit) 34 true 0 (record s { t0_frame = now })
    awake now s e = unfold ot_sm_do on_wait_frame in ground (arith)

    elapsed-lt : (a b : ℕ) → elapsed a b < 2 ^ 32
    elapsed-lt a b = unfold elapsed in omega arith
