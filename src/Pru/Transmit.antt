-- ===== src/Pru/Transmit.antt =====
-- How pru/opentherm_sm.c sends a frame: each bit as two halves, the second one inverted.
use native.Mathlib.Nat.{one-le-pow}
use byt.Base.{
  bit_and-pow, bit_at-le, if-true, ◌&&◌, ap₂, ℕ, zero, suc, ◌+◌, ◌-◌, ◌%◌, ◌^◌, ◌≤◌, ◌<◌, ◌≡◌, refl,
  ap, ◌∙◌, Bool, true, false, not, List, [], ◌∷◌, ltb, leb, ◌==◌, if◌then◌else◌, All, length,
  has_bits, bit_at, arith,
}
use byt.Pru.{elapsed, timeout}
use byt.Pru.Opentherm.{
  Ot, idle, write_frame, frame_wait_gap, dur_bit, dur_half_bit, ot_transmit, current, on_write,
  ot_sm_do,
}

-- The calls while a bit is sent, by the ticks since it began: those of the first half, one in the
-- second half, others there, and the one that ends the bit.
pub record Slot : Type 0 where
  pub early : List ℕ
  pub middle : ℕ
  pub later : List ℕ
  pub end : ℕ

abbrev pub IsInTime : Slot → Type 0
IsInTime p =
    All (λ d. d ≤ dur_half_bit) p.early
    × (dur_half_bit < p.middle)
    × (p.middle ≤ dur_bit)
    × All (λ d. (dur_half_bit < d) × (d ≤ dur_bit)) p.later
    × (dur_bit < p.end)
    × (p.end < 2 ^ 32)

-- A call so many ticks after the time `t0`.
abbrev pub call : ℕ → ℕ → Ot → Ot
call t0 d s = ot_sm_do ((t0 + d) % 2 ^ 32) false s

abbrev pub calls : ℕ → List ℕ → Ot → Ot
calls t0 [] s = s
calls t0 (d ∷ ds) s = calls t0 ds (call t0 d s)

-- The two halves of a bit as the line shows them, and the state after the bit.
abbrev pub half : Slot → Ot → Ot
half p s = calls s.t0 p.later (call s.t0 p.middle (calls s.t0 p.early s))

abbrev pub bit : Slot → Ot → Ot
bit p s = call s.t0 p.end (half p s)

abbrev pub levels : List Slot → Ot → List Bool
levels [] s = []
levels (p ∷ ps) s = (half p s).bus ∷ (bit p s).bus ∷ levels ps (bit p s)

abbrev pub send_all : List Slot → Ot → Ot
send_all [] s = s
send_all (p ∷ ps) s = send_all ps (bit p s)

-- The bits of a frame from a place on, the start and the stop bit with them, and their halves.
abbrev pub bits_from : ℕ → ℕ → List Bool
bits_from zero w = true ∷ []
bits_from (suc i) w = (bit_at w i == 1) ∷ bits_from i w

abbrev pub manchester : List Bool → List Bool
manchester [] = []
manchester (b ∷ bs) = b ∷ not b ∷ manchester bs

elapsed_lem : (t0 d : ℕ) → t0 < 2 ^ 32 → d < 2 ^ 32 → elapsed ((t0 + d) % 2 ^ 32) t0 ≡ d
unfolding elapsed
elapsed_lem t0 d h k = omega arith

pub timeout_lem :
    (t0 d limit : ℕ) → t0 < 2 ^ 32 → d < 2 ^ 32 → timeout ((t0 + d) % 2 ^ 32) t0 limit ≡ ltb limit d
unfolding timeout
timeout_lem t0 d limit h k = ap (ltb limit) (elapsed_lem t0 d h k)

-- A writer that has driven a level, at a place of its frame.
abbrev writer : ℕ → ℕ → Bool → Ot → Ot
writer t0 left b s = record s { state = write_frame; t0 = t0; left = left; bus = b }

module _ (t0 left : ℕ) (b : Bool) (s : Ot) (fits : t0 < 2 ^ 32) where
  early_call : (d : ℕ) → d ≤ dur_half_bit → call t0 d (writer t0 left b s) ≡ writer t0 left b s
  unfolding ot_sm_do on_write
  early_call d h = ground (arith, timeout_lem t0 d dur_bit fits, timeout_lem t0 d dur_half_bit fits)

  middle_call :
      (d : ℕ)
      → dur_half_bit < d
      → d ≤ dur_bit
      → call t0 d (writer t0 left b s) ≡ writer t0 left (current (writer t0 left b s)) s
  unfolding ot_sm_do on_write
  middle_call d h k =
      ground (arith, timeout_lem t0 d dur_bit fits, timeout_lem t0 d dur_half_bit fits)

  end_call :
      (d : ℕ)
      → dur_bit < d
      → d < 2 ^ 32
      → call t0 d (writer t0 left b s) ≡ record s {
        state = if ltb (left - 1) 1 then frame_wait_gap else write_frame;
        t0 = (t0 + d) % 2 ^ 32;
        left = left - 1;
        bus = not (current (writer t0 left b s));
      }
  unfolding ot_sm_do on_write
  end_call d h k = ground (arith, timeout_lem t0 d dur_bit fits)

early_calls :
    (t0 left : ℕ) (b : Bool) (s : Ot) (ds : List ℕ)
    → t0 < 2 ^ 32
    → All (λ d. d ≤ dur_half_bit) ds
    → calls t0 ds (writer t0 left b s) ≡ writer t0 left b s
early_calls t0 left b s [] fits h = refl
early_calls t0 left b s (d ∷ ds) fits h =
    ap (calls t0 ds) (early_call t0 left b s fits d (h.0)) ∙ early_calls t0 left b s ds fits (h.1)

-- What the line shows in the first half does not depend on what it showed before.
abbrev level : ℕ → ℕ → Ot → Bool
level t0 left s = current (writer t0 left true s)

level-current : (t0 left : ℕ) (b : Bool) (s : Ot) → current (writer t0 left b s) ≡ level t0 left s
unfolding current
level-current t0 left b s = refl

later_calls :
    (t0 left : ℕ) (s : Ot) (ds : List ℕ)
    → t0 < 2 ^ 32
    → All (λ d. (dur_half_bit < d) × (d ≤ dur_bit)) ds
    → calls t0 ds (writer t0 left (level t0 left s) s) ≡ writer t0 left (level t0 left s) s
later_calls t0 left s [] fits h = refl
later_calls t0 left s (d ∷ ds) fits h =
    ap (calls t0 ds) (
      middle_call t0 left (level t0 left s) s fits d (h.0.0) (h.0.1)
      ∙ ap (λ q. writer t0 left q s) (level-current t0 left (level t0 left s) s))
    ∙ later_calls t0 left s ds fits (h.1)

module _ (t0 left : ℕ) (b : Bool) (s : Ot) (p : Slot) (fits : t0 < 2 ^ 32) (h : IsInTime p) where
  half_lem : half p (writer t0 left b s) ≡ writer t0 left (level t0 left s) s
  half_lem =
      ap (λ q. calls t0 p.later (call t0 p.middle q)) (early_calls t0 left b s p.early fits (h.0))
      ∙ ap (calls t0 p.later) (
          middle_call t0 left b s fits p.middle (h.1) (h.2)
          ∙ ap (λ q. writer t0 left q s) (level-current t0 left b s))
      ∙ later_calls t0 left s p.later fits (h.3)

  bit_lem : bit p (writer t0 left b s) ≡ record s {
    state = if ltb (left - 1) 1 then frame_wait_gap else write_frame;
    t0 = (t0 + p.end) % 2 ^ 32;
    left = left - 1;
    bus = not (level t0 left s);
  }
  bit_lem =
      ap (call t0 p.end) half_lem
      ∙ end_call t0 left (level t0 left s) s fits p.end (h.4) (h.5)
      ∙ ap (λ q. ended q) (level-current t0 left (level t0 left s) s)
    where
      ended : Bool → Ot
      ended q = record s {
        state = if ltb (left - 1) 1 then frame_wait_gap else write_frame;
        t0 = (t0 + p.end) % 2 ^ 32;
        left = left - 1;
        bus = not q;
      }

has_bit : (x i : ℕ) → has_bits x (2 ^ i) ≡ (bit_at x i == 1)
unfolding has_bits
has_bit x i = grind (arith, bit_and-pow x i, bit_at-le x i, one-le-pow i 2)

level-last : (t0 : ℕ) (s : Ot) → level t0 1 s ≡ true
unfolding current
level-last t0 s = refl

level-bit : (t0 i : ℕ) (s : Ot) → i < 32 → level t0 (suc (suc i)) s ≡ (bit_at s.value i == 1)
unfolding current
level-bit t0 i s h =
    let e : suc (suc i) - 2 ≡ i = omega arith in
    if-true (leb 2 (suc (suc i)) && ltb (suc (suc i)) 34) (has_bits s.value (2 ^ (suc (suc i) - 2)))
      true (ground (arith))
    ∙ ap (λ k. has_bits s.value (2 ^ k)) e
    ∙ has_bit s.value i

-- The bits from a place on, and the end of the frame.
frame_from :
    (i t0 : ℕ) (b : Bool) (s : Ot) (ps : List Slot)
    → t0 < 2 ^ 32
    → i ≤ 32
    → length ps ≡ suc i
    → All IsInTime ps
    → (levels ps (writer t0 (suc i) b s) ≡ manchester (bits_from i s.value))
      × ((send_all ps (writer t0 (suc i) b s)).state ≡ frame_wait_gap)
frame_from zero t0 b s (p ∷ []) fits h n k =
    let e = half_lem t0 1 b s p fits (k.0) in
    let f = bit_lem t0 1 b s p fits (k.0) in
    (
      ap₂ (λ (x y : Ot). x.bus ∷ y.bus ∷ []) e f ∙ ap (λ x. x ∷ not x ∷ []) (level-last t0 s),
      ap (λ (x : Ot). x.state) f,
    )
frame_from (suc i) t0 b s (p ∷ ps) fits h n k =
    let left = suc (suc i) in
    let e = half_lem t0 left b s p fits (k.0) in
    let x = level t0 left s in
    let f : bit p (writer t0 left b s) ≡ writer ((t0 + p.end) % 2 ^ 32) (suc i) (not x) s =
      bit_lem t0 left b s p fits (k.0) ∙ ground (arith) in
    let rest =
      frame_from i ((t0 + p.end) % 2 ^ 32) (not x) s ps (omega arith) (omega arith) (omega arith)
        (k.1) in
    (
      ap₂ (λ (y z : Ot). y.bus ∷ z.bus ∷ levels ps z) e f
          ∙ ap (λ q. x ∷ not x ∷ q) (rest.0)
          ∙ ap (λ q. q ∷ not q ∷ manchester (bits_from i s.value)) (level-bit t0 i s (omega arith)),
      ap (λ (z : Ot). (send_all ps z).state) f ∙ rest.1,
    )
frame_from zero t0 b s [] fits h n k = absurd (omega arith)
frame_from zero t0 b s (p ∷ q ∷ ps) fits h n k = absurd (omega arith)
frame_from (suc i) t0 b s [] fits h n k = absurd (omega arith)

-- A frame that an idle unit is told to send, the calls of `ot_sm_do` coming at any times, with at least
-- one in the second half of each of the 34 bits and one after it: the line shows the start bit, the 32
-- bits of the frame from the highest on and the stop bit, each as its level and then the opposite
-- level; then the unit waits for the gap after the frame.
pub ot_transmit_lem :
    (now w : ℕ) (s : Ot) (ps : List Slot)
    → now < 2 ^ 32
    → s.state ≡ idle
    → length ps ≡ 34
    → All IsInTime ps
    → let t = ot_transmit now w s in
      (levels ps t ≡ manchester (true ∷ bits_from 32 w)) × ((send_all ps t).state ≡ frame_wait_gap)
unfolding current
ot_transmit_lem now w s [] fits e n k = absurd (omega arith)
ot_transmit_lem now w s (p ∷ ps) fits e n k =
    let t : Ot = record s { value = w } in
    let started : ot_transmit now w s ≡ writer now 34 s.bus t = begun now w s e in
    let a = half_lem now 34 s.bus t p fits (k.0) in
    let f = bit_lem now 34 s.bus t p fits (k.0) in
    let rest =
      frame_from 32 ((now + p.end) % 2 ^ 32) false t ps (omega arith) (omega arith) (omega arith)
        (k.1) in
    (
      ap (levels (p ∷ ps)) started
          ∙ ap₂ (λ (y z : Ot). y.bus ∷ z.bus ∷ levels ps z) a f
          ∙ ap (λ q. true ∷ false ∷ q) (rest.0),
      ap (λ (z : Ot). (send_all (p ∷ ps) z).state) started
          ∙ ap (λ (z : Ot). (send_all ps z).state) f
          ∙ rest.1,
    )
  where
    begun :
        (now w : ℕ) (s : Ot)
        → s.state ≡ idle
        → ot_transmit now w s ≡ writer now 34 s.bus (record s { value = w })
    begun now w s e = unfold ot_transmit in ground (arith)
