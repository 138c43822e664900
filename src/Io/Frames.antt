-- ===== src/Io/Frames.antt =====
-- What the message objects do to the process image, `run` of avr/fw/main.cpp: receiving writes
-- inside the object only, sending empties the set of the marks.
use byt.Base.{
  ℕ, zero, suc, ◌+◌, ◌-◌, ◌<◌, ◌≤◌, ◌≡◌, inl, inr, refl, subst, ◌∙◌, Bool, true, false, not, ◌&&◌,
  ◌||◌, List, [], ◌∷◌, take, length, ltb, leb, ◌==◌, if◌then◌else◌, get_or, set, Bool-cases,
  length-set, length-take, get_or-set_self, get_or-set_ne, arith,
}
use byt.Pv.{Pv, is_mob_marked_tx, clear_mark_tx_mob}
use byt.Pv.Marks.{is_mob_marked_tx_lem}
use byt.Io.Mobs.{begin_idx, end_idx, copy_in, receive, transmit}

pub get_or-take : (n i : ℕ) (xs : List ℕ) → i < n → get_or (take n xs) i 0 ≡ get_or xs i 0
get_or-take zero i xs h = absurd (omega arith)
get_or-take (suc n) i [] h = refl
get_or-take (suc n) zero (x ∷ xs) h = refl
get_or-take (suc n) (suc i) (x ∷ xs) h = get_or-take n i xs (omega arith)

-- What the copy leaves at `j`, `b` being the byte at `idx` and the rest the other bytes.
left_at : (idx end_ : ℕ) (bs d : List ℕ) (j : ℕ) → ℕ
left_at idx end_ bs d j =
    if leb idx j && (ltb j end_ && ltb (j - idx) (length bs))
    then get_or bs (j - idx) 0
    else get_or d j 0

left_next :
    (idx end_ b : ℕ) (bs d : List ℕ) (j : ℕ)
    → j < length d
    → idx < end_
    → left_at (idx + 1) end_ bs (set d idx b) j ≡ left_at idx end_ (b ∷ bs) d j
unfolding left_at
left_next idx end_ b bs d j h lt = elim (Bool-cases (idx == j)) [
  | inl e ↦
      let q : idx ≡ j = ground arith in
      let here : get_or (set d idx b) j 0 ≡ b =
        subst (λ x. get_or (set d idx b) x 0 ≡ b) q
          (get_or-set_self d idx b 0 (omega (arith, q))) in
      let first : j - idx ≡ 0 = omega (arith, q) in rw (here, first) (ground (arith, q))
  | inr e ↦
      let away : get_or (set d idx b) j 0 ≡ get_or d j 0 =
        get_or-set_ne d idx j b 0 (λ q. ground (arith, q)) in
      elim (Bool-cases (ltb idx j)) [
        | inl l ↦
            let later : j - idx ≡ suc (j - (idx + 1)) = ground arith in
            rw (away, later) (ground arith)
        | inr l ↦ rw away (ground arith)
      ]
]

copy_in_lem :
    (idx end_ : ℕ) (bs d : List ℕ) (j : ℕ)
    → j < length d
    → get_or (copy_in idx end_ bs d) j 0 ≡ left_at idx end_ bs d j
unfolding copy_in left_at
copy_in_lem idx end_ [] d j h = ground arith
copy_in_lem idx end_ (b ∷ bs) d j h = elim (Bool-cases (ltb idx end_)) [
  | inl e ↦ rw e (
      copy_in_lem (idx + 1) end_ bs (set d idx b) j (rw (length-set d idx b) h)
      ∙ left_next idx end_ b bs d j h (ground arith))
  | inr e ↦ rw e (ground arith)
]

-- A frame of `dlc` bytes received in an object writes its first bytes to the object's place in the
-- image, as many as both have, and every other byte of the image keeps its value.
pub receive_lem :
    (ends : List ℕ) (mob dlc : ℕ) (msg : List ℕ) (p : Pv) (j : ℕ)
    → dlc ≤ length msg
    → j < length p.io_data
    → let b = begin_idx ends mob in
      get_or (receive ends mob dlc msg p).io_data j 0 ≡ (
        if leb b j && (ltb j (end_idx ends mob) && ltb (j - b) dlc)
        then get_or msg (j - b) 0
        else get_or p.io_data j 0)
unfolding receive left_at
receive_lem ends mob dlc msg p j fits h =
    let len : length (take dlc msg) ≡ dlc = omega (arith, length-take dlc msg) in
    let same = get_or-take dlc (j - begin_idx ends mob) msg in
    copy_in_lem (begin_idx ends mob) (end_idx ends mob) (take dlc msg) p.io_data j h
    ∙ rw len (ground (arith, same))

-- One round of the loop, the object `mob` sent or not.
loop_step :
    (busy : ℕ → Bool) (n mob j : ℕ) (p : Pv) (sent : Bool)
    → (is_mob_marked_tx mob p && not (busy mob)) ≡ sent
    → ((if sent && (mob == j) then false else is_mob_marked_tx j p)
        && (ltb j (mob + 1) || (leb (mob + 1 + n) j || busy j)))
      ≡ (is_mob_marked_tx j p && (ltb j mob || (leb (mob + suc n) j || busy j)))
loop_step busy n mob j p sent e = elim (Bool-cases (mob == j)) [
  | inl h ↦
      let q : mob ≡ j = ground arith in
      let at_j = subst (λ x. (is_mob_marked_tx x p && not (busy x)) ≡ sent) q e in
      ground (arith, at_j, q)
  | inr h ↦ ground (arith, h)
]

-- After the sending loop an object is marked if it was marked before and either its number is not
-- among those of the loop or the controller is still busy with it.
pub transmit-marks :
    (ends : List ℕ) (busy : ℕ → Bool) (n mob j : ℕ) (p : Pv)
    → mob + n ≤ 16
    → j < 16
    → is_mob_marked_tx j (transmit ends busy n mob p).1
      ≡ (is_mob_marked_tx j p && (ltb j mob || (leb (mob + n) j || busy j)))
unfolding transmit
transmit-marks ends busy zero mob j p h hj = ground arith
transmit-marks ends busy (suc n) mob j p h hj =
    let cleared = (is_mob_marked_tx_lem mob j p (omega arith) hj).1 in
    let yes = transmit-marks ends busy n (mob + 1) j (clear_mark_tx_mob mob p) (omega arith) hj in
    let no = transmit-marks ends busy n (mob + 1) j p (omega arith) hj in
    elim (Bool-cases (is_mob_marked_tx mob p && not (busy mob))) [
      | inl e ↦ rw e (yes ∙ rw cleared (loop_step busy n mob j p true e))
      | inr e ↦ rw e (no ∙ loop_step busy n mob j p false e)
    ]
