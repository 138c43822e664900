-- ===== src/Can/Items.antt =====
-- The items of bytd/src/candata.cpp and the process image of avr/fw/main.cpp at the two ends of a
-- frame.
use byt.Base.{
  ℕ, zero, suc, ◌+◌, ◌-◌, ◌*◌, ◌^◌, ◌<◌, ◌≤◌, ◌≡◌, inl, inr, refl, sym, ap, ap₂, subst, ◌∙◌, Bool,
  true, false, not, ◌&&◌, List, [], ◌∷◌, drop, ◌==◌, ==_iff, ltb, leb, if◌then◌else◌, length,
  length-set, length-take, get_or, set, get_or-set_self, get_or-set_ne, Bool-cases, if-true,
  set_bits, clear_bits, has_bits, has_bits_written, arith,
}
use byt.Pv.{Pv, read_u16}
use byt.Io.Debounce.{image_bit}
use byt.Io.Mobs.{begin_idx, end_idx, receive, frame_of}
use byt.Io.Frames.{get_or-take, receive_lem}
use byt.Can.{dig_out, digi_in, word_in, update_data, on_data}

receive_at :
    (ends : List ℕ) (mob dlc o : ℕ) (bytes : List ℕ) (p : Pv)
    → dlc ≤ length bytes
    → o < dlc
    → begin_idx ends mob + o < end_idx ends mob
    → begin_idx ends mob + o < length p.io_data
    → get_or (receive ends mob dlc bytes p).io_data (begin_idx ends mob + o) 0 ≡ get_or bytes o 0
receive_at ends mob dlc o bytes p h inside fits in_image =
    let at = receive_lem ends mob dlc bytes p (begin_idx ends mob + o) h in_image in
    let back : begin_idx ends mob + o - begin_idx ends mob ≡ o = omega arith in
    at
    ∙ if-true
        (leb (begin_idx ends mob) (begin_idx ends mob + o)
          && (ltb (begin_idx ends mob + o) (end_idx ends mob)
              && ltb (begin_idx ends mob + o - begin_idx ends mob) dlc))
        _ _ (ground (arith, back, fits, inside))
    ∙ ap (λ q. get_or bytes q 0) back

-- A bit that the daemon sets in an output's frame is the bit of the node's process image when the
-- frame has been received, and every other bit that the frame carries comes over as it was in the
-- frame.
pub dig_out-image :
    (ends : List ℕ) (mob dlc offset o k j : ℕ) (v : Bool) (d : List ℕ) (p : Pv)
    → k < 8
    → j < 8
    → dlc ≤ length d
    → offset < dlc
    → o < dlc
    → begin_idx ends mob + o < end_idx ends mob
    → begin_idx ends mob + o < length p.io_data
    → image_bit
        (begin_idx ends mob + o)
        (2 ^ j)
        (receive ends mob dlc (update_data (dig_out (2 ^ k) offset v) d) p)
      ≡ (if (offset == o) && (k == j) then v else has_bits (get_or d o 0) (2 ^ j))
unfolding image_bit update_data has_bits
dig_out-image ends mob dlc offset o k j v d p hk hj h ho ho' fits inside =
    let b =
      if v then set_bits (get_or d offset 0) (2 ^ k) else clear_bits (get_or d offset 0) (2 ^ k) in
    let long : dlc ≤ length (set d offset b) = omega (arith, h, length-set d offset b) in
    let byte = receive_at ends mob dlc o (set d offset b) p long ho' fits inside in
    ap (λ q. has_bits q (2 ^ j)) byte ∙ elim (Bool-cases (offset == o)) [
      | inl e ↦
          let self : get_or (set d offset b) o 0 ≡ b =
            subst (λ i. get_or (set d offset b) i 0 ≡ b) ((==_iff offset o).0 e)
              (get_or-set_self d offset b 0 (omega (arith, h, ho))) in
          let written = has_bits_written v (get_or d offset 0) k j hk hj in
          ap (λ q. has_bits q (2 ^ j)) self
          ∙ written
          ∙ ap (λ i. if k == j then v else has_bits (get_or d i 0) (2 ^ j)) ((==_iff offset o).0 e)
          ∙ ap (λ (c : Bool). if c && (k == j) then v else has_bits (get_or d o 0) (2 ^ j)) (sym e)
      | inr e ↦
          let other : get_or (set d offset b) o 0 ≡ get_or d o 0 =
            get_or-set_ne d offset o b 0 (λ i. absurd (ground (arith, e, i))) in
          ap (λ q. has_bits q (2 ^ j)) other
          ∙ ap (λ (c : Bool). if c && (k == j) then v else has_bits (get_or d o 0) (2 ^ j)) (sym e)
    ]

skip : (n i : ℕ) (xs : List ℕ) → get_or (drop n xs) i 0 ≡ get_or xs (n + i) 0
skip zero i xs = ap (λ q. get_or xs q 0) (omega arith)
skip (suc n) i [] = refl
skip (suc n) i (x ∷ xs) =
    let e : suc (n + i) ≡ suc n + i = omega arith in skip n i xs ∙ ap (λ q. get_or (x ∷ xs) q 0) e

length-drop : (n : ℕ) (xs : List ℕ) → length (drop n xs) ≡ length xs - n
length-drop zero xs = omega arith
length-drop (suc n) [] = omega arith
length-drop (suc n) (x ∷ xs) = omega (arith, length-drop n xs)

sent_at :
    (ends : List ℕ) (mob o : ℕ) (p : Pv)
    → begin_idx ends mob + o < end_idx ends mob
    → get_or (frame_of ends mob p).bytes o 0 ≡ get_or p.io_data (begin_idx ends mob + o) 0
unfolding frame_of
sent_at ends mob o p h =
    let b = begin_idx ends mob in
    get_or-take (end_idx ends mob - b) o (drop b p.io_data) (omega (arith, h)) ∙ skip b o p.io_data

notified :
    (inside v old : Bool) (mask offset : ℕ) (changed : List Bool)
    → inside ≡ true
    → (if inside && not (if v then old else not old)
        then digi_in mask offset v (v ∷ changed)
        else digi_in mask offset old changed)
      ≡ digi_in mask offset v (if (if v then old else not old) then changed else v ∷ changed)
notified true true true mask offset changed h = refl
notified true true false mask offset changed h = refl
notified true false true mask offset changed h = refl
notified true false false mask offset changed h = refl
notified false v old mask offset changed h = absurd (ground (arith, h))

length-frame_of :
    (ends : List ℕ) (mob : ℕ) (p : Pv)
    → end_idx ends mob ≤ length p.io_data
    → length (frame_of ends mob p).bytes ≡ end_idx ends mob - begin_idx ends mob
unfolding frame_of
length-frame_of ends mob p h =
    let b = begin_idx ends mob in
    length-take (end_idx ends mob - b) (drop b p.io_data)
    ∙ omega (arith, h, length-drop b p.io_data)

-- A switch takes the bit of the image if its byte is in the frame.
digi_in-image :
    (ends : List ℕ) (mob mask offset : ℕ) (old : Bool) (changed : List Bool) (p : Pv)
    → end_idx ends mob ≤ length p.io_data
    → let f = (frame_of ends mob p).bytes in
      let v = image_bit (begin_idx ends mob + offset) mask p in
      on_data f (length f) (digi_in mask offset old changed) ≡ (
        if ltb (begin_idx ends mob + offset) (end_idx ends mob)
        then digi_in mask offset v (if (if v then old else not old) then changed else v ∷ changed)
        else digi_in mask offset old changed)
unfolding on_data image_bit has_bits
digi_in-image ends mob mask offset old changed p len =
    let f = (frame_of ends mob p).bytes in
    let size = length-frame_of ends mob p len in
    elim (Bool-cases (ltb (begin_idx ends mob + offset) (end_idx ends mob))) [
      | inl e ↦ rw e (
          notified (ltb offset (length f)) (has_bits (get_or f offset 0) mask) old mask offset
            changed (ground (arith, size, e))
          ∙ ap
              (λ q.
                (let v = has_bits q mask in
                  digi_in mask offset v
                    (if (if v then old else not old) then changed else v ∷ changed)))
              (sent_at ends mob offset p (ground (arith, e))))
      | inr e ↦
          let out : ltb offset (length f) ≡ false = ground (arith, size, e) in rw (e, out) refl
    ]

-- A sensor takes the word of the image if both its bytes are in the frame.
word_in-image :
    (ends : List ℕ) (mob offset : ℕ) (values : List ℕ) (p : Pv)
    → end_idx ends mob ≤ length p.io_data
    → let f = (frame_of ends mob p).bytes in
      on_data f (length f) (word_in offset values) ≡ (
        if ltb (begin_idx ends mob + offset + 1) (end_idx ends mob)
        then word_in offset (read_u16 p.io_data (begin_idx ends mob + offset) ∷ values)
        else word_in offset values)
unfolding on_data read_u16
word_in-image ends mob offset values p len =
    let f = (frame_of ends mob p).bytes in
    let size = length-frame_of ends mob p len in
    elim (Bool-cases (ltb (begin_idx ends mob + offset + 1) (end_idx ends mob))) [
      | inl e ↦
          let h : begin_idx ends mob + offset + 1 < end_idx ends mob = ground (arith, e) in
          let here = sent_at ends mob offset p (omega (arith, h)) in
          let above = sent_at ends mob (offset + 1) p (omega (arith, h)) in
          rw e (
            if-true (leb (offset + 2) (length f)) _ _ (ground (arith, size, h))
            ∙ ap₂ (λ q r. word_in offset ((q + 256 * r) ∷ values)) here
                (above ∙ ap (λ q. get_or p.io_data q 0) (omega arith)))
      | inr e ↦
          let out : leb (offset + 2) (length f) ≡ false = ground (arith, size, e) in
          rw (e, out) refl
    ]

-- The daemon takes in a frame that the node sent, the object lying inside the image. A switch whose
-- byte is in the object gets the value of the bit in the node's process image and is notified exactly
-- if the value is new; a sensor whose two bytes are in the object gets the 16-bit value that the image
-- holds. An item that does not lie in the object stays as it was.
pub on_data-image :
    (ends : List ℕ) (mob mask offset : ℕ) (old : Bool) (changed : List Bool) (values : List ℕ)
    (p : Pv)
    → end_idx ends mob ≤ length p.io_data
    → let f = (frame_of ends mob p).bytes in
      let v = image_bit (begin_idx ends mob + offset) mask p in
      (on_data f (length f) (digi_in mask offset old changed) ≡ (
        if ltb (begin_idx ends mob + offset) (end_idx ends mob)
        then digi_in mask offset v (if (if v then old else not old) then changed else v ∷ changed)
        else digi_in mask offset old changed))
      × (on_data f (length f) (word_in offset values) ≡ (
          if ltb (begin_idx ends mob + offset + 1) (end_idx ends mob)
          then word_in offset (read_u16 p.io_data (begin_idx ends mob + offset) ∷ values)
          else word_in offset values))
on_data-image ends mob mask offset old changed values p len = (
  digi_in-image ends mob mask offset old changed p len,
  word_in-image ends mob offset values p len,
)
