-- ===== src/Meas/Publish.antt =====
-- What the temperature measurement publishes: the branch of a read scratchpad in
-- `measure_ow_temp_sm` of avr/fw/main.cpp.
use byt.Base.{
  ℕ, zero, suc, ◌+◌, ◌%◌, ◌<◌, ◌≡◌, ◌≢◌, inl, inr, refl, sym, ap, ◌∙◌, Bool, List, [], ◌∷◌, ◌++◌,
  take, length, ltb, ◌==◌, if◌then◌else◌, get_or, set, get_or-set_ne, ◌/◌, subst, All, Bool-cases,
  ==_iff, arith,
}
use byt.Crc.{crc_from}
use byt.Crc.OneWire.{IsByte, crc_from_single_byte}
use byt.Pv.{read_u16, write_u16}
use byt.Pv.Marks.{read_u16-write_u16}
use byt.Ow.Bus.{read_bits_ok}
use byt.Meas.{
  Meas, invalid_value, cur_obj, scratchpad_value, store_reading, on_reading_scratchpad, ow_relaxing,
  ow_initing_before_read, ow_reading_scratchpad, measure_ow_temp_sm, measure_in,
}

take-append_self : (bs xs : List ℕ) (n : ℕ) → length bs ≡ n → take n (bs ++ xs) ≡ bs
take-append_self [] xs zero h = refl
take-append_self [] xs (suc n) h = absurd (omega arith)
take-append_self (b ∷ bs) xs zero h = absurd (omega arith)
take-append_self (b ∷ bs) xs (suc n) h = ap (λ t. b ∷ t) (take-append_self bs xs n (omega arith))

get_or-append : (bs xs : List ℕ) (c n : ℕ) → length bs ≡ n → get_or (bs ++ c ∷ xs) n 0 ≡ c
get_or-append [] xs c zero h = refl
get_or-append [] xs c (suc n) h = absurd (omega arith)
get_or-append (b ∷ bs) xs c zero h = absurd (omega arith)
get_or-append (b ∷ bs) xs c (suc n) h = get_or-append bs xs c n (omega arith)

read_first : (bs xs : List ℕ) → length bs ≡ 8 → read_u16 (bs ++ xs) 0 ≡ read_u16 bs 0
unfolding read_u16
read_first [] xs h = absurd (omega arith)
read_first (a ∷ []) xs h = absurd (omega arith)
read_first (a ∷ b ∷ bs) xs h = refl

-- The value of a buffer that begins with eight bytes and a ninth.
value_of :
    (bs rest : List ℕ) (crc : ℕ)
    → length bs ≡ 8
    → scratchpad_value (bs ++ crc ∷ rest)
      ≡ (if crc_from 0 bs == crc then read_u16 bs 0 else invalid_value)
unfolding scratchpad_value
value_of bs rest crc h =
    rw
      (
        take-append_self bs (crc ∷ rest) 8 h,
        get_or-append bs rest crc 8 h,
        read_first bs (crc ∷ rest) h,
      )
      refl

length-middle :
    (pre post : List ℕ) (b : ℕ) → length (pre ++ b ∷ post) ≡ suc (length pre + length post)
length-middle [] post b = omega arith
length-middle (x ∷ pre) post b = omega (arith, length-middle pre post b)

-- A scratchpad of eight bytes with the checksum that the sensor computes over them gives the
-- temperature in its first two bytes; once one of the eight bytes has been changed in transfer it
-- gives the invalid value.
pub scratchpad_value_corrupted :
    (pre post rest : List ℕ) (b c : ℕ)
    → All IsByte pre
    → All IsByte post
    → IsByte b
    → IsByte c
    → length pre + length post ≡ 7
    → b ≢ c
    → (scratchpad_value ((pre ++ b ∷ post) ++ crc_from 0 (pre ++ b ∷ post) ∷ rest)
        ≡ read_u16 (pre ++ b ∷ post) 0)
      × (scratchpad_value ((pre ++ c ∷ post) ++ crc_from 0 (pre ++ b ∷ post) ∷ rest)
          ≡ invalid_value)
scratchpad_value_corrupted pre post rest b c hpre hpost hb hc len ne =
    let eight = λ (x : ℕ). length-middle pre post x ∙ ap suc len in
    (
      value_of (pre ++ b ∷ post) rest _ (eight b) ∙ ground arith,
      value_of (pre ++ c ∷ post) rest _ (eight c)
          ∙ elim (Bool-cases (crc_from 0 (pre ++ c ∷ post) == crc_from 0 (pre ++ b ∷ post))) [
            | inl e ↦ absurd (
                ne (
                  sym (
                    crc_from_single_byte pre post c b 0 (omega arith) hpre hpost hc hb
                      ((==_iff _ _).0 e))))
            | inr e ↦ rw e refl
          ],
    )

scratchpad_value_fits :
    (d : List ℕ) → get_or d 0 0 < 256 → get_or d 1 0 < 256 → scratchpad_value d < 65536
unfolding scratchpad_value read_u16
scratchpad_value_fits d h0 h1 = ground arith

get_or-write_u16_ne :
    (d : List ℕ) (i j v : ℕ) → i ≢ j → (i + 1) ≢ j → get_or (write_u16 d i v) j 0 ≡ get_or d j 0
unfolding write_u16
get_or-write_u16_ne d i j v h k =
    get_or-set_ne (set d i (v % 256)) (i + 1) j (v / 256 % 256) 0 k
    ∙ get_or-set_ne d i j (v % 256) 0 h

-- What a read that went well leaves of the image.
stored_value :
    (now : ℕ) (active : Bool) (j : ℕ) (s : Meas)
    → s.state ≡ ow_reading_scratchpad
    → s.ow.response_code ≡ read_bits_ok
    → (cur_obj s).iodata_idx + 1 < length s.pv.io_data
    → get_or s.ow.ow_data 0 0 < 256
    → get_or s.ow.ow_data 1 0 < 256
    → (cur_obj s).iodata_idx ≢ j
    → ((cur_obj s).iodata_idx + 1) ≢ j
    → let r = measure_ow_temp_sm now active s in
      (read_u16 r.pv.io_data (cur_obj s).iodata_idx ≡ scratchpad_value s.ow.ow_data)
      × (get_or r.pv.io_data j 0 ≡ get_or s.pv.io_data j 0)
      × (r.state ≡ (
          if ltb ((s.cur_sensor_idx + 1) % 256) s.ow_t_count
          then ow_initing_before_read
          else ow_relaxing))
unfolding measure_ow_temp_sm measure_in on_reading_scratchpad store_reading
stored_value now active j s hs hr hi h0 h1 hj hk =
    let fits = scratchpad_value_fits s.ow.ow_data h0 h1 in
    let v = scratchpad_value s.ow.ow_data in
    let back = read_u16-write_u16 s.pv.io_data (cur_obj s).iodata_idx v hi fits in
    let other = get_or-write_u16_ne s.pv.io_data (cur_obj s).iodata_idx j v hj hk in
    rw hs (
      rw hr
        (elim (Bool-cases
          (read_u16 s.pv.io_data (cur_obj s).iodata_idx == scratchpad_value s.ow.ow_data)) [
            | inl e ↦ rw e (
                ground (
                  arith,
                  (==_iff (read_u16 s.pv.io_data (cur_obj s).iodata_idx)
                        (scratchpad_value s.ow.ow_data)).0
                      e,
                ))
            | inr e ↦ rw e (ground (arith, back, other))
          ]))

-- The sensor sends eight bytes and their checksum, and the seventy-two bits have been read with at most
-- one of the eight bytes changed (`c` in place of `b`). Then the image holds the temperature of the
-- first two bytes for the current sensor if the byte is unchanged, and the invalid value if it is
-- not. Every other byte of the image is as before, and the round goes on with the next sensor of the
-- table or ends after the last.
pub measure_publishes :
    (now : ℕ) (active : Bool) (j : ℕ) (s : Meas) (pre post rest : List ℕ) (b c : ℕ)
    → s.state ≡ ow_reading_scratchpad
    → s.ow.response_code ≡ read_bits_ok
    → s.ow.ow_data ≡ (pre ++ c ∷ post) ++ crc_from 0 (pre ++ b ∷ post) ∷ rest
    → length pre + length post ≡ 7
    → All IsByte pre
    → All IsByte post
    → IsByte b
    → IsByte c
    → get_or s.ow.ow_data 0 0 < 256
    → get_or s.ow.ow_data 1 0 < 256
    → (cur_obj s).iodata_idx + 1 < length s.pv.io_data
    → (cur_obj s).iodata_idx ≢ j
    → ((cur_obj s).iodata_idx + 1) ≢ j
    → let r = measure_ow_temp_sm now active s in
      (read_u16 r.pv.io_data (cur_obj s).iodata_idx
        ≡ (if b == c then read_u16 (pre ++ b ∷ post) 0 else invalid_value))
      × (get_or r.pv.io_data j 0 ≡ get_or s.pv.io_data j 0)
      × (r.state ≡ (
          if ltb ((s.cur_sensor_idx + 1) % 256) s.ow_t_count
          then ow_initing_before_read
          else ow_relaxing))
measure_publishes now active j s pre post rest b c hs hr hd len hpre hpost hb hc h0 h1 hi hj hk =
    let f = stored_value now active j s hs hr hi h0 h1 hj hk in
    let first = f.0 ∙ ap scratchpad_value hd in
    elim (Bool-cases (b == c)) [
      | inl e ↦
          let same : b ≡ c = (==_iff b c).0 e in
          rw e (
            first
                ∙ subst
                    (λ x.
                      scratchpad_value ((pre ++ x ∷ post) ++ crc_from 0 (pre ++ b ∷ post) ∷ rest)
                      ≡ read_u16 (pre ++ b ∷ post) 0)
                    same
                    (value_of (pre ++ b ∷ post) rest _ (length-middle pre post b ∙ ap suc len)
                      ∙ ground arith),
            f.1,
            f.2,
          )
      | inr e ↦ rw e (
        first
            ∙ (scratchpad_value_corrupted pre post rest b c hpre hpost hb hc len
                (λ q. absurd (ground (arith, e, q)))).1,
        f.1,
        f.2,
      )
    ]
