-- ===== src/Therm/Rom.antt =====
-- `search` of bytd/src/OwThermNet.cpp, which finds the codes of the devices on the bus. The bits of a
-- ROM code are a list, those of the lower bytes first and within a byte the lower ones first.
use byt.Base.{
  ℕ, zero, suc, ◌+◌, ◌*◌, Bool, true, false, not, ◌&&◌, ◌||◌, Option, none, some, List, [], ◌∷◌,
  ◌++◌, ltb, ◌==◌, if◌then◌else◌, to_nat, get_or, take, drop,
}
use byt.Reku.Daemon.{check_crc}
use byt.Therm.{Link, Net, search_triplet, presence, write_simple_cmd}

-- The places of `last_branch` and `last_zero`, none for -1.
abbrev pub is_at : ℕ → Option ℕ → Bool
is_at bitidx none = false
is_at bitidx (some n) = bitidx == n

abbrev pub is_before : ℕ → Option ℕ → Bool
is_before bitidx none = false
is_before bitidx (some n) = ltb bitidx n

-- The direction asked for at a bit of the code.
unfoldable pub direction : ℕ → Option ℕ → Bool → Bool
direction bitidx last_branch old =
    if is_at bitidx last_branch then true else if is_before bitidx last_branch then old else false

-- The code's bits with one before them.
abbrev pub with_bit : Bool → Option (List Bool × Option ℕ) → Option (List Bool × Option ℕ)
with_bit b none = none
with_bit b (some x) = some (b ∷ x.0, x.1)

-- The loop over the bits of the code, from `bitidx`: the code's new bits and `last_zero`, or an error.
unfoldable pub scan :
    {S : Type 0}
    → Link S
    → ℕ
    → Option ℕ
    → Option ℕ
    → List Bool
    → Net S
    → Option (List Bool × Option ℕ) × Net S
unfolding direction search_triplet
scan l bitidx last_branch last_zero [] s = (some ([], last_zero), s)
scan l bitidx last_branch last_zero (old ∷ rest) s =
    let dir = direction bitidx last_branch old in
    let t = search_triplet l dir s in
    let zero_here = if t.0 == 0 && not dir then some bitidx else last_zero in
    let newval = if t.0 == 0 then dir else t.0 == 1 in
    let r = scan l (bitidx + 1) last_branch zero_here rest t.1 in
    if (is_at bitidx last_branch && not (t.0 == 0)) || t.0 == 3
    then (none, t.1)
    else (with_bit newval r.0, r.1)

-- The bytes of a list of bits.
unfoldable pub byte_of : List Bool → ℕ
byte_of [] = 0
byte_of (b ∷ r) = to_nat b + 2 * byte_of r

unfoldable pub code_bytes : ℕ → List Bool → List ℕ
unfolding byte_of
code_bytes zero bits = []
code_bytes (suc n) bits = byte_of (take 8 bits) ∷ code_bytes n (drop 8 bits)

-- `check_crc` of a ROM code.
unfoldable pub is_code_sound : List Bool → Bool
unfolding code_bytes check_crc
is_code_sound bits = let d = code_bytes 8 bits in check_crc (take 7 d) (get_or d 7 0)

-- A round of `search`: presence, the command, and the code's bits.
unfoldable pub round :
    {S : Type 0} → Link S → Option ℕ → List Bool → Net S → Option (List Bool × Option ℕ) × Net S
unfolding presence write_simple_cmd scan
round l last_branch rc s =
    let p = presence l s in
    let r = scan l 0 last_branch none rc (write_simple_cmd l 0xF0 false p.1) in
    if p.0 then r else (none, p.1)

unfoldable pub keep_sound : List Bool → List (List Bool) → List (List Bool)
unfolding is_code_sound
keep_sound rc found = if is_code_sound rc then found ++ rc ∷ [] else found

-- The loop of `search` on fuel, none when it runs out: the codes found in their order.
unfoldable pub search_loop :
    {S : Type 0}
    → Link S
    → ℕ
    → Option ℕ
    → List Bool
    → List (List Bool)
    → Net S
    → Option (List (List Bool))
unfolding round keep_sound
search_loop l zero last_branch rc found s = none
search_loop l (suc fuel) last_branch rc found s =
    let r = round l last_branch rc s in
    elim r.0 [
      | none ↦ some found
      | some x ↦
          let all = keep_sound x.0 found in
          elim x.1 [ none ↦ some all | some b ↦ search_loop l fuel (some b) x.0 all r.1 ]
    ]

abbrev pub zeros : ℕ → List Bool
zeros zero = []
zeros (suc n) = false ∷ zeros n

-- `search`, its code all zeros at first.
unfoldable pub search : {S : Type 0} → Link S → ℕ → Net S → Option (List (List Bool))
unfolding search_loop
search l fuel s = search_loop l fuel none (zeros 64) [] s
