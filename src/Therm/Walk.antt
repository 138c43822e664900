-- ===== src/Therm/Walk.antt =====
-- The order in which the search goes through the codes of the devices.
use byt.Base.{
  ℕ, zero, suc, ◌+◌, Bool, true, false, not, ◌&&◌, ◌||◌, Option, none, some, List, [], ◌∷◌, ◌++◌,
  map, ◌==◌, if◌then◌else◌, ◌≡◌, refl, sym, ap, ◌∙◌,
}
use byt.Therm.Rom.{direction, is_at, with_bit}
use byt.Therm.Bus.{follow, choose, result, pass}

-- A code and the last zero at which the search can turn.
abbrev pub Entry : Type 0
Entry = List Bool × Option ℕ

abbrev pub or_else : Option ℕ → Option ℕ → Option ℕ
or_else none d = d
or_else (some p) d = some p

abbrev pub put : Bool → Option ℕ → Entry → Entry
put b d x = (b ∷ x.0, or_else x.1 d)

abbrev pub puts : Bool → Option ℕ → Option Entry → Option Entry
puts b d none = none
puts b d (some x) = some (put b d x)

abbrev pub mark : ℕ → List (List Bool) → Option ℕ
mark i [] = none
mark i (x ∷ ones) = some i

-- The different codes of `n` bits in a list, those with a zero in the first bit before those with a one,
-- and so on from bit to bit.
unfoldable pub codes : ℕ → List (List Bool) → List (List Bool)
codes n [] = []
codes zero (c ∷ d) = [] ∷ []
codes (suc n) (c ∷ d) =
    map (λ r. false ∷ r) (codes n (follow false (c ∷ d)))
    ++ map (λ r. true ∷ r) (codes n (follow true (c ∷ d)))

-- The same with the last zeros, from a bit of the codes on.
unfoldable pub walk : ℕ → ℕ → List (List Bool) → List Entry
walk n i [] = []
walk zero i (c ∷ d) = ([], none) ∷ []
walk (suc n) i (c ∷ d) =
    map (put false (mark i (follow true (c ∷ d)))) (walk n (i + 1) (follow false (c ∷ d)))
    ++ map (put true none) (walk n (i + 1) (follow true (c ∷ d)))

-- The code after one, from a bit of the codes on.
abbrev pub next : ℕ → List (List Bool) → Option ℕ → List Bool → Option Entry
next i d lb old = (pass i lb none old d).0

refill : Option ℕ → Option Entry → Option Entry
refill lz none = none
refill lz (some x) = some (x.0, or_else x.1 lz)

refill_twice :
    (a : ℕ) (lz : Option ℕ) (x : Option Entry) → refill lz (refill (some a) x) ≡ refill (some a) x
unfolding refill
refill_twice a lz none = refl
refill_twice a lz (some (c, none)) = refl
refill_twice a lz (some (c, some p)) = refl

with_bit-refill :
    (b : Bool) (lz : Option ℕ) (x : Option Entry)
    → with_bit b (refill lz x) ≡ refill lz (with_bit b x)
unfolding refill
with_bit-refill b lz none = refl
with_bit-refill b lz (some x) = refl

with_bit-puts : (b : Bool) (d : Option ℕ) (x : Option Entry) → with_bit b (refill d x) ≡ puts b d x
unfolding refill
with_bit-puts b d none = refl
with_bit-puts b d (some x) = refl

abbrev ended :
    Bool → List (List Bool) → Option Entry × List (List Bool) → Option Entry × List (List Bool)
ended stop d r = if stop then (none, d) else r

refill_if :
    (stop b : Bool) (lz : Option ℕ) (r r' : Option Entry × List (List Bool)) (d : List (List Bool))
    → r'.0 ≡ refill lz r.0
    → (ended stop d (with_bit b r'.0, r'.1)).0 ≡ refill lz (ended stop d (with_bit b r.0, r.1)).0
unfolding refill
refill_if true b lz r r' d h = refl
refill_if false b lz r r' d h = ap (with_bit b) h ∙ with_bit-refill b lz r.0

refilled :
    (here : Bool) (i : ℕ) (lz : Option ℕ) (f : Option ℕ → Option Entry)
    → ((z : Option ℕ) → f z ≡ refill z (f none))
    → f (if here then some i else lz) ≡ refill lz (f (if here then some i else none))
refilled true i lz f h =
    h (some i) ∙ sym (refill_twice i lz (f none)) ∙ sym (ap (refill lz) (h (some i)))
refilled false i lz f h = h lz

-- The last zero that `pass` begins with is only kept.
pass-last :
    (i : ℕ) (lb lz : Option ℕ) (old : List Bool) (d : List (List Bool))
    → (pass i lb lz old d).0 ≡ refill lz (next i d lb old)
unfolding pass refill
pass-last i lb lz [] d = refl
pass-last i lb lz (old ∷ rest) d =
    let dir = direction i lb old in
    let res = result (follow false d) (follow true d) in
    let left = (choose dir (follow false d) (follow true d)).1 in
    refill_if ((is_at i lb && not (res == 0)) || res == 3) (if res == 0 then dir else res == 1) lz
      (pass (i + 1) lb (if res == 0 && not dir then some i else none) rest left)
      (pass (i + 1) lb (if res == 0 && not dir then some i else lz) rest left) left
      (refilled (res == 0 && not dir) i lz (λ z. (pass (i + 1) lb z rest left).0)
        (λ z. pass-last (i + 1) lb z rest left))

-- A step of `pass`, by what it depends on.
pub stepped :
    Bool → Bool → ℕ → Option ℕ → List Bool → List (List Bool) → List (List Bool) → Option Entry
stepped at dir i lb rest a b =
    let res = result a b in
    let left = (choose dir a b).1 in
    let r = pass (i + 1) lb (if res == 0 && not dir then some i else none) rest left in
    (ended ((at && not (res == 0)) || res == 3) left
      (with_bit (if res == 0 then dir else res == 1) r.0, r.1)).0

pub next-stepped :
    (i : ℕ) (lb : Option ℕ) (old : Bool) (rest : List Bool) (d : List (List Bool))
    → next i d lb (old ∷ rest)
      ≡ stepped (is_at i lb) (direction i lb old) i lb rest (follow false d) (follow true d)
unfolding pass stepped
next-stepped i lb old rest d = refl

pub taken0 :
    (i : ℕ) (lb : Option ℕ) (rest : List Bool) (x : List Bool) (xs b : List (List Bool))
    → stepped false false i lb rest (x ∷ xs) b
      ≡ puts false (mark i b) (next (i + 1) (x ∷ xs) lb rest)
unfolding stepped choose
taken0 i lb rest x xs [] =
    ap (with_bit false) (pass-last (i + 1) lb none rest (x ∷ xs))
    ∙ with_bit-puts false none (next (i + 1) (x ∷ xs) lb rest)
taken0 i lb rest x xs (y ∷ ys) =
    ap (with_bit false) (pass-last (i + 1) lb (some i) rest (x ∷ xs))
    ∙ with_bit-puts false (some i) (next (i + 1) (x ∷ xs) lb rest)

pub taken1 :
    (dir : Bool) (i : ℕ) (lb : Option ℕ) (rest : List Bool) (y : List Bool) (ys : List (List Bool))
    → stepped false dir i lb rest [] (y ∷ ys) ≡ puts true none (next (i + 1) (y ∷ ys) lb rest)
unfolding stepped choose
taken1 true i lb rest y ys =
    ap (with_bit true) (pass-last (i + 1) lb none rest (y ∷ ys))
    ∙ with_bit-puts true none (next (i + 1) (y ∷ ys) lb rest)
taken1 false i lb rest y ys =
    ap (with_bit true) (pass-last (i + 1) lb none rest (y ∷ ys))
    ∙ with_bit-puts true none (next (i + 1) (y ∷ ys) lb rest)

pub turned :
    (at : Bool) (i : ℕ) (lb : Option ℕ) (rest : List Bool) (x y : List Bool)
    (xs ys : List (List Bool))
    → stepped at true i lb rest (x ∷ xs) (y ∷ ys) ≡ puts true none (next (i + 1) (y ∷ ys) lb rest)
unfolding stepped choose
turned true i lb rest x y xs ys =
    ap (with_bit true) (pass-last (i + 1) lb none rest (y ∷ ys))
    ∙ with_bit-puts true none (next (i + 1) (y ∷ ys) lb rest)
turned false i lb rest x y xs ys =
    ap (with_bit true) (pass-last (i + 1) lb none rest (y ∷ ys))
    ∙ with_bit-puts true none (next (i + 1) (y ∷ ys) lb rest)
