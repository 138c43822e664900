-- ===== src/Therm/Bus.antt =====
-- A bus with devices that answer as the real-time unit reports them (pru/ow_sm.c): the reset selects all
-- of them, a step of the search those that have the bit sent.
use byt.Base.{
  ℕ, ◌+◌, Bool, true, false, not, ◌&&◌, ◌||◌, Option, none, some, List, [], ◌∷◌, ◌++◌, ◌==◌,
  if◌then◌else◌, ◌≡◌, refl, ap, ◌∙◌,
}
use byt.Therm.{
  Link, Net, word_bytes, word_at, search_triplet, request, response, fits, triplet_result,
}
use byt.Therm.Rom.{direction, is_at, scan, with_bit}

pub record Devices : Type 0 where
  pub all : List (List Bool)
  pub selected : List (List Bool)  -- the bits not yet searched

-- The rest of the codes that begin with a bit.
abbrev pub follow : Bool → List (List Bool) → List (List Bool)
follow v [] = []
follow v ([] ∷ d) = follow v d
follow true ((true ∷ r) ∷ d) = r ∷ follow true d
follow true ((false ∷ r) ∷ d) = follow true d
follow false ((true ∷ r) ∷ d) = follow false d
follow false ((false ∷ r) ∷ d) = r ∷ follow false d

-- The answer and what stays selected, by what the two bits can be.
unfoldable pub choose : Bool → List (List Bool) → List (List Bool) → ℕ × List (List Bool)
choose dir [] [] = (12, [])
choose dir [] (x ∷ ones) = (10, x ∷ ones)
choose dir (x ∷ xs) [] = (11, x ∷ xs)
choose true (x ∷ xs) (y ∷ ones) = (13, y ∷ ones)
choose false (x ∷ xs) (y ∷ ones) = (13, x ∷ xs)

unfoldable pub step : Bool → Devices → List ℕ × Devices
unfolding choose word_bytes
step dir b =
    let c = choose dir (follow false b.selected) (follow true b.selected) in
    (word_bytes c.0, record b { selected = c.1 })

-- The answer to the reset.
abbrev pub present : List (List Bool) → ℕ
present [] = 4
present (d ∷ ds) = 1

-- The answer to a message: the reset, a step of the search, a command.
unfoldable pub answer : List ℕ → Devices → List ℕ × Devices
unfolding step word_at word_bytes
answer d b =
    let s = step (word_at d == 3) b in
    if word_at d == 1
    then (word_bytes (present b.all) ++ word_bytes 0, record b { selected = b.all })
    else if word_at d == 4
    then (word_bytes 8, b)
    else s

abbrev pub bus : Link Devices
bus = record { clear = λ b. b; exchange = answer }

-- A state of the daemon over such a bus.
abbrev pub net : List ℕ → List (List Bool) → List (List Bool) → Net Devices
net m ds sel = record { msg = m; bus = record { all = ds; selected = sel } }

-- The result of a step, as `search_triplet` numbers it.
abbrev pub result : List (List Bool) → List (List Bool) → ℕ
result [] [] = 3
result [] (x ∷ ones) = 1
result (x ∷ xs) [] = 2
result (x ∷ xs) (y ∷ ones) = 0

-- The request of a step, the two lists given.
told : Bool → List (List Bool) → List (List Bool) → List ℕ → List (List Bool) → ℕ × Net Devices
told dir a b m ds =
    let c = choose dir a b in (triplet_result (response (word_bytes c.0)), net m ds c.1)

told_eq :
    (dir : Bool) (a b : List (List Bool)) (m : List ℕ) (ds : List (List Bool))
    → told dir a b m ds ≡ (result a b, net m ds (choose dir a b).1)
unfolding told choose word_bytes triplet_result response fits word_at
told_eq true [] [] m ds = refl
told_eq false [] [] m ds = refl
told_eq true [] (x ∷ ones) m ds = refl
told_eq false [] (x ∷ ones) m ds = refl
told_eq true (x ∷ xs) [] m ds = refl
told_eq false (x ∷ xs) [] m ds = refl
told_eq true (x ∷ xs) (y ∷ ones) m ds = refl
told_eq false (x ∷ xs) (y ∷ ones) m ds = refl

asked :
    (dir : Bool) (m : List ℕ) (ds sel : List (List Bool))
    → search_triplet bus dir (net m ds sel) ≡ told dir (follow false sel) (follow true sel) m ds
unfolding told search_triplet request answer step word_at word_bytes
asked true m ds sel = refl
asked false m ds sel = refl

-- The direction that a step of the search asks for decides only where both bits occur.
pub search_triplet-bus :
    (dir : Bool) (m : List ℕ) (ds sel : List (List Bool))
    → search_triplet bus dir (net m ds sel) ≡ (
      result (follow false sel) (follow true sel),
      net m ds (choose dir (follow false sel) (follow true sel)).1,
    )
search_triplet-bus dir m ds sel =
    asked dir m ds sel ∙ told_eq dir (follow false sel) (follow true sel) m ds

-- `scan` over such a bus: the code, the last zero, and what is selected at the end.
unfoldable pub pass :
    ℕ
    → Option ℕ
    → Option ℕ
    → List Bool
    → List (List Bool)
    → Option (List Bool × Option ℕ) × List (List Bool)
unfolding choose direction
pass i lb lz [] sel = (some ([], lz), sel)
pass i lb lz (old ∷ rest) sel =
    let dir = direction i lb old in
    let res = result (follow false sel) (follow true sel) in
    let next = (choose dir (follow false sel) (follow true sel)).1 in
    let zero_here = if res == 0 && not dir then some i else lz in
    let newval = if res == 0 then dir else res == 1 in
    let r = pass (i + 1) lb zero_here rest next in
    if (is_at i lb && not (res == 0)) || res == 3 then (none, next) else (with_bit newval r.0, r.1)

over :
    List ℕ
    → List (List Bool)
    → Option (List Bool × Option ℕ) × List (List Bool)
    → Option (List Bool × Option ℕ) × Net Devices
over m ds p = (p.0, net m ds p.1)

-- What follows the answer to a step.
after :
    ℕ
    → Option ℕ
    → Option ℕ
    → Bool
    → List Bool
    → ℕ × Net Devices
    → Option (List Bool × Option ℕ) × Net Devices
after i lb lz dir rest t =
    let zero_here = if t.0 == 0 && not dir then some i else lz in
    let newval = if t.0 == 0 then dir else t.0 == 1 in
    let r = scan bus (i + 1) lb zero_here rest t.1 in
    if (is_at i lb && not (t.0 == 0)) || t.0 == 3 then (none, t.1) else (with_bit newval r.0, r.1)

finished :
    (stop newval : Bool) (m : List ℕ) (ds next : List (List Bool))
    (r : Option (List Bool × Option ℕ) × Net Devices)
    (p : Option (List Bool × Option ℕ) × List (List Bool))
    → r ≡ over m ds p
    → (if stop then (none, net m ds next) else (with_bit newval r.0, r.1))
      ≡ over m ds (if stop then (none, next) else (with_bit newval p.0, p.1))
unfolding over
finished true newval m ds next r p h = refl
finished false newval m ds next r p h =
    ap (λ (q : Option (List Bool × Option ℕ) × Net Devices). (with_bit newval q.0, q.1)) h

pub scan-bus :
    (i : ℕ) (lb lz : Option ℕ) (old : List Bool) (m : List ℕ) (ds sel : List (List Bool))
    → scan bus i lb lz old (net m ds sel)
      ≡ ((pass i lb lz old sel).0, net m ds (pass i lb lz old sel).1)
unfolding scan pass over after
scan-bus i lb lz [] m ds sel = refl
scan-bus i lb lz (old ∷ rest) m ds sel =
    let dir = direction i lb old in
    let res = result (follow false sel) (follow true sel) in
    let next = (choose dir (follow false sel) (follow true sel)).1 in
    ap (after i lb lz dir rest) (search_triplet-bus dir m ds sel)
    ∙ finished ((is_at i lb && not (res == 0)) || res == 3) (if res == 0 then dir else res == 1) m
        ds next
        (scan bus (i + 1) lb (if res == 0 && not dir then some i else lz) rest (net m ds next))
        (pass (i + 1) lb (if res == 0 && not dir then some i else lz) rest next)
        (scan-bus (i + 1) lb (if res == 0 && not dir then some i else lz) rest m ds next)
