-- ===== src/Therm/Chain.antt =====
-- Chains of entries, each of which gives the next one, and where a search can stand in them.
use byt.Base.{
  ℕ, suc, ◌+◌, ◌≤◌, ◌<◌, Bool, true, false, Option, none, some, List, [], ◌∷◌, ◌++◌, map, length,
  ◌≡◌, refl, ap, arith, All,
}
use byt.Therm.Rom.{direction, is_at}
use byt.Therm.Walk.{Entry, or_else, put, next}

-- A chain of entries from a code with its last zero: each gives the next one, and the last has the
-- last zero `e`.
pub data Chain (N : Option ℕ → List Bool → Option Entry) (i n : ℕ) (e : Option ℕ)
    : List Bool → Option ℕ → List Entry → Type 0 where
  last : {c : List Bool} → length c ≡ n → Chain N i n e c e []
  more :
      {c : List Bool} {y : Entry} {r : List Entry} (p : ℕ)
      → i ≤ p
      → N (some p) c ≡ some y
      → Chain N i n e y.0 y.1 r
      → Chain N i n e c (some p) (y ∷ r)

-- The last branch is before a bit.
abbrev pub Past : ℕ → Option ℕ → Type 0
Past i none = Unit {0}
Past i (some p) = p < i

abbrev pub Sized : ℕ → List (List Bool) → Type 0
Sized n = All (λ c. length c ≡ n)

abbrev pub is_cons : List (List Bool) → Bool
is_cons [] = false
is_cons (x ∷ d) = true

-- The search begins with an entry.
abbrev pub Begins : ℕ → ℕ → List (List Bool) → Entry → Type 0
Begins i n d x = (lb : Option ℕ) (c : List Bool) → Past i lb → length c ≡ n → next i d lb c ≡ some x

-- The search goes through the entries of a list.
abbrev pub Visits : ℕ → ℕ → List (List Bool) → List Entry → Type 0
Visits i n d [] = d ≡ []
Visits i n d (x ∷ r) = Begins i n d x × Chain (next i d) i n none x.0 x.1 r × (is_cons d ≡ true)

pub Chain-put :
    {N N' : Option ℕ → List Bool → Option Entry} {i n : ℕ} {c : List Bool} {e : Option ℕ}
    {r : List Entry} (b : Bool) (d : Option ℕ)
    → ((p : ℕ) (c : List Bool) (y : Entry)
        → i + 1 ≤ p
        → N' (some p) c ≡ some y
        → N (some p) (b ∷ c) ≡ some (put b d y))
    → Chain N' (i + 1) n none c e r
    → Chain N i (suc n) d (b ∷ c) (or_else e d) (map (put b d) r)
Chain-put b d lift (last h) = last (ap suc h)
Chain-put b d lift (more {c} {y} p h g rest) =
    more p (omega (arith, h)) (lift p c y h g) (Chain-put b d lift rest)

pub Chain-append :
    {N : Option ℕ → List Bool → Option Entry} {i n : ℕ} {e f : Option ℕ} {c : List Bool}
    {r : List Entry} (y : Entry) (r' : List Entry)
    → ((c : List Bool) → length c ≡ n → N (some i) c ≡ some y)
    → Chain N i n f y.0 y.1 r'
    → Chain N i n (some i) c e r
    → Chain N i n f c e (r ++ y ∷ r')
Chain-append {N} {i} y r' turn tail (last {c} h) = more i (omega arith) (turn c h) tail
Chain-append y r' turn tail (more p h g rest) = more p h g (Chain-append y r' turn tail rest)

pub Past-suc : (i : ℕ) (lb : Option ℕ) → Past i lb → Past (i + 1) lb
Past-suc i none h = h
Past-suc i (some p) h = omega (arith, h)

pub is_at-Past : (i : ℕ) (lb : Option ℕ) → Past i lb → is_at i lb ≡ false
is_at-Past i none h = refl
is_at-Past i (some p) h = ground (arith, h)

pub direction-Past : (i : ℕ) (lb : Option ℕ) (old : Bool) → Past i lb → direction i lb old ≡ false
unfolding direction
direction-Past i none old h = refl
direction-Past i (some p) old h = ground (arith, h)

pub is_at_later : (i p : ℕ) → i + 1 ≤ p → is_at i (some p) ≡ false
is_at_later i p h = ground (arith, h)

pub direction_later : (i p : ℕ) (old : Bool) → i + 1 ≤ p → direction i (some p) old ≡ old
unfolding direction
direction_later i p old h = ground (arith, h)

pub direction_here : (i : ℕ) (old : Bool) → direction i (some i) old ≡ true
unfolding direction
direction_here i old = ground arith
