-- ===== src/Therm/Sorted.antt =====
-- The order in which the search finds the codes.
use byt.Base.{
  ℕ, zero, suc, Bool, true, false, List, [], ◌∷◌, ◌++◌, map, if◌then◌else◌, ◌≡◌, refl, All,
}
use byt.Therm.Bus.{follow}
use byt.Therm.Rom.{is_code_sound}
use byt.Therm.Walk.{codes}

-- The first bit that differs is a zero in the one code and a one in the other.
abbrev pub comes_before : List Bool → List Bool → Bool
comes_before [] d = false
comes_before (b ∷ c) [] = false
comes_before (false ∷ c) (true ∷ d) = true
comes_before (true ∷ c) (false ∷ d) = false
comes_before (true ∷ c) (true ∷ d) = comes_before c d
comes_before (false ∷ c) (false ∷ d) = comes_before c d

-- Each code comes before all that follow it.
abbrev pub Ordered : List (List Bool) → Type 0
Ordered [] = Unit {0}
Ordered (c ∷ r) = All (λ d. comes_before c d ≡ true) r × Ordered r

-- The codes with a right checksum.
abbrev pub sound_ones : List (List Bool) → List (List Bool)
sound_ones [] = []
sound_ones (c ∷ r) = if is_code_sound c then c ∷ sound_ones r else sound_ones r

before_all-map :
    (b : Bool) (c : List Bool) (r : List (List Bool))
    → All (λ d. comes_before c d ≡ true) r
    → All (λ d. comes_before (b ∷ c) d ≡ true) (map (λ d. b ∷ d) r)
before_all-map b c [] h = h
before_all-map true c (x ∷ r) h = (h.0, before_all-map true c r h.1)
before_all-map false c (x ∷ r) h = (h.0, before_all-map false c r h.1)

map-Ordered : (b : Bool) (r : List (List Bool)) → Ordered r → Ordered (map (λ d. b ∷ d) r)
map-Ordered b [] h = h
map-Ordered b (c ∷ r) h = (before_all-map b c r h.0, map-Ordered b r h.1)

before_ones :
    (c : List Bool) (y : List (List Bool))
    → All (λ d. comes_before (false ∷ c) d ≡ true) (map (λ d. true ∷ d) y)
before_ones c [] = tt
before_ones c (x ∷ y) = (refl, before_ones c y)

All-append : (P : List Bool → Type 0) (x y : List (List Bool)) → All P x → All P y → All P (x ++ y)
All-append P [] y h k = k
All-append P (c ∷ x) y h k = (h.0, All-append P x y h.1 k)

zeros_first-Ordered :
    (x y : List (List Bool))
    → Ordered x
    → Ordered y
    → Ordered (map (λ d. false ∷ d) x ++ map (λ d. true ∷ d) y)
zeros_first-Ordered [] y h k = map-Ordered true y k
zeros_first-Ordered (c ∷ x) y h k = (
  All-append (λ d. comes_before (false ∷ c) d ≡ true) (map (λ d. false ∷ d) x)
      (map (λ d. true ∷ d) y) (before_all-map false c x h.0) (before_ones c y),
  zeros_first-Ordered x y h.1 k,
)

pub codes-Ordered : (n : ℕ) (d : List (List Bool)) → Ordered (codes n d)
unfolding codes
codes-Ordered zero [] = tt
codes-Ordered (suc n) [] = tt
codes-Ordered zero (c ∷ d) = (tt, tt)
codes-Ordered (suc n) (c ∷ d) =
    zeros_first-Ordered (codes n (follow false (c ∷ d))) (codes n (follow true (c ∷ d)))
      (codes-Ordered n (follow false (c ∷ d))) (codes-Ordered n (follow true (c ∷ d)))

All-sound_ones : (P : List Bool → Type 0) (r : List (List Bool)) → All P r → All P (sound_ones r)
All-sound_ones P [] h = h
All-sound_ones P (c ∷ r) h = keeps (is_code_sound c) h.0 (All-sound_ones P r h.1)
  where
    keeps :
        (v : Bool)
        → P c
        → All P (sound_ones r)
        → All P (if v then c ∷ sound_ones r else sound_ones r)
    keeps true p q = (p, q)
    keeps false p q = q

pub sound_ones-Ordered : (r : List (List Bool)) → Ordered r → Ordered (sound_ones r)
sound_ones-Ordered [] h = h
sound_ones-Ordered (c ∷ r) h =
    keeps (is_code_sound c) (All-sound_ones (λ d. comes_before c d ≡ true) r h.0)
      (sound_ones-Ordered r h.1)
  where
    keeps :
        (v : Bool)
        → All (λ d. comes_before c d ≡ true) (sound_ones r)
        → Ordered (sound_ones r)
        → Ordered (if v then c ∷ sound_ones r else sound_ones r)
    keeps true p q = (p, q)
    keeps false p q = q
