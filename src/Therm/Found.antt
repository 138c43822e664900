-- ===== src/Therm/Found.antt =====
-- What the search has found, as membership.
use byt.Base.{
  ℕ, zero, suc, ◌<◌, Bool, true, false, not, ◌&&◌, ◌||◌, some, List, [], ◌∷◌, ◌++◌, map,
  if◌then◌else◌, length, ◌≡◌, refl, sym, ap, ap₂, ◌∙◌, All, arith,
}
use byt.Therm.Rom.{search, is_code_sound}
use byt.Therm.Bus.{bus, net, follow}
use byt.Therm.Walk.{codes}
use byt.Therm.Chain.{Sized}
use byt.Therm.Order.{follow-Sized}
use byt.Therm.Sorted.{sound_ones}
use byt.Therm.Search.{search-in_order}

-- Whether two codes have the same bits.
abbrev pub same : List Bool → List Bool → Bool
same [] [] = true
same [] (b ∷ d) = false
same (a ∷ c) [] = false
same (true ∷ c) (true ∷ d) = same c d
same (false ∷ c) (false ∷ d) = same c d
same (true ∷ c) (false ∷ d) = false
same (false ∷ c) (true ∷ d) = false

abbrev pub occurs : List Bool → List (List Bool) → Bool
occurs c [] = false
occurs c (x ∷ d) = same c x || occurs c d

same_sound : (c x : List Bool) → same c x ≡ true → c ≡ x
same_sound [] [] h = refl
same_sound [] (b ∷ x) h = absurd (grind (arith, h))
same_sound (a ∷ c) [] h = absurd (grind (arith, h))
same_sound (true ∷ c) (true ∷ x) h = ap (λ q. true ∷ q) (same_sound c x h)
same_sound (false ∷ c) (false ∷ x) h = ap (λ q. false ∷ q) (same_sound c x h)
same_sound (true ∷ c) (false ∷ x) h = absurd (grind (arith, h))
same_sound (false ∷ c) (true ∷ x) h = absurd (grind (arith, h))

or_assoc : (a b c : Bool) → (a || (b || c)) ≡ ((a || b) || c)
or_assoc true b c = refl
or_assoc false b c = refl

or_false : (a : Bool) → (a || false) ≡ a
or_false true = refl
or_false false = refl

occurs-append :
    (c : List Bool) (x y : List (List Bool)) → occurs c (x ++ y) ≡ (occurs c x || occurs c y)
occurs-append c [] y = refl
occurs-append c (d ∷ x) y =
    ap (λ q. same c d || q) (occurs-append c x y) ∙ or_assoc (same c d) (occurs c x) (occurs c y)

occurs-map :
    (b : Bool) (c : List Bool) (d : List (List Bool))
    → occurs (b ∷ c) (map (λ r. b ∷ r) d) ≡ occurs c d
occurs-map b c [] = refl
occurs-map true c (x ∷ d) = ap (λ q. same c x || q) (occurs-map true c d)
occurs-map false c (x ∷ d) = ap (λ q. same c x || q) (occurs-map false c d)

occurs-map_other :
    (b : Bool) (c : List Bool) (d : List (List Bool))
    → occurs (b ∷ c) (map (λ r. not b ∷ r) d) ≡ false
occurs-map_other b c [] = refl
occurs-map_other true c (x ∷ d) = occurs-map_other true c d
occurs-map_other false c (x ∷ d) = occurs-map_other false c d

occurs-map_nil : (b : Bool) (d : List (List Bool)) → occurs [] (map (λ r. b ∷ r) d) ≡ false
occurs-map_nil b [] = refl
occurs-map_nil b (x ∷ d) = occurs-map_nil b d

occurs-follow :
    (b : Bool) (c : List Bool) (d : List (List Bool)) → occurs c (follow b d) ≡ occurs (b ∷ c) d
occurs-follow true c [] = refl
occurs-follow false c [] = refl
occurs-follow true c ([] ∷ d) = occurs-follow true c d
occurs-follow false c ([] ∷ d) = occurs-follow false c d
occurs-follow true c ((true ∷ r) ∷ d) = ap (λ q. same c r || q) (occurs-follow true c d)
occurs-follow true c ((false ∷ r) ∷ d) = occurs-follow true c d
occurs-follow false c ((true ∷ r) ∷ d) = occurs-follow false c d
occurs-follow false c ((false ∷ r) ∷ d) = ap (λ q. same c r || q) (occurs-follow false c d)

occurs_nil : (n : ℕ) (d : List (List Bool)) → Sized (suc n) d → occurs [] d ≡ false
occurs_nil n [] s = refl
occurs_nil n ([] ∷ d) s = absurd (omega (arith, s.0))
occurs_nil n ((b ∷ c) ∷ d) s = occurs_nil n d s.1

occurs_cons :
    (b : Bool) (e : List Bool) (d : List (List Bool)) → Sized 0 d → occurs (b ∷ e) d ≡ false
occurs_cons b e [] s = refl
occurs_cons b e ([] ∷ d) s = occurs_cons b e d s.1
occurs_cons b e ((x ∷ c) ∷ d) s = absurd (omega (arith, s.0))

-- `codes` has the codes of the list, and no others.
occurs-codes :
    (n : ℕ) (c : List Bool) (d : List (List Bool)) → Sized n d → occurs c (codes n d) ≡ occurs c d
unfolding codes
occurs-codes zero c [] s = refl
occurs-codes (suc n) c [] s = refl
occurs-codes zero [] ([] ∷ d) s = refl
occurs-codes zero (b ∷ e) ([] ∷ d) s = sym (occurs_cons b e d s.1)
occurs-codes zero c ((x ∷ r) ∷ d) s = absurd (omega (arith, s.0))
occurs-codes (suc n) [] (x ∷ d) s =
    occurs-append [] (map (λ r. false ∷ r) (codes n (follow false (x ∷ d))))
      (map (λ r. true ∷ r) (codes n (follow true (x ∷ d))))
    ∙ ap₂ (λ p q. p || q) (occurs-map_nil false (codes n (follow false (x ∷ d))))
        (occurs-map_nil true (codes n (follow true (x ∷ d))))
    ∙ sym (occurs_nil n (x ∷ d) s)
occurs-codes (suc n) (false ∷ c) (x ∷ d) s =
    occurs-append (false ∷ c) (map (λ r. false ∷ r) (codes n (follow false (x ∷ d))))
      (map (λ r. true ∷ r) (codes n (follow true (x ∷ d))))
    ∙ ap₂ (λ p q. p || q) (occurs-map false c (codes n (follow false (x ∷ d))))
        (occurs-map_other false c (codes n (follow true (x ∷ d))))
    ∙ or_false (occurs c (codes n (follow false (x ∷ d))))
    ∙ occurs-codes n c (follow false (x ∷ d)) (follow-Sized false n (x ∷ d) s)
    ∙ occurs-follow false c (x ∷ d)
occurs-codes (suc n) (true ∷ c) (x ∷ d) s =
    occurs-append (true ∷ c) (map (λ r. false ∷ r) (codes n (follow false (x ∷ d))))
      (map (λ r. true ∷ r) (codes n (follow true (x ∷ d))))
    ∙ ap₂ (λ p q. p || q) (occurs-map_other true c (codes n (follow false (x ∷ d))))
        (occurs-map true c (codes n (follow true (x ∷ d))))
    ∙ occurs-codes n c (follow true (x ∷ d)) (follow-Sized true n (x ∷ d) s)
    ∙ occurs-follow true c (x ∷ d)

and_false : (a : Bool) → (a && false) ≡ false
and_false true = refl
and_false false = refl

occurs-if :
    (c x : List Bool) (l r : List (List Bool)) (v w k : Bool)
    → same c x ≡ w
    → (w ≡ true → v ≡ k)
    → occurs c r ≡ (occurs c l && k)
    → occurs c (if v then x ∷ r else r) ≡ ((w || occurs c l) && k)
occurs-if c x l r true true k h g i = ap (λ q. q || occurs c r) h ∙ g refl
occurs-if c x l r false true k h g i =
    i ∙ ap (λ q. occurs c l && q) (sym (g refl)) ∙ and_false (occurs c l) ∙ g refl
occurs-if c x l r true false k h g i = ap (λ q. q || occurs c r) h ∙ i
occurs-if c x l r false false k h g i = i

occurs-sound_ones :
    (c : List Bool) (l : List (List Bool))
    → occurs c (sound_ones l) ≡ (occurs c l && is_code_sound c)
occurs-sound_ones c [] = refl
occurs-sound_ones c (x ∷ l) =
    occurs-if c x l (sound_ones l) (is_code_sound x) (same c x) (is_code_sound c) refl
      (λ h. ap is_code_sound (sym (same_sound c x h))) (occurs-sound_ones c l)

-- On a bus whose devices have codes of 64 bits, and with more fuel than there are different codes,
-- `search` ends, and a code is among those it has found just if a device has it and its checksum is
-- right.
pub search-finds :
    (fuel : ℕ) (m : List ℕ) (ds sel : List (List Bool)) (c : List Bool)
    → All (λ d. length d ≡ 64) ds
    → length (codes 64 ds) < fuel
    → (found : List (List Bool)) × (search bus fuel (net m ds sel) ≡ some found)
      × (occurs c found ≡ (occurs c ds && is_code_sound c))
search-finds fuel m ds sel c sized h = (
  sound_ones (codes 64 ds),
  (search-in_order fuel m ds sel sized h).0,
  occurs-sound_ones c (codes 64 ds) ∙ ap (λ q. q && is_code_sound c) (occurs-codes 64 c ds sized),
)
