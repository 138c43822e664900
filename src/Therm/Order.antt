-- ===== src/Therm/Order.antt =====
-- The search goes from a code to the next one in the order of `walk`.
use byt.Base.{
  ℕ, zero, suc, ◌+◌, Bool, true, false, Option, none, some, List, [], ◌∷◌, ◌++◌, map, length, ◌≡◌,
  refl, sym, ap, ◌∙◌, subst, arith,
}
use mathlib.Core.List.{append-nil}
use byt.Therm.Rom.{direction, is_at}
use byt.Therm.Bus.{follow, pass}
use byt.Therm.Walk.{
  Entry, or_else, put, puts, mark, walk, next, stepped, next-stepped, taken0, taken1, turned,
}
use byt.Therm.Chain.{
  Chain, last, Sized, is_cons, Begins, Visits, Chain-put, Chain-append, Past-suc, is_at-Past,
  direction-Past, is_at_later, direction_later, direction_here,
}

module _ (i : ℕ) (d : List (List Bool)) where
  next_as :
      {at dir : Bool} {a b : List (List Bool)} (lb : Option ℕ) (old : Bool) (c : List Bool)
      → is_at i lb ≡ at
      → direction i lb old ≡ dir
      → follow false d ≡ a
      → follow true d ≡ b
      → next i d lb (old ∷ c) ≡ stepped at dir i lb c a b
  next_as {at} {dir} {a} {b} lb old c h g f t =
      next-stepped i lb old c d
      ∙ ap (λ q. stepped q (direction i lb old) i lb c (follow false d) (follow true d)) h
      ∙ ap (λ q. stepped at q i lb c (follow false d) (follow true d)) g
      ∙ ap (λ q. stepped at dir i lb c q (follow true d)) f
      ∙ ap (λ q. stepped at dir i lb c a q) t

  -- A bit of the code that stays as it is, or is new, where the zeros are searched.
  keeps0 :
      {xs b : List (List Bool)} {x : List Bool} (lb : Option ℕ) (old : Bool) (c : List Bool)
      → follow false d ≡ x ∷ xs
      → follow true d ≡ b
      → is_at i lb ≡ false
      → direction i lb old ≡ false
      → next i d lb (old ∷ c) ≡ puts false (mark i b) (next (i + 1) (x ∷ xs) lb c)
  keeps0 {xs} {b} {x} lb old c f t h g = next_as lb old c h g f t ∙ taken0 i lb c x xs b

  keeps1 :
      {ys : List (List Bool)} {y : List Bool} (lb : Option ℕ) (old : Bool) (c : List Bool)
      → follow false d ≡ []
      → follow true d ≡ y ∷ ys
      → is_at i lb ≡ false
      → next i d lb (old ∷ c) ≡ puts true none (next (i + 1) (y ∷ ys) lb c)
  keeps1 {ys} {y} lb old c f t h =
      next_as lb old c h refl f t ∙ taken1 (direction i lb old) i lb c y ys

  turns :
      {xs ys : List (List Bool)} {x y : List Bool} (lb : Option ℕ) (old : Bool) (c : List Bool)
      → follow false d ≡ x ∷ xs
      → follow true d ≡ y ∷ ys
      → direction i lb old ≡ true
      → next i d lb (old ∷ c) ≡ puts true none (next (i + 1) (y ∷ ys) lb c)
  turns {xs} {ys} {x} {y} lb old c f t g =
      next_as lb old c refl g f t ∙ turned (is_at i lb) i lb c x y xs ys

  -- The entries of the zeros, in the whole.
  Chain-zeros :
      {n : ℕ} {xs b : List (List Bool)} {x c : List Bool} {e : Option ℕ} {r : List Entry}
      → follow false d ≡ x ∷ xs
      → follow true d ≡ b
      → Chain (next (i + 1) (x ∷ xs)) (i + 1) n none c e r
      → Chain
          (next i d)
          i
          (suc n)
          (mark i b)
          (false ∷ c)
          (or_else e (mark i b))
          (map (put false (mark i b)) r)
  Chain-zeros {b = b} f t = Chain-put false (mark i b) (λ p c y h g.
      keeps0 (some p) false c f t (is_at_later i p h) (direction_later i p false h)
      ∙ ap (puts false (mark i b)) g)

  -- The entries of the ones, in the whole.
  Chain-ones :
      {n : ℕ} {ys : List (List Bool)} {y c : List Bool} {e : Option ℕ} {r : List Entry}
      (a : List (List Bool))
      → follow false d ≡ a
      → follow true d ≡ y ∷ ys
      → Chain (next (i + 1) (y ∷ ys)) (i + 1) n none c e r
      → Chain (next i d) i (suc n) none (true ∷ c) (or_else e none) (map (put true none) r)
  Chain-ones [] f t =
      Chain-put true none
        (λ p c y h g. keeps1 (some p) true c f t (is_at_later i p h) ∙ ap (puts true none) g)
  Chain-ones (x ∷ xs) f t =
      Chain-put true none (λ p c y h g.
        turns (some p) true c f t (direction_later i p true h) ∙ ap (puts true none) g)

  Begins-zeros :
      {n : ℕ} {xs b : List (List Bool)} {x : List Bool} {z : Entry}
      → follow false d ≡ x ∷ xs
      → follow true d ≡ b
      → Begins (i + 1) n (x ∷ xs) z
      → Begins i (suc n) d (put false (mark i b) z)
  Begins-zeros f t h lb [] past size = absurd (omega (arith, size))
  Begins-zeros {b = b} f t h lb (o ∷ c) past size =
      keeps0 lb o c f t (is_at-Past i lb past) (direction-Past i lb o past)
      ∙ ap (puts false (mark i b)) (h lb c (Past-suc i lb past) (omega (arith, size)))

  Begins-ones :
      {n : ℕ} {ys : List (List Bool)} {y : List Bool} {z : Entry}
      → follow false d ≡ []
      → follow true d ≡ y ∷ ys
      → Begins (i + 1) n (y ∷ ys) z
      → Begins i (suc n) d (put true none z)
  Begins-ones f t h lb [] past size = absurd (omega (arith, size))
  Begins-ones f t h lb (o ∷ c) past size =
      keeps1 lb o c f t (is_at-Past i lb past)
      ∙ ap (puts true none) (h lb c (Past-suc i lb past) (omega (arith, size)))

  -- From the last code with a zero at a bit to the first with a one.
  turns_over :
      {n : ℕ} {xs ys : List (List Bool)} {x y : List Bool} {z : Entry}
      → follow false d ≡ x ∷ xs
      → follow true d ≡ y ∷ ys
      → Begins (i + 1) n (y ∷ ys) z
      → (c : List Bool) → length c ≡ suc n
      → next i d (some i) c ≡ some (put true none z)
  turns_over f t h [] size = absurd (omega (arith, size))
  turns_over f t h (o ∷ c) size =
      turns (some i) o c f t (direction_here i o)
      ∙ ap (puts true none) (h (some i) c (omega arith) (omega (arith, size)))

pub follow-Sized :
    (v : Bool) (n : ℕ) (d : List (List Bool)) → Sized (suc n) d → Sized n (follow v d)
follow-Sized true n [] s = s
follow-Sized false n [] s = s
follow-Sized true n ([] ∷ d) s = follow-Sized true n d s.1
follow-Sized false n ([] ∷ d) s = follow-Sized false n d s.1
follow-Sized true n ((true ∷ c) ∷ d) s = (omega (arith, s.0), follow-Sized true n d s.1)
follow-Sized true n ((false ∷ c) ∷ d) s = follow-Sized true n d s.1
follow-Sized false n ((true ∷ c) ∷ d) s = follow-Sized false n d s.1
follow-Sized false n ((false ∷ c) ∷ d) s = (omega (arith, s.0), follow-Sized false n d s.1)

none_left :
    (n : ℕ) (d : List (List Bool))
    → Sized (suc n) d
    → follow false d ≡ []
    → follow true d ≡ []
    → d ≡ []
none_left n [] s f t = refl
none_left n ([] ∷ d) s f t = absurd (omega (arith, s.0))
none_left n ((false ∷ c) ∷ d) s f t = absurd (grind (arith, f))
none_left n ((true ∷ c) ∷ d) s f t = absurd (grind (arith, t))

cons_left :
    (d x : List (List Bool)) (v : Bool) → follow v d ≡ x → is_cons x ≡ true → is_cons d ≡ true
cons_left [] [] v f h = h
cons_left [] (c ∷ x) true f h = absurd (grind (arith, f))
cons_left [] (c ∷ x) false f h = absurd (grind (arith, f))
cons_left (c ∷ d) x v f h = refl

Visits-step :
    (i n : ℕ) (d a b : List (List Bool)) (r r' : List Entry)
    → Sized (suc n) d
    → follow false d ≡ a
    → follow true d ≡ b
    → Visits (i + 1) n a r
    → Visits (i + 1) n b r'
    → Visits i (suc n) d (map (put false (mark i b)) r ++ map (put true none) r')
Visits-step i n d a b [] [] s f t v w = none_left n d s (f ∙ v) (t ∙ w)
Visits-step i n d a [] r (z ∷ r') s f t v w = absurd (grind (arith, w.2))
Visits-step i n d a (y ∷ ys) [] (z ∷ r') s f t v w = (
  Begins-ones i d (f ∙ v) t w.0,
  Chain-ones i d [] (f ∙ v) t w.1,
  cons_left d (y ∷ ys) true t refl,
)
Visits-step i n d [] b (z ∷ r) r' s f t v w = absurd (grind (arith, v.2))
Visits-step i n d (x ∷ xs) [] (z ∷ r) [] s f t v w = (
  Begins-zeros i d f (t ∙ w) v.0,
  subst (Chain (next i d) i (suc n) none (false ∷ z.0) (or_else z.1 none))
      (sym (append-nil (map (put false none) r))) (Chain-zeros i d f (t ∙ w) v.1),
  cons_left d (x ∷ xs) false f refl,
)
Visits-step i n d (x ∷ xs) (y ∷ ys) (z ∷ r) [] s f t v w = absurd (grind (arith, w))
Visits-step i n d (x ∷ xs) (y ∷ ys) (z ∷ r) (z' ∷ r') s f t v w = (
  Begins-zeros i d f t v.0,
  Chain-append (put true none z') (map (put true none) r') (turns_over i d f t w.0)
      (Chain-ones i d (x ∷ xs) f t w.1) (Chain-zeros i d f t v.1),
  cons_left d (x ∷ xs) false f refl,
)

at_end :
    (i : ℕ) (d : List (List Bool)) (lb : Option ℕ) (c : List Bool)
    → length c ≡ 0
    → next i d lb c ≡ some ([], none)
unfolding pass
at_end i d lb [] h = refl
at_end i d lb (o ∷ c) h = absurd (omega (arith, h))

-- The entries of `walk` are those that the search goes through.
pub walk-Visits : (n i : ℕ) (d : List (List Bool)) → Sized n d → Visits i n d (walk n i d)
unfolding walk
walk-Visits zero i [] s = refl
walk-Visits (suc n) i [] s = refl
walk-Visits zero i (c ∷ d) s =
    let starts : Begins i 0 (c ∷ d) ([], none) = λ lb e past size. at_end i (c ∷ d) lb e size in
    (starts, last refl, refl)
walk-Visits (suc n) i (c ∷ d) s =
    Visits-step i n (c ∷ d) (follow false (c ∷ d)) (follow true (c ∷ d))
      (walk n (i + 1) (follow false (c ∷ d))) (walk n (i + 1) (follow true (c ∷ d))) s refl refl
      (walk-Visits n (i + 1) (follow false (c ∷ d)) (follow-Sized false n (c ∷ d) s))
      (walk-Visits n (i + 1) (follow true (c ∷ d)) (follow-Sized true n (c ∷ d) s))
