-- ===== src/Reku/Median.antt =====
-- The median of rekuperacia_fw/main.c: `bubbleSort` sorts.
use mathlib.Core.List.{append_assoc, append-nil}
use byt.Base.{
  length-append, ℕ, zero, suc, ◌+◌, ◌≤◌, ◌≡◌, refl, ap, ap₂, sym, ◌∙◌, Bool, true, false, ◌||◌,
  if-false, subst, List, [], ◌∷◌, ◌++◌, ltb, leb, if◌then◌else◌, length, get_or, All, arith,
}
use byt.Reku.Measure.{pass, bubble, bubble_sort}

abbrev pub AllLe : List ℕ → ℕ → Type 0
AllLe xs m = All (λ x. x ≤ m) xs

abbrev pub AllGe : ℕ → List ℕ → Type 0
AllGe m xs = All (λ x. m ≤ x) xs

abbrev pub Sorted : List ℕ → Type 0
Sorted [] = Unit {0}
Sorted (x ∷ xs) = AllGe x xs × Sorted xs

-- How many values pass a test.
abbrev pub tally : (ℕ → Bool) → List ℕ → ℕ
tally p [] = 0
tally p (x ∷ xs) = (if p x then 1 else 0) + tally p xs

if-holds : (P : ℕ → Type 0) (b : Bool) (x y : ℕ) → P x → P y → P (if b then x else y)
if-holds P true x y p q = p
if-holds P false x y p q = q

pass-All : (P : ℕ → Type 0) (n : ℕ) (xs : List ℕ) → All P xs → All P (pass n xs).0
unfolding pass
pass-All P zero xs h = h
pass-All P (suc n) [] h = h
pass-All P (suc n) (x ∷ []) h = h
pass-All P (suc n) (x ∷ y ∷ r) h = (
  if-holds P (ltb y x) y x (h.1.0) (h.0),
  pass-All P n ((if ltb y x then x else y) ∷ r) (if-holds P (ltb y x) x y (h.0) (h.1.0), h.1.1),
)

swap_tally :
    (p : ℕ → Bool) (b : Bool) (x y k : ℕ)
    → (if p (if b then y else x) then 1 else 0) + ((if p (if b then x else y) then 1 else 0) + k)
      ≡ (if p x then 1 else 0) + ((if p y then 1 else 0) + k)
swap_tally p true x y k = omega arith
swap_tally p false x y k = refl

pass-tally : (p : ℕ → Bool) (n : ℕ) (xs : List ℕ) → tally p (pass n xs).0 ≡ tally p xs
unfolding pass
pass-tally p zero xs = refl
pass-tally p (suc n) [] = refl
pass-tally p (suc n) (x ∷ []) = refl
pass-tally p (suc n) (x ∷ y ∷ r) =
    ap (λ k. (if p (if ltb y x then y else x) then 1 else 0) + k)
      (pass-tally p n ((if ltb y x then x else y) ∷ r))
    ∙ swap_tally p (ltb y x) x y (tally p r)

length-pass : (n : ℕ) (xs : List ℕ) → length (pass n xs).0 ≡ length xs
unfolding pass
length-pass zero xs = refl
length-pass (suc n) [] = refl
length-pass (suc n) (x ∷ []) = refl
length-pass (suc n) (x ∷ y ∷ r) = ap suc (length-pass n ((if ltb y x then x else y) ∷ r))

-- Only the compared values are touched.
pass-append :
    (n x : ℕ) (r b : List ℕ)
    → length r ≡ n
    → pass n (x ∷ r ++ b) ≡ ((pass n (x ∷ r)).0 ++ b, (pass n (x ∷ r)).1)
unfolding pass
pass-append zero x [] b h = refl
pass-append (suc n) x (y ∷ r) b h =
    ap (λ p. ((if ltb y x then y else x) ∷ p.0, ltb y x || p.1))
      (pass-append n (if ltb y x then x else y) r b (omega arith))
pass-append zero x (y ∷ r) b h = absurd (omega arith)
pass-append (suc n) x [] b h = absurd (omega arith)

-- The greatest of the compared values comes last.
pass_last :
    (n x : ℕ) (r : List ℕ)
    → length r ≡ n
    → (init : List ℕ) × (m : ℕ) × ((pass n (x ∷ r)).0 ≡ init ++ m ∷ []) × AllLe init m × (x ≤ m)
unfolding pass
pass_last zero x [] h = ([], x, refl, tt, omega arith)
pass_last (suc n) x (y ∷ r) h =
    let (init, m, e, all, le) = pass_last n (if ltb y x then x else y) r (omega arith) in
    (
      (if ltb y x then y else x) ∷ init,
      m,
      ap (λ q. (if ltb y x then y else x) ∷ q) e,
      (ground (arith), all),
      ground (arith),
    )
pass_last zero x (y ∷ r) h = absurd (omega arith)
pass_last (suc n) x [] h = absurd (omega arith)

AllGe_mono : (m k : ℕ) (xs : List ℕ) → m ≤ k → AllGe k xs → AllGe m xs
AllGe_mono m k [] h hs = tt
AllGe_mono m k (x ∷ xs) h hs = (omega arith, AllGe_mono m k xs h (hs.1))

or_false : (a b : Bool) → (a || b) ≡ false → (a ≡ false) × (b ≡ false)
or_false true b h = absurd (ground (arith, h))
or_false false b h = (refl, h)

-- Without a swap the values were sorted, and are as they were.
unswapped :
    (n x : ℕ) (r : List ℕ)
    → length r ≡ n
    → (pass n (x ∷ r)).1 ≡ false
    → ((pass n (x ∷ r)).0 ≡ x ∷ r) × Sorted (x ∷ r)
unfolding pass
unswapped zero x [] h e = (refl, (tt, tt))
unswapped (suc n) x (y ∷ r) h e =
    let (p, w) = or_false (ltb y x) (pass n ((if ltb y x then x else y) ∷ r)).1 e in
    let big : (if ltb y x then x else y) ≡ y = if-false (ltb y x) x y p in
    let small : (if ltb y x then y else x) ≡ x = if-false (ltb y x) y x p in
    let le : x ≤ y = ground (arith, p) in
    let (same, sorted) =
      unswapped n y r (omega arith) (subst (λ k. (pass n (k ∷ r)).1 ≡ false) big w) in
    (
      ap₂ ◌∷◌ small (ap (λ k. (pass n (k ∷ r)).0) big ∙ same),
      ((le, AllGe_mono x y r le (sorted.0)), sorted),
    )
unswapped zero x (y ∷ r) h e = absurd (omega arith)
unswapped (suc n) x [] h e = absurd (omega arith)

All_split : (P : ℕ → Type 0) (xs : List ℕ) (m : ℕ) → All P (xs ++ m ∷ []) → All P xs × P m
All_split P [] m h = (tt, h.0)
All_split P (x ∷ xs) m h = let (a, b) = All_split P xs m (h.1) in ((h.0, a), b)

AllGe-append : (x : ℕ) (xs ys : List ℕ) → AllGe x xs → AllGe x ys → AllGe x (xs ++ ys)
AllGe-append x [] ys h k = k
AllGe-append x (y ∷ xs) ys h k = (h.0, AllGe-append x xs ys (h.1) k)

Sorted-append :
    (xs ys : List ℕ) → Sorted xs → Sorted ys → All (λ x. AllGe x ys) xs → Sorted (xs ++ ys)
Sorted-append [] ys h k b = k
Sorted-append (x ∷ xs) ys h k b =
    (AllGe-append x xs ys (h.0) (b.0), Sorted-append xs ys (h.1) k (b.1))

-- The greatest value may join those that are in place.
joined :
    (xs ys : List ℕ) (m : ℕ)
    → AllLe xs m
    → All (λ x. AllGe x ys) xs
    → All (λ x. AllGe x (m ∷ ys)) xs
joined [] ys m h k = tt
joined (x ∷ xs) ys m h k = ((h.0, k.0), joined xs ys m (h.1) (k.1))

chosen :
    (n : ℕ) (w : Bool) (q : List ℕ)
    → (w ≡ true → Sorted (bubble n q))
    → (w ≡ false → Sorted q)
    → Sorted (if w then bubble n q else q)
chosen n true q h k = h refl
chosen n false q h k = k refl

-- The first `n + 1` values are still to sort, the others are in place.
bubble-Sorted :
    (n : ℕ) (front back : List ℕ)
    → length front ≡ suc n
    → Sorted back
    → All (λ x. AllGe x back) front
    → Sorted (bubble n (front ++ back))
unfolding bubble
bubble-Sorted zero (x ∷ []) back h s b = (b.0, s)
bubble-Sorted (suc n) (x ∷ r) back h s b =
    let f = (pass (suc n) (x ∷ r)).0 in
    let run = pass-append (suc n) x r back (omega arith) in
    let (init, m, e, all, le) = pass_last (suc n) x r (omega arith) in
    let (b', bm) =
      All_split (λ k. AllGe k back) init m
        (subst (All (λ k. AllGe k back)) e (pass-All (λ k. AllGe k back) (suc n) (x ∷ r) b)) in
    let shape : f ++ back ≡ init ++ m ∷ back =
      ap (λ q. q ++ back) e ∙ append_assoc init (m ∷ []) back in
    let size : length init ≡ suc n =
      omega (arith, ap length e, length-pass (suc n) (x ∷ r), length-append init (m ∷ [])) in
    let rest = bubble-Sorted n init (m ∷ back) size (bm, s) (joined init back m all b') in
    subst (λ p. Sorted (if p.1 then bubble n p.0 else p.0)) (sym run)
      (chosen n (pass (suc n) (x ∷ r)).1 (f ++ back)
        (λ w. subst (λ q. Sorted (bubble n q)) (sym shape) rest)
        (λ w.
          let (same, sorted) = unswapped (suc n) x r (omega arith) w in
          subst (λ q. Sorted (q ++ back)) (sym same) (Sorted-append (x ∷ r) back sorted s b)))
bubble-Sorted (suc n) [] back h s b = absurd (omega arith)
bubble-Sorted zero [] back h s b = absurd (omega arith)
bubble-Sorted zero (x ∷ y ∷ r) back h s b = absurd (omega arith)

bubble-tally : (p : ℕ → Bool) (n : ℕ) (xs : List ℕ) → tally p (bubble n xs) ≡ tally p xs
unfolding bubble
bubble-tally p zero xs = refl
bubble-tally p (suc n) xs =
    let q = pass (suc n) xs in
    either (q.1) (bubble n q.0) (q.0) (bubble-tally p n q.0) ∙ pass-tally p (suc n) xs
  where
    either :
        (w : Bool) (a b : List ℕ) → tally p a ≡ tally p b → tally p (if w then a else b) ≡ tally p b
    either true a b e = e
    either false a b e = refl

length-bubble : (n : ℕ) (xs : List ℕ) → length (bubble n xs) ≡ length xs
unfolding bubble
length-bubble zero xs = refl
length-bubble (suc n) xs =
    let q = pass (suc n) xs in
    either (q.1) (bubble n q.0) (q.0) (length-bubble n q.0) ∙ length-pass (suc n) xs
  where
    either :
        (w : Bool) (a b : List ℕ) → length a ≡ length b → length (if w then a else b) ≡ length b
    either true a b e = e
    either false a b e = refl

-- Sorting keeps the bound of the values.
pub bubble-All : (P : ℕ → Type 0) (n : ℕ) (xs : List ℕ) → All P xs → All P (bubble n xs)
unfolding bubble
bubble-All P zero xs h = h
bubble-All P (suc n) xs h =
    let q = pass (suc n) xs in
    let k = pass-All P (suc n) xs h in either (q.1) (bubble n q.0) (q.0) (bubble-All P n q.0 k) k
  where
    either : (w : Bool) (a b : List ℕ) → All P a → All P b → All P (if w then a else b)
    either true a b h k = h
    either false a b h k = k

pub bubble_le : (xs : List ℕ) (m : ℕ) → AllLe xs m → AllLe (bubble_sort xs) m
unfolding bubble_sort
bubble_le xs m h = bubble-All (λ x. x ≤ m) 4 xs h

pub length-bubble_sort : (xs : List ℕ) → length (bubble_sort xs) ≡ length xs
unfolding bubble_sort
length-bubble_sort xs = length-bubble 4 xs

Sorted-median :
    (xs : List ℕ)
    → length xs ≡ 5
    → Sorted xs
    → (3 ≤ tally (λ x. leb x (get_or xs 2 0)) xs) × (3 ≤ tally (λ x. leb (get_or xs 2 0) x) xs)
Sorted-median (a ∷ b ∷ c ∷ d ∷ e ∷ []) h s = (ground (arith), ground (arith))
Sorted-median [] h s = absurd (omega arith)
Sorted-median (a ∷ []) h s = absurd (omega arith)
Sorted-median (a ∷ b ∷ []) h s = absurd (omega arith)
Sorted-median (a ∷ b ∷ c ∷ []) h s = absurd (omega arith)
Sorted-median (a ∷ b ∷ c ∷ d ∷ []) h s = absurd (omega arith)
Sorted-median (a ∷ b ∷ c ∷ d ∷ e ∷ f ∷ xs) h s = absurd (omega arith)

-- Of five samples, sorting keeps each value as often as it was, leaves them in ascending order, and
-- puts a median in the middle: at least three samples are at most the value that `calc_med` reads
-- there, and at least three are at least that value.
pub bubble_sort_lem :
    (xs : List ℕ) (p : ℕ → Bool)
    → length xs ≡ 5
    → let v = get_or (bubble_sort xs) 2 0 in
      (tally p (bubble_sort xs) ≡ tally p xs)
      × Sorted (bubble_sort xs)
      × (3 ≤ tally (λ x. leb x v) xs)
      × (3 ≤ tally (λ x. leb v x) xs)
unfolding bubble_sort
bubble_sort_lem xs p h =
    let none_back : All (λ x. AllGe x []) xs = nothing_back xs in
    let s =
      subst (λ q. Sorted (bubble 4 q)) (append-nil xs) (bubble-Sorted 4 xs [] h tt none_back) in
    let v = get_or (bubble 4 xs) 2 0 in
    let m = Sorted-median (bubble 4 xs) (length-bubble 4 xs ∙ h) s in
    (
      bubble-tally p 4 xs,
      s,
      subst (λ k. 3 ≤ k) (bubble-tally (λ x. leb x v) 4 xs) (m.0),
      subst (λ k. 3 ≤ k) (bubble-tally (λ x. leb v x) 4 xs) (m.1),
    )
  where
    nothing_back : (xs : List ℕ) → All (λ x. AllGe x []) xs
    nothing_back [] = tt
    nothing_back (x ∷ xs) = (tt, nothing_back xs)
