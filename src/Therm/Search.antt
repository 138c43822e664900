-- ===== src/Therm/Search.antt =====
-- `search` over a bus with devices finds the codes whose checksum is right, in order.
use byt.Base.{
  ℕ, zero, suc, ◌+◌, ◌≤◌, ◌<◌, Bool, true, false, Option, none, some, List, [], ◌∷◌, ◌++◌, map,
  if◌then◌else◌, length, ◌≡◌, refl, sym, ap, ap₂, ◌∙◌, subst, arith, All,
}
use mathlib.Core.List.{append-nil, append_assoc}
use byt.Therm.{
  Net, presence, write_simple_cmd, write_bits, overlay, word_bytes, word_at, request, response,
  fits,
}
use byt.Therm.Rom.{round, search_loop, search, keep_sound, is_code_sound, scan, zeros}
use byt.Therm.Bus.{Devices, bus, net, follow, pass, scan-bus, answer}
use byt.Therm.Sorted.{Ordered, sound_ones, codes-Ordered, sound_ones-Ordered}
use byt.Therm.Walk.{Entry, put, mark, codes, walk, next}
use byt.Therm.Chain.{Chain, last, more, Visits}
use byt.Therm.Order.{walk-Visits}

abbrev codes_of : List Entry → List (List Bool)
codes_of [] = []
codes_of (x ∷ r) = x.0 ∷ codes_of r

codes_of-append : (r r' : List Entry) → codes_of (r ++ r') ≡ codes_of r ++ codes_of r'
codes_of-append [] r' = refl
codes_of-append (x ∷ r) r' = ap (λ q. x.0 ∷ q) (codes_of-append r r')

codes_of-put :
    (b : Bool) (d : Option ℕ) (r : List Entry)
    → codes_of (map (put b d) r) ≡ map (λ c. b ∷ c) (codes_of r)
codes_of-put b d [] = refl
codes_of-put b d (x ∷ r) = ap (λ q. (b ∷ x.0) ∷ q) (codes_of-put b d r)

codes_of-walk : (n i : ℕ) (d : List (List Bool)) → codes_of (walk n i d) ≡ codes n d
unfolding walk codes
codes_of-walk zero i [] = refl
codes_of-walk (suc n) i [] = refl
codes_of-walk zero i (c ∷ d) = refl
codes_of-walk (suc n) i (c ∷ d) =
    let x = follow false (c ∷ d) in
    let y = follow true (c ∷ d) in
    let a = walk n (i + 1) x in
    let b = walk n (i + 1) y in
    codes_of-append (map (put false (mark i y)) a) (map (put true none) b)
    ∙ ap₂ (λ p q. p ++ q)
        (codes_of-put false (mark i y) a ∙ ap (map (λ r. false ∷ r)) (codes_of-walk n (i + 1) x))
        (codes_of-put true none b ∙ ap (map (λ r. true ∷ r)) (codes_of-walk n (i + 1) y))

-- The messages of the begin of a round leave the devices all selected.
begun : List ℕ → List ℕ
begun m = overlay (word_bytes 4 ++ word_bytes 8 ++ 0xF0 ∷ []) m

round-bus :
    (lb : Option ℕ) (rc : List Bool) (m : List ℕ) (d : List Bool) (ds sel : List (List Bool))
    → round bus lb rc (net m (d ∷ ds) sel) ≡ scan bus 0 lb none rc (net (begun m) (d ∷ ds) (d ∷ ds))
unfolding round begun presence write_simple_cmd write_bits request response fits word_at word_bytes
    answer
round-bus lb rc m d ds sel = refl

round-none :
    (lb : Option ℕ) (rc : List Bool) (m : List ℕ) (sel : List (List Bool))
    → (round bus lb rc (net m [] sel)).0 ≡ none
unfolding round presence request response fits word_at word_bytes answer
round-none lb rc m sel = refl

keep_all : List (List Bool) → List (List Bool) → List (List Bool)
keep_all found [] = found
keep_all found (c ∷ r) = keep_all (keep_sound c found) r

keep_all_lem : (found r : List (List Bool)) → keep_all found r ≡ found ++ sound_ones r
unfolding keep_all keep_sound
keep_all_lem found [] = sym (append-nil found)
keep_all_lem found (c ∷ r) =
    go (is_code_sound c) (keep_all_lem (found ++ c ∷ []) r) (keep_all_lem found r)
  where
    go :
        (v : Bool)
        → keep_all (found ++ c ∷ []) r ≡ (found ++ c ∷ []) ++ sound_ones r
        → keep_all found r ≡ found ++ sound_ones r
        → keep_all (if v then found ++ c ∷ [] else found) r
          ≡ found ++ (if v then c ∷ sound_ones r else sound_ones r)
    go true h g = h ∙ append_assoc found (c ∷ []) (sound_ones r)
    go false h g = g

-- What `search_loop` does after a round.
decides : ℕ → List (List Bool) → Option Entry × Net Devices → Option (List (List Bool))
decides fuel found r = elim r.0 [
  | none ↦ some found
  | some x ↦
      let all = keep_sound x.0 found in
      elim x.1 [ none ↦ some all | some b ↦ search_loop bus fuel (some b) x.0 all r.1 ]
]

search_loop-suc :
    (fuel : ℕ) (lb : Option ℕ) (rc : List Bool) (found : List (List Bool)) (s : Net Devices)
    → search_loop bus (suc fuel) lb rc found s ≡ decides fuel found (round bus lb rc s)
unfolding search_loop decides
search_loop-suc fuel lb rc found s = refl

-- A round that finds a code.
round-next :
    (lb : Option ℕ) (rc : List Bool) (m : List ℕ) (d : List Bool) (ds sel : List (List Bool))
    (y : Entry)
    → next 0 (d ∷ ds) lb rc ≡ some y
    → round bus lb rc (net m (d ∷ ds) sel)
      ≡ (some y, net (begun m) (d ∷ ds) (pass 0 lb none rc (d ∷ ds)).1)
round-next lb rc m d ds sel y h =
    round-bus lb rc m d ds sel
    ∙ scan-bus 0 lb none rc (begun m) (d ∷ ds) (d ∷ ds)
    ∙ ap (λ q. (q, net (begun m) (d ∷ ds) (pass 0 lb none rc (d ∷ ds)).1)) h

-- The loop goes through a chain to its end.
search_loop-Chain :
    (n : ℕ) (d : List Bool) (ds : List (List Bool)) {c : List Bool} {e : Option ℕ} {r : List Entry}
    (fuel : ℕ) (found : List (List Bool)) (m : List ℕ) (sel : List (List Bool))
    → length r ≤ fuel
    → Chain (next 0 (d ∷ ds)) 0 n none c e r
    → decides fuel found (some (c, e), net m (d ∷ ds) sel)
      ≡ some (keep_all (keep_sound c found) (codes_of r))
unfolding decides keep_all
search_loop-Chain n d ds fuel found m sel h (last size) = refl
search_loop-Chain n d ds zero found m sel h (more p low g rest) = absurd (omega (arith, h))
search_loop-Chain n d ds (suc fuel) found m sel h (more {c} {y} p low g rest) =
    search_loop-suc fuel (some p) c (keep_sound c found) (net m (d ∷ ds) sel)
    ∙ ap (decides fuel (keep_sound c found)) (round-next (some p) c m d ds sel y g)
    ∙ search_loop-Chain n d ds fuel (keep_sound c found) (begun m)
        (pass 0 (some p) none c (d ∷ ds)).1 (omega (arith, h)) rest

zeros-size : (n : ℕ) → length (zeros n) ≡ n
zeros-size zero = refl
zeros-size (suc n) = ap suc (zeros-size n)

search_loop-Visits :
    (n fuel : ℕ) (m : List ℕ) (ds sel : List (List Bool)) (r : List Entry)
    → length r < fuel
    → Visits 0 n ds r
    → search_loop bus fuel none (zeros n) [] (net m ds sel) ≡ some (sound_ones (codes_of r))
unfolding decides keep_all
search_loop-Visits n zero m ds sel r h v = absurd (omega (arith, h))
search_loop-Visits n (suc fuel) m [] sel [] h v =
    search_loop-suc fuel none (zeros n) [] (net m [] sel)
    ∙ ended fuel (round bus none (zeros n) (net m [] sel)) (round-none none (zeros n) m sel)
  where
    ended : (fuel : ℕ) (q : Option Entry × Net Devices) → q.0 ≡ none → decides fuel [] q ≡ some []
    ended fuel q h = ap (λ w. decides fuel [] (w, q.1)) h
search_loop-Visits n (suc fuel) m (d ∷ ds) sel [] h v = absurd (grind (arith, v))
search_loop-Visits n (suc fuel) m [] sel (x ∷ r) h v = absurd (grind (arith, v.2))
search_loop-Visits n (suc fuel) m (d ∷ ds) sel (x ∷ r) h v =
    search_loop-suc fuel none (zeros n) [] (net m (d ∷ ds) sel)
    ∙ ap (decides fuel [])
        (round-next none (zeros n) m d ds sel x (v.0 none (zeros n) tt (zeros-size n)))
    ∙ search_loop-Chain n d ds fuel [] (begun m) (pass 0 none none (zeros n) (d ∷ ds)).1
        (omega (arith, h)) v.1
    ∙ ap some (keep_all_lem [] (codes_of (x ∷ r)))

length-codes_of : (r : List Entry) → length (codes_of r) ≡ length r
length-codes_of [] = refl
length-codes_of (x ∷ r) = ap suc (length-codes_of r)

search_all :
    (fuel : ℕ) (m : List ℕ) (ds sel : List (List Bool))
    → All (λ c. length c ≡ 64) ds
    → length (codes 64 ds) < fuel
    → search bus fuel (net m ds sel) ≡ some (sound_ones (codes 64 ds))
unfolding search
search_all fuel m ds sel sized h =
    let w = walk 64 0 ds in
    let same : codes_of w ≡ codes 64 ds = codes_of-walk 64 0 ds in
    search_loop-Visits 64 fuel m ds sel w
      (subst (λ q. q < fuel) (ap length (sym same) ∙ length-codes_of w) h)
      (walk-Visits 64 0 ds sized)
    ∙ ap (λ q. some (sound_ones q)) same

-- On a bus whose devices have codes of 64 bits, and with more fuel than there are different codes,
-- `search` ends and has found the codes of the devices whose checksum is right. They are in strict
-- order, so that each is there once: at the first bit, from the lowest of the first byte on, in which
-- two of them differ, the earlier has the zero.
pub search-in_order :
    (fuel : ℕ) (m : List ℕ) (ds sel : List (List Bool))
    → All (λ c. length c ≡ 64) ds
    → length (codes 64 ds) < fuel
    → (search bus fuel (net m ds sel) ≡ some (sound_ones (codes 64 ds)))
      × Ordered (sound_ones (codes 64 ds))
search-in_order fuel m ds sel sized h =
    (search_all fuel m ds sel sized h, sound_ones-Ordered (codes 64 ds) (codes-Ordered 64 ds))
