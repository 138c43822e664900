-- ===== src/Therm/Tests.antt =====
-- A search on a bus with three devices, one of which has a wrong checksum.
use byt.Base.{
  ℕ, zero, suc, ◌/◌, ◌%◌, Bool, some, List, [], ◌∷◌, ◌++◌, length, ◌≡◌, refl, All, arith, ◌==◌,
  ◌&&◌,
}
use byt.Therm.Rom.{search, is_code_sound}
use byt.Therm.Bus.{bus, net}
use byt.Therm.Walk.{codes}
use byt.Therm.Sorted.{Ordered}
use byt.Therm.Search.{search-in_order}
use byt.Therm.Found.{occurs, search-finds}

-- The bits of a byte, the lowest first.
abbrev bits_of : ℕ → ℕ → List Bool
bits_of zero n = []
bits_of (suc k) n = (n % 2 == 1) ∷ bits_of k (n / 2)

abbrev rom : List ℕ → List Bool
rom [] = []
rom (b ∷ r) = bits_of 8 b ++ rom r

abbrev attic : List Bool
attic = rom (40 ∷ 1 ∷ 2 ∷ 3 ∷ 0 ∷ 0 ∷ 0 ∷ 34 ∷ [])

abbrev cellar : List Bool
cellar = rom (40 ∷ 9 ∷ 2 ∷ 3 ∷ 0 ∷ 0 ∷ 0 ∷ 131 ∷ [])

abbrev broken : List Bool
broken = rom (40 ∷ 7 ∷ 7 ∷ 7 ∷ 0 ∷ 0 ∷ 0 ∷ 1 ∷ [])

abbrev devices : List (List Bool)
devices = cellar ∷ broken ∷ attic ∷ []

devices-sized : All (λ c. length c ≡ 64) devices
devices-sized = (refl, (refl, (refl, tt)))

search-in_order_example :
    (search bus 9 (net [] devices []) ≡ some (attic ∷ cellar ∷ [])) × Ordered (attic ∷ cellar ∷ [])
unfolding codes is_code_sound byt.Crc.calc_crc
search-in_order_example = search-in_order 9 [] devices [] devices-sized (omega arith)

search-finds_example :
    (found : List (List Bool)) × (search bus 9 (net [] devices []) ≡ some found)
    × (occurs broken found ≡ (occurs broken devices && is_code_sound broken))
unfolding codes
search-finds_example = search-finds 9 [] devices [] broken devices-sized (omega arith)
