-- ===== src/Io/Tests.antt =====
-- The exchange of the process image at concrete inputs.
use byt.Base.{
  ℕ, suc, ◌-◌, ◌^◌, ◌≢◌, ◌==◌, ◌≡◌, refl, Bool, true, not, ◌&&◌, [], ◌∷◌, List, ltb, leb,
  if◌then◌else◌, get_or, arith,
}
use byt.Pv.{Pv, is_mob_marked_tx}
use byt.Io.Debounce.{DigIn, image_bit}
use byt.Io.Filter.{hold, hold-debounce}
use byt.Io.Mobs.{begin_idx, end_idx, receive}
use byt.Io.Frames.{receive_lem}

abbrev image : Pv
image = record { io_data = 0 ∷ 1 ∷ 2 ∷ 3 ∷ []; mob_marked_tx = 6 }

abbrev button : DigIn
button = record { mob_idx = 1; iodata_idx = 0; mask = 4; pin = 9; debounce = 3; consecutive = 0 }

released : image_bit 0 4 image ≡ not true
unfolding image_bit
released = refl

apart : ◌≢◌ {A = ℕ} 0 1
apart e = omega (arith, e)

hold-debounce_example :
    let r = hold (suc 3) true (record button { consecutive = 0 }) image in
    (hold 2 true (record button { consecutive = 0 }) image
      ≡ (record button { consecutive = 2 }, image))
    × (r.0 ≡ record button { consecutive = 0 })
    × (image_bit 0 (2 ^ 2) r.1 ≡ (if 2 == 2 then true else image_bit 0 (2 ^ 2) image))
    × (get_or r.1.io_data 1 0 ≡ 1)
    × (is_mob_marked_tx 1 r.1 ≡ true)
hold-debounce_example =
    hold-debounce 2 2 2 1 true button image refl (omega arith) (omega arith) (omega arith)
      (omega arith) apart released (omega arith) (omega arith)

abbrev ends : List ℕ
ends = 1 ∷ 3 ∷ 4 ∷ []

receive_lem_example :
    let b = begin_idx ends 1 in
    get_or (receive ends 1 2 (8 ∷ 9 ∷ []) image).io_data 2 0 ≡ (
      if leb b 2 && (ltb 2 (end_idx ends 1) && ltb (2 - b) 2)
      then get_or (8 ∷ 9 ∷ []) (2 - b) 0
      else get_or image.io_data 2 0)
receive_lem_example = receive_lem ends 1 2 (8 ∷ 9 ∷ []) image 2 (omega arith) (omega arith)

abbrev busy : ℕ → Bool
busy n = leb 2 n
