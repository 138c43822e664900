-- ===== src/Reku/Polls.antt =====
-- A frame whose bytes come among polls that find nothing: `do_rx` of rekuperacia_fw/main.c.
use byt.Base.{ℕ, suc, ◌≡◌, refl, ap, ◌∙◌, false, List, [], ◌∷◌, All, bit_and, arith}
use byt.Reku.{Reku, mark_mask, mark_cmd, ms_ticks, timeout16, quiet, byte, on_quiet, do_rx}
use byt.Reku.Receive.{
  IsReady, feed, middle, on_quiet-IsReady, first_byte, next_byte, third_byte, four,
}

-- Polls that find nothing, at the given times.
unfoldable pub quiets : List ℕ → Reku → Reku
quiets [] s = s
quiets (t ∷ ts) s = quiets ts (do_rx t quiet s)

-- No poll is more than 50 ms after a time.
abbrev pub Within : ℕ → List ℕ → Type 0
Within t0 = All (λ t. timeout16 t t0 (ms_ticks 50) ≡ false)

-- A frame of four bytes with quiet polls in between.
unfoldable pub hears : (t0 t1 t2 t3 : ℕ) (q1 q2 q3 : List ℕ) (c p0 p1 k : ℕ) → Reku → Reku
unfolding quiets
hears t0 t1 t2 t3 q1 q2 q3 c p0 p1 k s =
    let a = quiets q1 (do_rx t0 (byte c false) s) in
    let b = quiets q2 (do_rx t1 (byte p0 false) a) in
    do_rx t3 (byte k false) (quiets q3 (do_rx t2 (byte p1 false) b))

pub quiets-IsReady : (ts : List ℕ) (s : Reku) → IsReady s → IsReady (quiets ts s)
unfolding quiets do_rx
quiets-IsReady [] s h = h
quiets-IsReady (t ∷ ts) s h = quiets-IsReady ts (on_quiet t s) (on_quiet-IsReady t s h)

-- In the middle of a frame a quiet poll changes nothing in time.
quiet_in_time :
    (n t led u : ℕ) (rx : List ℕ) (s : Reku)
    → timeout16 t u (ms_ticks 50) ≡ false
    → do_rx t quiet (middle (suc n) rx led u s) ≡ middle (suc n) rx led u s
unfolding do_rx on_quiet middle
quiet_in_time n t led u rx s h = rw h (ground arith)

quiets_in_time :
    (n led u : ℕ) (rx ts : List ℕ) (s : Reku)
    → Within u ts
    → quiets ts (middle (suc n) rx led u s) ≡ middle (suc n) rx led u s
unfolding quiets
quiets_in_time n led u rx [] s h = refl
quiets_in_time n led u rx (t ∷ ts) s h =
    ap (quiets ts) (quiet_in_time n t led u rx s h.0) ∙ quiets_in_time n led u rx ts s h.1

-- Such polls change nothing in what the unit makes of a frame.
pub hears-feed :
    (t0 t1 t2 t3 : ℕ) (q1 q2 q3 : List ℕ) (c p0 p1 k : ℕ) (s : Reku)
    → IsReady s
    → bit_and c mark_mask ≡ mark_cmd
    → Within t0 q1
    → Within t0 q2
    → Within t0 q3
    → hears t0 t1 t2 t3 q1 q2 q3 c p0 p1 k s ≡ feed t0 t1 t2 t3 c p0 p1 k s
unfolding hears
hears-feed t0 t1 t2 t3 q1 q2 q3 c p0 p1 k s h m w1 w2 w3 =
    let (a, b, d, e, r) = four s.reku_rx h.room in
    rw
      (
        first_byte t0 c a b d e s h.reading h.at_start r m,
        quiets_in_time 0 0 t0 (c ∷ b ∷ d ∷ e ∷ []) q1 s w1,
        next_byte t1 t0 p0 c b d e s,
        quiets_in_time 1 0 t0 (c ∷ p0 ∷ d ∷ e ∷ []) q2 s w2,
        third_byte t2 t0 p1 c p0 d e s,
        quiets_in_time 2 0 t0 (c ∷ p0 ∷ p1 ∷ e ∷ []) q3 s w3,
      )
      refl
