-- ===== src/Boot/Page.antt =====
-- The download of a page by avr/bootloader/bootloader.cpp.
use byt.Base.{
  ℕ, zero, suc, ◌+◌, ◌*◌, ◌%◌, ◌<◌, ◌≤◌, ◌≡◌, refl, sym, ap, ◌∙◌, true, false, Option, none, some,
  List, [], ◌∷◌, ◌++◌, take, drop, ◌==◌, get_or, set, length, bit_xor, arith,
}
use native.Mathlib.Numerals.{unary_clauses}
use byt.Meas.{put_bytes}
use byt.Boot.{pgsize, Boot, Frame, u8min, take_frame, can_rx, into_page, advance, download}

put_bytes-suc :
    (i : ℕ) (bs : List ℕ) (x : ℕ) (d : List ℕ) → put_bytes (suc i) bs (x ∷ d) ≡ x ∷ put_bytes i bs d
unfolding put_bytes
put_bytes-suc i [] x d = refl
put_bytes-suc i (b ∷ bs) x d =
    simp unary_clauses (simp unary_clauses at (put_bytes-suc (i + 1) bs x (set d i b)))

-- Bytes that fill the list from its front replace it.
pub put_bytes_all : (bs d : List ℕ) → length bs ≡ length d → put_bytes 0 bs d ≡ bs
unfolding put_bytes
put_bytes_all [] [] e = refl
put_bytes_all [] (x ∷ d) e = absurd (omega (arith, e))
put_bytes_all (b ∷ bs) [] e = absurd (omega (arith, e))
put_bytes_all (b ∷ bs) (x ∷ d) e =
    put_bytes-suc 0 bs b d ∙ ap (λ q. b ∷ q) (put_bytes_all bs d (omega (arith, e)))

pub put_bytes-append :
    (i : ℕ) (xs bs d : List ℕ)
    → put_bytes i (xs ++ bs) d ≡ put_bytes (i + length xs) bs (put_bytes i xs d)
unfolding put_bytes
put_bytes-append i [] bs d = ap (λ q. put_bytes q bs d) (omega arith)
put_bytes-append i (a ∷ xs) bs d =
    put_bytes-append (i + 1) xs bs (set d i a)
    ∙ ap (λ q. put_bytes q bs (put_bytes (i + 1) xs (set d i a))) (omega arith)

drop_step : (i : ℕ) (m : List ℕ) → i < length m → drop i m ≡ get_or m i 0 ∷ drop (i + 1) m
drop_step i [] h = absurd (omega (arith, h))
drop_step zero (x ∷ m) h = refl
drop_step (suc i) (x ∷ m) h =
    simp unary_clauses (simp unary_clauses at (drop_step i m (omega (arith, h))))

pub take_all : (m : List ℕ) → take (length m) m ≡ m
take_all [] = refl
take_all (x ∷ m) = ap (λ q. x ∷ q) (take_all m)

-- The xor of a byte and a list of bytes.
abbrev pub xor_all : ℕ → List ℕ → ℕ
xor_all x [] = x
xor_all x (b ∷ bs) = xor_all (bit_xor x b) bs

pub xor_all-append : (x : ℕ) (xs bs : List ℕ) → xor_all x (xs ++ bs) ≡ xor_all (xor_all x xs) bs
xor_all-append x [] bs = refl
xor_all-append x (a ∷ xs) bs = xor_all-append (bit_xor x a) xs bs

into_page_lem :
    (n i : ℕ) (s : Boot)
    → n + i ≤ length s.msg
    → into_page n i s ≡ record s {
      page = put_bytes (8 * s.page_in8b + i) (take n (drop i s.msg)) s.page;
      xorsum = xor_all s.xorsum (take n (drop i s.msg));
    }
unfolding into_page put_bytes
into_page_lem zero i s h = refl
into_page_lem (suc n) i s h =
    let b = get_or s.msg i 0 in
    let t = record s { page = set s.page (8 * s.page_in8b + i) b; xorsum = bit_xor s.xorsum b } in
    rw (drop_step i s.msg (omega (arith, h))) (
      into_page_lem n (i + 1) t (omega (arith, h))
      ∙ ap
          (λ q. record t {
            page = put_bytes q (take n (drop (i + 1) s.msg)) t.page;
            xorsum = xor_all t.xorsum (take n (drop (i + 1) s.msg));
          })
          (omega arith))

-- A frame of 8 bytes that came into the object 13.
abbrev pub arrived : List ℕ → Option Frame
arrived bs = some (record { dlc = 8; bytes = bs })

-- The bootloader in the download of a page, `k` messages of which have come.
pub record Loading (k : ℕ) (s : Boot) : Type 0 where
  pub on : s.downloading ≡ true
  pub running : (s.bootloader_finished ≡ false) × ((s.asleep ≡ false) × (s.timeout_disabled ≡ true))
  pub count : s.page_in8b ≡ k
  pub sizes : (length s.msg ≡ 8) × (length s.page ≡ pgsize)

-- The bytes of a message stand in the page, and the sum has them.
unfoldable pub loaded : List ℕ → Boot → Boot
loaded bs s = record s {
  msg = bs;
  msglen = 8;
  page = put_bytes (8 * s.page_in8b) bs s.page;
  xorsum = xor_all s.xorsum bs;
}

pub taken_lem :
    (bs : List ℕ) (s : Boot)
    → length bs ≡ 8
    → length s.msg ≡ 8
    → can_rx (arrived bs) none s ≡ (13, record s { msg = bs; msglen = 8 })
unfolding can_rx take_frame u8min
taken_lem bs s e e' =
    let all : take 8 bs ≡ bs = rw (sym e) (take_all bs) in
    ap (λ q. (13, record s { msg = q; msglen = 8 })) (rw all (put_bytes_all bs s.msg (e ∙ sym e')))

loaded_lem :
    (bs : List ℕ) (s : Boot)
    → length bs ≡ 8
    → into_page 8 0 (record s { msg = bs; msglen = 8 }) ≡ loaded bs s
unfolding loaded
loaded_lem bs s e =
    let all : take 8 bs ≡ bs = rw (sym e) (take_all bs) in
    into_page_lem 8 0 (record s { msg = bs; msglen = 8 }) (omega (arith, e))
    ∙ rw all (
        ap
          (λ q. record s {
            msg = bs;
            msglen = 8;
            page = put_bytes q bs s.page;
            xorsum = xor_all s.xorsum bs;
          })
          (omega arith))

-- The last message of a page is answered by the sum.
unfoldable pub complete : Boot → Boot
complete s = record s {
  page_in8b = 32;
  downloading = false;
  msglen = 2;
  msg = set (set s.msg 0 100) 1 s.xorsum;
}

pub download_more :
    (bs : List ℕ) (k : ℕ) (s : Boot)
    → length bs ≡ 8
    → s.page_in8b ≡ k
    → k < 31
    → download (record s { msg = bs; msglen = 8 }) ≡ record (loaded bs s) { page_in8b = suc k }
unfolding download loaded
download_more bs k s e c h = ap (advance) (loaded_lem bs s e) ∙ more (loaded bs s) c
  where
    more : (t : Boot) → t.page_in8b ≡ k → advance t ≡ record t { page_in8b = suc k }
    more t c =
        unfold advance in
        let n : (k + 1) % 256 ≡ suc k = omega (arith, h) in
        let last : (suc k == 32) ≡ false = ground (arith, h) in rw c (rw n (rw last refl))

pub download_last :
    (bs : List ℕ) (s : Boot)
    → length bs ≡ 8
    → s.page_in8b ≡ 31
    → download (record s { msg = bs; msglen = 8 }) ≡ complete (loaded bs s)
unfolding download loaded
download_last bs s e c = ap (advance) (loaded_lem bs s e) ∙ last (loaded bs s) c
  where
    last : (t : Boot) → t.page_in8b ≡ 31 → advance t ≡ complete t
    last t c = unfold advance complete in rw c refl
