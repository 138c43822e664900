-- ===== src/Boot/Upload.antt =====
-- A page sent to avr/bootloader/bootloader.cpp, message by message.
use byt.Base.{
  ℕ, suc, ◌+◌, ◌*◌, ◌<◌, ◌≡◌, refl, sym, ap, ap₂, subst, take, ◌∙◌, Bool, true, false, not, ◌&&◌,
  ◌||◌, none, List, [], ◌∷◌, ◌++◌, set, length, length-set, All, if-true, if-false, arith,
}
use byt.Meas.{put_bytes}
use byt.Svc.Safety.{length-put_bytes}
use byt.Boot.{Boot, Registers, can_tx, download, obey, answer, on_rx, check_timeout, poll}
use byt.Boot.Page.{
  put_bytes-append, xor_all, xor_all-append, arrived, Loading, loaded, taken_lem, complete,
  download_more, download_last,
}

-- A round that takes a frame into the object 13 while the bootloader waits for messages.
poll-arrived :
    (r : Registers) (bs : List ℕ) (o : Bool) (s : Boot)
    → length bs ≡ 8
    → length s.msg ≡ 8
    → s.bootloader_finished ≡ false
    → s.asleep ≡ false
    → poll r (arrived bs) none o s
      ≡ check_timeout o (answer (obey r 13 (record s { msg = bs; msglen = 8 })))
unfolding poll on_rx
poll-arrived r bs o s e e' run wake =
    if-false (s.bootloader_finished || s.asleep) s _ (ground (arith, run, wake))
    ∙ ap (λ q. check_timeout o (on_rx r q)) (taken_lem bs s e e')

pub check_timeout-off : (o : Bool) (t : Boot) → t.timeout_disabled ≡ true → check_timeout o t ≡ t
unfolding check_timeout
check_timeout-off o t e =
    if-false (not t.asleep && (not t.timeout_disabled && o))
      (record t { bootloader_finished = true }) t (ground (arith, e))

pub answer-more :
    (t : Boot)
    → t.asleep ≡ false
    → t.downloading ≡ true
    → answer (true, t) ≡ record t { timeout_disabled = true }
unfolding answer can_tx
answer-more t e d = rw e (rw d refl)

pub answer-sent :
    (t : Boot)
    → t.asleep ≡ false
    → t.downloading ≡ false
    → answer (true, t) ≡ can_tx (record t { timeout_disabled = true })
unfolding answer
answer-sent t e d =
    let u = record t { timeout_disabled = true } in
    if-false t.asleep t _ e ∙ if-true (not t.downloading) (can_tx u) u (ground (arith, d))

obey-download : (r : Registers) (t : Boot) → t.downloading ≡ true → obey r 13 t ≡ (true, download t)
unfolding obey
obey-download r t e = rw e refl

-- The message of a download, not the last one.
more_lem :
    (r : Registers) (bs : List ℕ) (o : Bool) (k : ℕ) (s : Boot)
    → length bs ≡ 8
    → Loading k s
    → k < 31
    → poll r (arrived bs) none o s
      ≡ record (loaded bs s) { page_in8b = suc k; timeout_disabled = true }
unfolding loaded
more_lem r bs o k s e v h =
    let t = record (loaded bs s) { page_in8b = suc k } in
    poll-arrived r bs o s e v.sizes.0 v.running.0 v.running.1.0
    ∙ ap (λ q. check_timeout o (answer q))
        (obey-download r (record s { msg = bs; msglen = 8 }) v.on
          ∙ ap (λ q. (true, q)) (download_more bs k s e v.count h))
    ∙ ap (check_timeout o) (answer-more t v.running.1.0 v.on)
    ∙ check_timeout-off o (record t { timeout_disabled = true }) refl

-- The last message of a page.
last_lem :
    (r : Registers) (bs : List ℕ) (o : Bool) (s : Boot)
    → length bs ≡ 8
    → Loading 31 s
    → poll r (arrived bs) none o s
      ≡ can_tx (record (complete (loaded bs s)) { timeout_disabled = true })
unfolding loaded complete can_tx
last_lem r bs o s e v =
    let t = complete (loaded bs s) in
    poll-arrived r bs o s e v.sizes.0 v.running.0 v.running.1.0
    ∙ ap (λ q. check_timeout o (answer q))
        (obey-download r (record s { msg = bs; msglen = 8 }) v.on
          ∙ ap (λ q. (true, q)) (download_last bs s e v.count))
    ∙ ap (check_timeout o) (answer-sent t v.running.1.0 refl)
    ∙ check_timeout-off o (can_tx (record t { timeout_disabled = true })) refl

-- Messages one after another, the timer overrunning in any of the rounds.
abbrev pub feed : Registers → List (Bool × List ℕ) → Boot → Boot
feed r [] s = s
feed r ((o, bs) ∷ fs) s = feed r fs (poll r (arrived bs) none o s)

abbrev pub bytes_of : List (Bool × List ℕ) → List ℕ
bytes_of [] = []
bytes_of ((o, bs) ∷ fs) = bs ++ bytes_of fs

abbrev pub IsFull : Bool × List ℕ → Type 0
IsFull f = length f.1 ≡ 8

-- The bootloader after a page whose sum is `x`.
pub record Received (p : List ℕ) (x : ℕ) (s t : Boot) : Type 0 where
  pub page_is : t.page ≡ p
  pub sent_is : t.sent ≡ (100 ∷ x ∷ []) ∷ s.sent
  pub waits :
      (t.downloading ≡ false)
      × ((t.bootloader_finished ≡ false) × ((t.asleep ≡ false) × (t.timeout_disabled ≡ true)))
  pub flash_is : t.flash ≡ s.flash
  pub size : length t.msg ≡ 8

loaded-Loading :
    (bs : List ℕ) (k : ℕ) (s : Boot)
    → length bs ≡ 8
    → Loading k s
    → Loading (suc k) (record (loaded bs s) { page_in8b = suc k; timeout_disabled = true })
unfolding loaded
loaded-Loading bs k s e v = record {
  on = v.on;
  running = (v.running.0, (v.running.1.0, refl));
  count = refl;
  sizes = (e, length-put_bytes (8 * s.page_in8b) bs s.page ∙ v.sizes.1);
}

two :
    (bs : List ℕ) (x : ℕ) (sent : List (List ℕ))
    → length bs ≡ 8
    → take 2 (set (set bs 0 100) 1 x) ∷ sent ≡ (100 ∷ x ∷ []) ∷ sent
two [] x sent e = absurd (omega (arith, e))
two (a ∷ []) x sent e = absurd (omega (arith, e))
two (a ∷ b ∷ bs) x sent e = refl

pub feed_lem :
    (r : Registers) (fs : List (Bool × List ℕ)) (k : ℕ) (s : Boot)
    → k + suc (length fs) ≡ 32
    → (f : Bool × List ℕ) → All IsFull (f ∷ fs)
    → Loading k s
    → Received
        (put_bytes (8 * k) (bytes_of (f ∷ fs)) s.page)
        (xor_all s.xorsum (bytes_of (f ∷ fs)))
        s
        (feed r (f ∷ fs) s)
unfolding loaded complete can_tx put_bytes
feed_lem r [] k s h (o, bs) full v =
    let k31 : k ≡ 31 = omega (arith, h) in
    let x = xor_all s.xorsum bs in
    rw (last_lem r bs o s full.0 (subst (λ q. Loading q s) k31 v)) (record {
      page_is =
          ap (λ q. put_bytes (8 * q) bs s.page) v.count
          ∙ sym (put_bytes-append (8 * k) bs [] s.page);
      sent_is =
          two bs x s.sent full.0
          ∙ ap (λ q. (100 ∷ q ∷ []) ∷ s.sent) (sym (xor_all-append s.xorsum bs []));
      waits = (refl, (v.running.0, (v.running.1.0, refl)));
      flash_is = refl;
      size = length-set (set bs 0 100) 1 x ∙ length-set bs 0 100 ∙ full.0;
    })
feed_lem r (g ∷ fs) k s h (o, bs) full v =
    let t = record (loaded bs s) { page_in8b = suc k; timeout_disabled = true } in
    let rest =
      feed_lem r fs (suc k) t (omega (arith, h)) g full.1 (loaded-Loading bs k s full.0 v) in
    let i : 8 * suc k ≡ 8 * k + length bs = omega (arith, full.0) in
    let more = bytes_of (g ∷ fs) in
    rw (more_lem r bs o k s full.0 v (omega (arith, h))) (record {
      page_is =
          rest.page_is
          ∙ ap₂ (λ q w. put_bytes q more (put_bytes (8 * w) bs s.page)) i v.count
          ∙ sym (put_bytes-append (8 * k) bs more s.page);
      sent_is =
          rest.sent_is ∙ ap (λ q. (100 ∷ q ∷ []) ∷ s.sent) (sym (xor_all-append s.xorsum bs more));
      waits = rest.waits;
      flash_is = rest.flash_is;
      size = rest.size;
    })
