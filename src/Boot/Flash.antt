-- ===== src/Boot/Flash.antt =====
-- A page written to the flash by avr/bootloader/bootloader.cpp.
use byt.Base.{
  ℕ, zero, suc, ◌+◌, ◌*◌, ◌%◌, ◌^◌, ◌<◌, ◌≤◌, ◌≡◌, refl, sym, ap, ap₂, take, ◌∙◌, Bool, true, false,
  ◌||◌, none, some, List, [], ◌∷◌, ◌++◌, get_or, get_elem?, length, length-append, All, if-false,
  arith,
}
use byt.Meas.{put_bytes}
use byt.Svc.Safety.{length-put_bytes}
use byt.Boot.{
  erased, filled, written, pgsize, Boot, Registers, Frame, u8min, take_frame, can_rx, can_tx, fills,
  boot_program_page, page_addr, command, execute, obey, answer, on_rx, check_timeout, poll,
}
use byt.Boot.Page.{xor_all, Loading, put_bytes_all}
use byt.Boot.Upload.{
  check_timeout-off, answer-more, answer-sent, feed, bytes_of, IsFull, Received, feed_lem,
}

fills_lem :
    (n i a : ℕ) (buf : List ℕ) (j : ℕ)
    → j < n
    → get_elem? (fills n i a buf) j
      ≡ some (
          filled
            (a + (i + 2 * j))
            ((get_or buf (i + 2 * j) 0 + get_or buf (i + 2 * j + 1) 0 * 256) % 2 ^ 16))
unfolding fills
fills_lem zero i a buf j h = absurd (omega (arith, h))
fills_lem (suc n) i a buf zero h =
    ap (λ q. some (filled (a + q) ((get_or buf q 0 + get_or buf (q + 1) 0 * 256) % 2 ^ 16)))
      (omega arith)
fills_lem (suc n) i a buf (suc j) h =
    fills_lem n (i + 2) a buf j (omega (arith, h))
    ∙ ap (λ q. some (filled (a + q) ((get_or buf q 0 + get_or buf (q + 1) 0 * 256) % 2 ^ 16)))
        (omega arith)

length-fills : (n i a : ℕ) (buf : List ℕ) → length (fills n i a buf) ≡ n
unfolding fills
length-fills zero i a buf = refl
length-fills (suc n) i a buf = ap suc (length-fills n (i + 2) a buf)

elem-left :
    {A : Type 0} (xs ys : List A) (j : ℕ) → j < length xs → get_elem? (xs ++ ys) j ≡ get_elem? xs j
elem-left [] ys j h = absurd (omega (arith, h))
elem-left (x ∷ xs) ys zero h = refl
elem-left (x ∷ xs) ys (suc j) h = elem-left xs ys j (omega (arith, h))

-- `boot_program_page` erases the page, fills the 128 words in the order of their addresses, each with
-- two bytes of the buffer, the lower one first, and writes the page; it makes no other change.
pub boot_program_page_lem :
    (a : ℕ) (buf : List ℕ)
    → (get_elem? (boot_program_page a buf) 0 ≡ some (erased a))
      × ((j : ℕ)
          → j < 128
          → get_elem? (boot_program_page a buf) (suc j)
            ≡ some (
                filled
                  (a + 2 * j)
                  ((get_or buf (2 * j) 0 + get_or buf (2 * j + 1) 0 * 256) % 2 ^ 16)))
      × (get_elem? (boot_program_page a buf) 129 ≡ some (written a))
      × (length (boot_program_page a buf) ≡ 130)
unfolding boot_program_page
boot_program_page_lem a buf = (refl, words, refl, refl)
  where
    words :
        (j : ℕ)
        → j < 128
        → get_elem? (fills 128 0 a buf ++ (written a ∷ [])) j
          ≡ some (
              filled (a + 2 * j) ((get_or buf (2 * j) 0 + get_or buf (2 * j + 1) 0 * 256) % 2 ^ 16))
    words j h =
        elem-left (fills 128 0 a buf) (written a ∷ []) j
          (omega (arith, h, length-fills 128 0 a buf))
        ∙ fills_lem 128 0 a buf j h
        ∙ ap (λ q. some (filled (a + q) ((get_or buf q 0 + get_or buf (q + 1) 0 * 256) % 2 ^ 16)))
            (omega arith)

-- The bootloader between two messages, no download being under way.
pub record Waiting (s : Boot) : Type 0 where
  pub idle : (s.downloading ≡ false) × ((s.bootloader_finished ≡ false) × (s.asleep ≡ false))
  pub sizes : (length s.msg ≡ 8) × (length s.page ≡ pgsize)

poll-command :
    (r : Registers) (f : Frame) (o : Bool) (s : Boot)
    → Waiting s
    → (0 < f.dlc)
    → (f.dlc ≤ 8)
    → poll r (some f) none o s
      ≡ check_timeout o
          (answer (execute (command (get_or (take_frame f s).msg 0 0)) r 13 (take_frame f s)))
unfolding poll
poll-command r f o s v h h' =
    if-false (s.bootloader_finished || s.asleep) s _ (ground (arith, v.idle.1.0, v.idle.1.1))
    ∙ ap (λ q. check_timeout o (on_rx r q)) rx
    ∙ ap (λ q. check_timeout o (answer q)) obeyed
  where
    rx : can_rx (some f) none s ≡ (13, take_frame f s)
    rx = ap (λ q. (q, take_frame f s)) (unfold can_rx take_frame u8min in ground (arith, h, h'))

    obeyed :
        obey r 13 (take_frame f s)
        ≡ execute (command (get_or (take_frame f s).msg 0 0)) r 13 (take_frame f s)
    obeyed = unfold obey take_frame in if-false s.downloading _ _ v.idle.0

-- The messages of `upload_fw`: the start of a page, and its address.
abbrev pub start_page : Frame
start_page = record { dlc = 1; bytes = 100 ∷ [] }

abbrev pub program_page : ℕ → ℕ → ℕ → ℕ → Frame
program_page a b c d = record { dlc = 5; bytes = 102 ∷ a ∷ b ∷ c ∷ d ∷ [] }

abbrev pub upload : Registers → Bool → List (Bool × List ℕ) → Bool → Frame → Boot → Boot
upload r o fs o' f s = poll r (some f) none o' (feed r fs (poll r (some start_page) none o s))

message_of : (m : List ℕ) → length m ≡ 8 → get_or (put_bytes 0 (100 ∷ []) m) 0 0 ≡ 100
unfolding put_bytes
message_of [] e = absurd (omega (arith, e))
message_of (x ∷ m) e = refl

started : Boot → Boot
started s = record (take_frame start_page s) {
  downloading = true;
  page_in8b = 0;
  xorsum = 0xA5;
  timeout_disabled = true;
}

start_lem :
    (r : Registers) (o : Bool) (s : Boot)
    → Waiting s
    → poll r (some start_page) none o s ≡ started s
unfolding started execute take_frame u8min
start_lem r o s v =
    let t = record (take_frame start_page s) { downloading = true; page_in8b = 0; xorsum = 0xA5 } in
    let letter : get_or (take_frame start_page s).msg 0 0 ≡ 100 = message_of s.msg v.sizes.0 in
    poll-command r start_page o s v (omega arith) (omega arith)
    ∙ ap (λ q. check_timeout o (answer (execute (command q) r 13 (take_frame start_page s)))) letter
    ∙ ap (check_timeout o) (answer-more t v.idle.1.1 refl)
    ∙ check_timeout-off o (started s) refl

started-Loading : (s : Boot) → Waiting s → Loading 0 (started s)
unfolding started take_frame
started-Loading s v = record {
  on = refl;
  running = (v.idle.1.0, (v.idle.1.1, refl));
  count = refl;
  sizes = (length-put_bytes 0 (take (u8min 1 8) (100 ∷ [])) s.msg ∙ v.sizes.0, v.sizes.1);
}

length-bytes_of : (fs : List (Bool × List ℕ)) → All IsFull fs → length (bytes_of fs) ≡ 8 * length fs
length-bytes_of [] full = refl
length-bytes_of ((o, bs) ∷ fs) full =
    omega (arith, length-append bs (bytes_of fs), length-bytes_of fs full.1, full.0)

letter_f :
    (a b c d : ℕ) (m : List ℕ)
    → length m ≡ 8
    → let q = put_bytes 0 (102 ∷ a ∷ b ∷ c ∷ d ∷ []) m in
      (get_or q 0 0 ≡ 102)
      × (page_addr q ≡ a + 256 * (b + 256 * (c + 256 * d)))
      × (take 1 q ≡ 102 ∷ [])
unfolding put_bytes page_addr
letter_f a b c d (x ∷ y ∷ z ∷ w ∷ v ∷ m) e = (refl, refl, refl)
letter_f a b c d [] e = absurd (omega (arith, e))
letter_f a b c d (x ∷ []) e = absurd (omega (arith, e))
letter_f a b c d (x ∷ y ∷ []) e = absurd (omega (arith, e))
letter_f a b c d (x ∷ y ∷ z ∷ []) e = absurd (omega (arith, e))
letter_f a b c d (x ∷ y ∷ z ∷ w ∷ []) e = absurd (omega (arith, e))

programmed : ℕ → ℕ → ℕ → ℕ → Boot → Boot
programmed a b c d s =
    let t = take_frame (program_page a b c d) s in
    record t {
      flash = s.flash ++ boot_program_page (a + 256 * (b + 256 * (c + 256 * d))) s.page;
      msglen = 1;
      timeout_disabled = true;
      sent = (102 ∷ []) ∷ s.sent;
    }

program_lem :
    (r : Registers) (o : Bool) (a b c d : ℕ) (s : Boot)
    → Waiting s
    → poll r (some (program_page a b c d)) none o s ≡ programmed a b c d s
unfolding programmed execute take_frame u8min can_tx
program_lem r o a b c d s v =
    let f = program_page a b c d in
    let is = letter_f a b c d s.msg v.sizes.0 in
    let t = record (take_frame f s) {
      flash = s.flash ++ boot_program_page (page_addr (take_frame f s).msg) s.page;
      msglen = 1;
    } in
    poll-command r f o s v (omega arith) (omega arith)
    ∙ ap (λ q. check_timeout o (answer (execute (command q) r 13 (take_frame f s)))) is.0
    ∙ ap (check_timeout o) (answer-sent t v.idle.1.1 v.idle.0)
    ∙ check_timeout-off o (can_tx (record t { timeout_disabled = true })) refl
    ∙ ap₂
        (λ p q. record t {
          flash = s.flash ++ boot_program_page p s.page;
          timeout_disabled = true;
          sent = q ∷ s.sent;
        })
        is.1 is.2

programmed-Waiting : (a b c d : ℕ) (s : Boot) → Waiting s → Waiting (programmed a b c d s)
unfolding programmed take_frame
programmed-Waiting a b c d s w = record {
  idle = w.idle;
  sizes = (
    length-put_bytes 0 (take (u8min 5 8) (102 ∷ a ∷ b ∷ c ∷ d ∷ [])) s.msg ∙ w.sizes.0,
    w.sizes.1,
  );
}

Received-Waiting :
    (p : List ℕ) (x : ℕ) (s t : Boot) → length p ≡ pgsize → Received p x s t → Waiting t
Received-Waiting p x s t e g = record {
  idle = (g.waits.0, (g.waits.1.0, g.waits.1.1.0));
  sizes = (g.size, ap length g.page_is ∙ e);
}

-- A page uploaded to a waiting bootloader: after the letter d, 32 messages of 8 bytes and the letter f
-- with an address, whatever the timer does, the flash operations are those of writing exactly the
-- bytes of the messages to the address; the two answers were the sum of these bytes, from 0xA5 on, and
-- the letter f; and the bootloader waits again.
pub upload_lem :
    (r : Registers) (o o' : Bool) (a b c d : ℕ) (fs : List (Bool × List ℕ)) (s : Boot)
    → Waiting s
    → length fs ≡ 32
    → All IsFull fs
    → let t = upload r o fs o' (program_page a b c d) s in
      (t.flash ≡ s.flash ++ boot_program_page (a + 256 * (b + 256 * (c + 256 * d))) (bytes_of fs))
      × (t.sent ≡ (102 ∷ []) ∷ (100 ∷ xor_all 0xA5 (bytes_of fs) ∷ []) ∷ s.sent)
      × Waiting t
unfolding programmed started take_frame
upload_lem r o o' a b c d [] s v n full = absurd (omega (arith, n))
upload_lem r o o' a b c d (f ∷ fs) s v n full =
    let st = started s in
    let size = length-bytes_of (f ∷ fs) full in
    let full_page =
      put_bytes_all (bytes_of (f ∷ fs)) s.page (size ∙ omega (arith, n) ∙ sym v.sizes.1) in
    let g = feed_lem r fs 0 st (omega (arith, n)) f full (started-Loading s v) in
    let u = feed r (f ∷ fs) st in
    let w =
      Received-Waiting _ _ st u (length-put_bytes 0 (bytes_of (f ∷ fs)) s.page ∙ v.sizes.1) g in
    rw (start_lem r o s v) (
      rw (program_lem r o' a b c d u w) (
        ap₂ (λ l p. l ++ boot_program_page (a + 256 * (b + 256 * (c + 256 * d))) p) g.flash_is
            (g.page_is ∙ full_page),
        ap (λ q. (102 ∷ []) ∷ q) g.sent_is,
        programmed-Waiting a b c d u w,
      ))
