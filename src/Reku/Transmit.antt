-- ===== src/Reku/Transmit.antt =====
-- The transmitter of rekuperacia_fw/main.c: a report goes out byte by byte, whenever the USART takes
-- the next one.
use mathlib.Core.List.{append_assoc, append-nil}
use byt.Base.{
  ℕ, zero, suc, ◌+◌, ◌-◌, ◌≡◌, refl, ap, sym, ◌∙◌, Bool, true, false, List, [], ◌∷◌, ◌++◌, get_or,
  length, take, drop, arith,
}
use byt.Crc.{crc_from}
use byt.Reku.{Reku, tx_idle, tx_pending, report, start_tx, do_tx}

-- Calls of `do_tx`, each with TX1IF and TRMT.
abbrev pub transmits : List (Bool × Bool) → Reku → Reku
transmits [] s = s
transmits ((tx1if, trmt) ∷ ps) s = transmits ps (do_tx tx1if trmt s)

-- How often TX1IF was set.
abbrev pub ready : List (Bool × Bool) → ℕ
ready [] = 0
ready ((true, trmt) ∷ ps) = suc (ready ps)
ready ((false, trmt) ∷ ps) = ready ps

-- `report` with its checksum.
abbrev pub frame : ℕ → Reku → List ℕ
frame mark s = report mark s ++ crc_from 0 (report mark s) ∷ []

drop_head :
    (l : List ℕ) (i x : ℕ) (xs : List ℕ)
    → drop i l ≡ x ∷ xs
    → (get_or l i 0 ≡ x) × (drop (suc i) l ≡ xs)
drop_head [] zero x xs h = cc
drop_head [] (suc i) x xs h = cc
drop_head (y ∷ l) zero x xs h = (cc, cc)
drop_head (y ∷ l) (suc i) x xs h = drop_head l i x xs h

idle_sends :
    (ps : List (Bool × Bool)) (s : Reku) → s.tx_state ≡ tx_idle → (transmits ps s).sent ≡ s.sent
unfolding do_tx
idle_sends [] s e = refl
idle_sends ((a, b) ∷ ps) s e =
    let same : do_tx a b s ≡ s = ground (arith) in
    ap (λ q. (transmits ps q).sent) same ∙ idle_sends ps s e

over_sends :
    (ps : List (Bool × Bool)) (s : Reku)
    → s.tx_state ≡ tx_pending
    → s.tx_idx ≡ 10
    → (transmits ps s).sent ≡ s.sent
over_sends [] s e i = refl
over_sends ((a, true) ∷ ps) s e i =
    let same : do_tx a true s ≡ record s { tx_state = tx_idle; led = 1 - s.led } =
      unfold do_tx in ground (arith) in
    ap (λ q. (transmits ps q).sent) same
    ∙ idle_sends ps (record s { tx_state = tx_idle; led = 1 - s.led }) refl
over_sends ((a, false) ∷ ps) s e i =
    let same : do_tx a false s ≡ s = unfold do_tx in ground (arith) in
    ap (λ q. (transmits ps q).sent) same ∙ over_sends ps s e i

take_nil : (n : ℕ) → ◌≡◌ {A = List ℕ} (take n []) []
take_nil zero = refl
take_nil (suc n) = refl

sends :
    (ps : List (Bool × Bool)) (s : Reku) (i : ℕ) (rest : List ℕ)
    → s.tx_state ≡ tx_pending
    → s.tx_idx ≡ i
    → drop i s.reku_tx ≡ rest
    → length rest + i ≡ 10
    → (transmits ps s).sent ≡ s.sent ++ take (ready ps) rest
sends [] s i rest e k d n = sym (append-nil s.sent)
sends ((a, b) ∷ ps) s i [] e k d n =
    over_sends ((a, b) ∷ ps) s e (omega arith)
    ∙ sym (append-nil s.sent)
    ∙ ap (λ q. s.sent ++ q) (sym (take_nil (ready ((a, b) ∷ ps))))
sends ((true, b) ∷ ps) s i (x ∷ xs) e k d n =
    let h = drop_head s.reku_tx i x xs d in
    let t = record s { tx_idx = suc i; sent = s.sent ++ x ∷ [] } in
    let step : do_tx true b s ≡ t = unfold do_tx in ground (arith, h.0) in
    ap (λ q. (transmits ps q).sent) step
    ∙ sends ps t (suc i) xs e refl (h.1) (omega arith)
    ∙ append_assoc s.sent (x ∷ []) (take (ready ps) xs)
sends ((false, b) ∷ ps) s i (x ∷ xs) e k d n =
    let same : do_tx false b s ≡ s = unfold do_tx in ground (arith) in
    ap (λ q. (transmits ps q).sent) same ∙ sends ps s i (x ∷ xs) e k d n

length-frame : (mark : ℕ) (s : Reku) → length (frame mark s) ≡ 10
unfolding report
length-frame mark s = refl

-- A transmission that is started by an idle transmitter: however the calls of `do_tx` fall and whatever
-- the flags show, what has been written so far are the first bytes of the report with its checksum, as
-- many as there were calls that found the USART ready (all ten when there were more).
pub transmits_lem :
    (mark : ℕ) (ps : List (Bool × Bool)) (s : Reku)
    → s.tx_state ≡ tx_idle
    → (transmits ps (start_tx mark s)).sent ≡ s.sent ++ take (ready ps) (frame mark s)
unfolding start_tx
transmits_lem mark ps s e =
    let t = record s { reku_tx = frame mark s; tx_idx = 0; tx_state = tx_pending } in
    let started : start_tx mark s ≡ t = ground (arith) in
    ap (λ q. (transmits ps q).sent) started
    ∙ sends ps t 0 (frame mark s) refl refl refl (omega (arith, length-frame mark s))
