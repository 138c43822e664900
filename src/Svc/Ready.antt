-- ===== src/Svc/Ready.antt =====
-- Messages of avr/fw/main.cpp that are ready to be sent: the bytes that the commands of `svc` append.
use byt.Base.{
  ℕ, zero, suc, ◌+◌, ◌%◌, ◌<◌, ◌≤◌, ◌≡◌, ◌⊎◌, inl, inr, refl, ◌∙◌, Bool, true, false, List, length,
  length-set, ltb, if◌then◌else◌, get_or, set, get_or-set_self, get_or-set_ne, Bool-cases, arith,
}
use byt.Gpio.{Gpio}
use byt.Svc.State.{Fw, reply_len, push, cmd_invalid}
use byt.Svc.Config.{get_alloc_counts}
use byt.Svc.Ports.{push_ports}
use byt.Svc.Bus.{push_data}
use byt.Svc.Sensor.{push_buf}

-- The message `m` of length `n` is ready to be sent, and begins with the code `c` or with the mark of
-- a refusal.
unfoldable pub Ok : ℕ → List ℕ → ℕ → Type 0
Ok c m n = ((get_or m 0 0 ≡ c) ⊎ (get_or m 0 0 ≡ cmd_invalid)) × (0 < n) × (n ≤ 8) × (length m ≡ 8)

abbrev pub Ready : ℕ → Fw → Type 0
Ready c t = Ok c t.msg t.msglen

pub set-Ok : (c : ℕ) (m : List ℕ) (n i v : ℕ) → 0 < i → Ok c m n → Ok c (set m i v) n
unfolding Ok
set-Ok c m n i v h ok =
    (rw (get_or-set_ne m i 0 v 0 (λ q. omega (arith, q))) ok.0, ok.1, ok.2, length-set m i v ∙ ok.3)

pub resized : (c : ℕ) (m : List ℕ) (n k : ℕ) → 0 < k → k ≤ 8 → Ok c m n → Ok c m k
unfolding Ok
resized c m n k h h' ok = (ok.0, h, h', ok.3)

pub refused :
    (c : ℕ) (m : List ℕ) (n k : ℕ) → 0 < k → k ≤ 8 → Ok c m n → Ok c (set m 0 cmd_invalid) k
unfolding Ok
refused c m n k h h' ok = (
  inr (get_or-set_self m 0 cmd_invalid 0 (omega (arith, ok.3))),
  h,
  h',
  length-set m 0 cmd_invalid ∙ ok.3,
)

pub pushed : (c v : ℕ) (t : Fw) → t.msglen ≤ 7 → Ready c t → Ready c (push v t)
unfolding push Ok
pushed c v t h ok =
    resized c (set t.msg t.msglen v) t.msglen ((t.msglen + 1) % 256) (omega arith) (omega arith)
      (set-Ok c t.msg t.msglen t.msglen v ok.1 ok)

pub one : (c : ℕ) (s : Fw) → Ready c s → Ready c (reply_len 1 s)
unfolding reply_len
one c s ok = resized c s.msg s.msglen 1 (omega arith) (omega arith) ok

pub pushed-len : (v : ℕ) (t : Fw) (n : ℕ) → t.msglen ≡ n → n ≤ 7 → (push v t).msglen ≡ suc n
unfolding push
pushed-len v t n e h = omega arith

pub push_ports-Ready :
    (c : ℕ) (get : Gpio → ℕ → ℕ) (n port k : ℕ) (s : Fw)
    → s.msglen ≡ k
    → k + n ≤ 8
    → Ready c s
    → Ready c (push_ports get n port s)
unfolding push_ports
push_ports-Ready c get zero port k s e h ok = ok
push_ports-Ready c get (suc n) port k s e h ok =
    push_ports-Ready c get n (port + 1) (suc k) (push (get s.gpio port) s)
      (pushed-len (get s.gpio port) s k e (omega arith)) (omega arith)
      (pushed c (get s.gpio port) s (omega arith) ok)

pub push_data-Ready :
    (c n index size k : ℕ) (s : Fw)
    → s.msglen ≡ k
    → k + n ≤ 8
    → Ready c s
    → Ready c (push_data n index size s)
unfolding push_data
push_data-Ready c zero index size k s e h ok = ok
push_data-Ready c (suc n) index size k s e h ok =
    let rest =
      push_data-Ready c n (index + 1) size (suc k) (push (get_or s.ow.ow_data index 0) s)
        (pushed-len (get_or s.ow.ow_data index 0) s k e (omega arith)) (omega arith)
        (pushed c (get_or s.ow.ow_data index 0) s (omega arith) ok) in
    elim (Bool-cases (ltb index size)) [ inl t ↦ rw t rest | inr t ↦ rw t ok ]

pub push_buf-Ready :
    (c n i k : ℕ) (s : Fw) → s.msglen ≡ k → k + n ≤ 8 → Ready c s → Ready c (push_buf n i s)
unfolding push_buf
push_buf-Ready c zero i k s e h ok = ok
push_buf-Ready c (suc n) i k s e h ok =
    push_buf-Ready c n (i + 1) (suc k) (push (get_or s.scd.twi.buf i 0) s)
      (pushed-len (get_or s.scd.twi.buf i 0) s k e (omega arith)) (omega arith)
      (pushed c (get_or s.scd.twi.buf i 0) s (omega arith) ok)

-- A choice of two ready messages.
pub either : (c : ℕ) (b : Bool) (s t : Fw) → Ready c s → Ready c t → Ready c (if b then s else t)
either c true s t u v = u
either c false s t u v = v

-- A ready message of a known length.
unfoldable pub At : ℕ → ℕ → Fw → Type 0
At c n t = Ready c t × (t.msglen ≡ n)

pub one-At : (c : ℕ) (s : Fw) → Ready c s → At c 1 (reply_len 1 s)
unfolding At reply_len
one-At c s ok = (one c s ok, refl)

pub push-At : (c n v : ℕ) (t : Fw) → n ≤ 7 → At c n t → At c (suc n) (push v t)
unfolding At
push-At c n v t h a = (pushed c v t (omega (arith, a.1)) a.0, pushed-len v t n a.1 h)

pub At-Ready : (c n : ℕ) (t : Fw) → At c n t → Ready c t
unfolding At
At-Ready c n t a = a.0

pub get_counts-Ready : (c : ℕ) (s : Fw) → Ready c s → Ready c (get_alloc_counts s)
unfolding get_alloc_counts
get_counts-Ready c s ok = At-Ready c 8 _ (
    push-At c 7 _ _ (omega arith) (
      push-At c 6 _ _ (omega arith) (
        push-At c 5 _ _ (omega arith) (
          push-At c 4 _ _ (omega arith) (
            push-At c 3 _ _ (omega arith)
              (push-At c 2 _ _ (omega arith) (push-At c 1 _ _ (omega arith) (one-At c s ok))))))))
