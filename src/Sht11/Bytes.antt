-- ===== src/Sht11/Bytes.antt =====
-- The bytes on the wires of the humidity sensor: `sendByte` and `recvByte` of avr/fw/sht11_sm.cpp,
-- as the other end of the wires sees them.
use byt.Base.{
  ℕ, zero, suc, ◌+◌, ◌*◌, ◌<◌, ◌≡◌, refl, sym, subst, Bool, true, false, not, ◌&&◌, to_nat, ◌==◌,
  if◌then◌else◌, ==_iff, bit_at, all_below, all_below_sound,
}
use byt.Sht11.Wire.{
  Sht, send_byte, recv_byte, clk0, clk1, data_pull, data_release, goto, count_bit, send_bit,
  sent_bit, recv_bit, do_sm_l1_in, do_sm_l1,
}

-- `n` calls, while the line reads `line`.
pub run : ℕ → Bool → Sht → Sht
run zero line s = s
run (suc n) line s = run n line (do_sm_l1 line s)

-- What the other end hears in `n` calls: at each rising edge of the clock it shifts in a one if the
-- line wire is not pulled low.
pub hear : ℕ → ℕ → Sht → ℕ
hear zero acc s = acc
hear (suc n) acc s =
    let t = do_sm_l1 true s in
    let bit = acc * 2 + to_nat (not t.pulled) in
    let next = if not s.clk && t.clk then bit else acc in hear n next t

-- What is received when the other end drives the bit `k` of `v` while the clock is high in the
-- triple of calls for it, from the bit `k - 1` down to 0.
pub answer : ℕ → ℕ → Sht → Sht
answer zero v s = s
answer (suc k) v s = answer k v (run 3 (bit_at v k == 1) s)

hears : Sht → ℕ → Bool
hears s v = hear 24 0 (send_byte v (record s { clk = false })) == v

hears_all : (s : Sht) → all_below 256 (hears s) ≡ true
unfolding hears hear all_below send_byte do_sm_l1 do_sm_l1_in sent_bit send_bit data_pull
    data_release goto count_bit clk0 clk1
hears_all s = refl

-- In the first 24 calls after `send_byte v` with the clock low, the other end hears the eight bits
-- of the byte `v`, the highest first.
pub hear-send_byte : (v : ℕ) (s : Sht) → v < 256 → s.clk ≡ false → hear 24 0 (send_byte v s) ≡ v
unfolding hears send_byte
hear-send_byte v s h low =
    subst (λ c. hear 24 0 (send_byte v (record s { clk = c })) ≡ v) (sym low)
      ((==_iff _ v).0 (all_below_sound 256 (hears s) v (hears_all s) h))

answers : Bool → Sht → ℕ → Bool
answers ack s v = (answer 8 v (recv_byte ack s)).byte == v

answers_all : (ack : Bool) (s : Sht) → all_below 256 (answers ack s) ≡ true
unfolding answers answer run all_below recv_byte do_sm_l1 do_sm_l1_in recv_bit goto count_bit clk0
    clk1 bit_at
answers_all true s = refl
answers_all false s = refl

-- After `recv_byte` and the 24 calls in which the other end drives the bits of a byte `v`, the
-- highest first, the byte that has been received is `v`.
pub recv_byte-answer :
    (ack : Bool) (v : ℕ) (s : Sht) → v < 256 → (answer 8 v (recv_byte ack s)).byte ≡ v
unfolding answers
recv_byte-answer ack v s h =
    (==_iff _ v).0 (all_below_sound 256 (answers ack s) v (answers_all ack s) h)
