-- ===== src/Ow/Tests.antt =====
-- The master of avr/fw/ow_sm.cpp at concrete inputs.
use byt.Base.{
  ◌≡◌, ◌≢◌, inl, refl, Bool, true, false, not, ◌&&◌, List, [], ◌∷◌, replicate, to_nat, ltb,
  if◌then◌else◌, bit_at, arith,
}
use byt.Ow.Bus.{
  idle, write_bits_ok, read_bits_ok, timer_off, Ow, emit, schedule_timeout, bus_pull, bus_release,
}
use byt.Ow.Ops.{run, read_bits, write_bits, init, start_read_bit, arm_timer}
use byt.Ow.Invariant.{boot}
use byt.Ow.Safety.{Reach, start, next, reads, IsBusy}
use byt.Ow.Progress.{run-idle}
use byt.Ow.Reset.{reset_outcome, init_lem}
use byt.Ow.Read.{slots, sample_at, buf_bit, read_bits_lem}
use byt.Ow.Write.{wave, write_bits_lem}

abbrev skip_rom : Ow
skip_rom = record boot { ow_data = 0xCC ∷ replicate 11 0 }

abbrev released : List Bool
released = replicate 12 false

write_bits_lem_example :
    let t = run released (write_bits 8 true skip_rom) in
    let powered = true && ltb 0 7 in
    (t.state ≡ idle)
    × (t.response_code ≡ write_bits_ok)
    × (t.ow_data ≡ skip_rom.ow_data)
    × (t.trace ≡ timer_off ∷ wave true skip_rom.ow_data 0 8 skip_rom.trace)
    × (t.ddra ≡ powered)
    × (t.porta ≡ powered)
unfolding bit_at
write_bits_lem_example = write_bits_lem skip_rom true 7 released refl (omega arith) refl

abbrev two_slots : List (Bool × Bool)
two_slots = (true, false) ∷ (false, true) ∷ []

read_bits_lem_example :
    let t = run (slots two_slots) (read_bits 2 boot) in
    (t.state ≡ idle)
    × (t.response_code ≡ read_bits_ok)
    × (t.ddra ≡ false)
    × (buf_bit t.ow_data 1
        ≡ (if ltb 1 2 then to_nat (not (sample_at two_slots 1)) else buf_bit boot.ow_data 1))
read_bits_lem_example = read_bits_lem boot true false ((false, true) ∷ []) 1 refl refl (omega arith)

init_lem_example :
    let t = run (true ∷ false ∷ false ∷ []) (init false boot) in
    (t.state ≡ idle) × (t.response_code ≡ reset_outcome false true false false) × (t.ddra ≡ false)
init_lem_example = init_lem boot false true false false refl

reading : Reach (read_bits 8 boot)
reading = next start (reads 8 (omega arith))

run-idle_example : (run (replicate 192 true) (read_bits 8 boot)).state ≡ idle
run-idle_example = run-idle (replicate 192 true) reading (omega arith)

reading-IsBusy : IsBusy (read_bits 8 boot)
unfolding read_bits start_read_bit arm_timer schedule_timeout bus_pull bus_release emit
reading-IsBusy = inl refl

not_idle : (read_bits 8 boot).state ≢ idle
unfolding read_bits start_read_bit arm_timer schedule_timeout bus_pull bus_release emit
not_idle = ground arith
