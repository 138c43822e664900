-- ===== src/Boot/Finish.antt =====
-- How the loop of avr/bootloader/bootloader.cpp ends, and the firmware starts.
use byt.Base.{
  ◌≡◌, refl, ap, ◌∙◌, Bool, true, false, ◌||◌, if◌then◌else◌, none, List, [], ◌∷◌, if-true, arith,
}
use byt.Boot.{Boot, Registers, can_rx, on_rx, check_timeout, poll}

-- Rounds in which no message comes.
abbrev pub silent : Registers → List Bool → Boot → Boot
silent r [] s = s
silent r (o ∷ os) s = silent r os (poll r none none o s)

abbrev pub any : List Bool → Bool
any [] = false
any (o ∷ os) = o || any os

stopped :
    (r : Registers) (os : List Bool) (s : Boot)
    → s.bootloader_finished ≡ true
    → (silent r os s).bootloader_finished ≡ true
stopped r [] s e = e
stopped r (o ∷ os) s e = stopped r os (poll r none none o s) (
    unfold poll in
    ap (λ q. q.bootloader_finished)
      (if-true (s.bootloader_finished || s.asleep) s _ (ground (arith, e)))
    ∙ e)

silent_round :
    (r : Registers) (o : Bool) (s : Boot)
    → s.bootloader_finished ≡ false
    → s.asleep ≡ false
    → s.timeout_disabled ≡ false
    → poll r none none o s ≡ (if o then record s { bootloader_finished = true } else s)
unfolding poll can_rx on_rx check_timeout
silent_round r o s e e' d = rw e (rw e' (rw d refl))

-- While no message has come, the loop ends exactly when the CAN timer overruns, after any number of
-- rounds: a bootloader that nobody calls starts the firmware.
pub silent_lem :
    (r : Registers) (os : List Bool) (s : Boot)
    → s.bootloader_finished ≡ false
    → s.asleep ≡ false
    → s.timeout_disabled ≡ false
    → (silent r os s).bootloader_finished ≡ any os
silent_lem r [] s e e' d = e
silent_lem r (true ∷ os) s e e' d =
    ap (λ q. (silent r os q).bootloader_finished) (silent_round r true s e e' d)
    ∙ stopped r os (record s { bootloader_finished = true }) refl
silent_lem r (false ∷ os) s e e' d =
    ap (λ q. (silent r os q).bootloader_finished) (silent_round r false s e e' d)
    ∙ silent_lem r os s e e' d
