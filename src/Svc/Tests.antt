-- ===== src/Svc/Tests.antt =====
-- The service protocol of avr/fw/main.cpp at concrete inputs.
use byt.Base.{ℕ, ◌<◌, ◌≤◌, ◌≡◌, ◌⊎◌, refl, true, false, List, [], ◌∷◌, take, get_or, arith}
use byt.Svc.State.{Fw, cmd_invalid}
use byt.Svc.Dispatch.{command, execute, svc}
use byt.Svc.Answer.{svc-answers, unknown_command_lem}
use byt.Svc.Sample.{node, outside}

abbrev asked : List ℕ → Fw
asked bs = record node { msg = bs; msglen = 8 }

abbrev rom : Fw
rom = asked (5 ∷ 1 ∷ 10 ∷ 20 ∷ 30 ∷ 40 ∷ 50 ∷ 60 ∷ [])

abbrev to_running : Fw
to_running = asked (3 ∷ 192 ∷ 0 ∷ 0 ∷ 0 ∷ 0 ∷ 0 ∷ 0 ∷ [])

svc-answers_example :
    let t = execute (command 3) outside false to_running in
    ((svc outside false to_running).sent ≡ take t.msglen t.msg ∷ to_running.sent)
    × (0 < t.msglen)
    × (t.msglen ≤ 8)
    × ((get_or t.msg 0 0 ≡ 3) ⊎ (get_or t.msg 0 0 ≡ cmd_invalid))
svc-answers_example = svc-answers outside to_running (omega arith) (omega arith) refl

abbrev odd_command : Fw
odd_command = asked (77 ∷ 0 ∷ 0 ∷ 0 ∷ 0 ∷ 0 ∷ 0 ∷ 0 ∷ [])

unknown_command_lem_example :
    ((svc outside false odd_command).sent ≡ (77 ∷ []) ∷ odd_command.sent)
    × ((svc outside true odd_command).sent ≡ odd_command.sent)
unknown_command_lem_example = unknown_command_lem outside odd_command (omega arith) refl
