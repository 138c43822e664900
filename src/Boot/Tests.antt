-- ===== src/Boot/Tests.antt =====
-- The bootloader of avr/bootloader/bootloader.cpp at concrete inputs.
use byt.Base.{
  ℕ, suc, zero, ◌+◌, ◌*◌, ◌≡◌, refl, Bool, true, false, Option, some, List, [], ◌∷◌, ◌++◌,
  replicate, All, arith,
}
use byt.Boot.{Boot, Registers, Frame, boot_program_page}
use byt.Boot.Page.{xor_all}
use byt.Boot.Upload.{bytes_of, IsFull}
use byt.Boot.Flash.{Waiting, upload, program_page, upload_lem}
use byt.Boot.Finish.{silent, any, silent_lem}

abbrev registers : Registers
registers = record { cantec = 1; canrec = 2; mcusr = 3 }

abbrev fresh : Boot
fresh = record {
  msg = replicate 8 0;
  msglen = 0;
  page = replicate 256 0;
  page_in8b = 0;
  bootloader_finished = false;
  timeout_disabled = false;
  downloading = false;
  xorsum = 0;
  asleep = false;
  sent = [];
  flash = [];
}

fresh-Waiting : Waiting fresh
fresh-Waiting = record { idle = (refl, (refl, refl)); sizes = (refl, refl) }

abbrev message : Bool × List ℕ
message = (false, 1 ∷ 2 ∷ 3 ∷ 4 ∷ 5 ∷ 6 ∷ 7 ∷ 8 ∷ [])

abbrev messages : List (Bool × List ℕ)
messages = replicate 32 message

All-IsFull : (n : ℕ) → All IsFull (replicate n message)
All-IsFull zero = ground arith
All-IsFull (suc n) = (refl, All-IsFull n)

upload_lem_example :
    let t = upload registers true messages false (program_page 0 1 0 0) fresh in
    (t.flash
      ≡ fresh.flash ++ boot_program_page (0 + 256 * (1 + 256 * (0 + 256 * 0))) (bytes_of messages))
    × (t.sent ≡ (102 ∷ []) ∷ (100 ∷ xor_all 0xA5 (bytes_of messages) ∷ []) ∷ fresh.sent)
    × Waiting t
upload_lem_example =
    upload_lem registers true false 0 1 0 0 messages fresh fresh-Waiting refl (All-IsFull 32)

silent_lem_example :
    (silent registers (false ∷ false ∷ true ∷ []) fresh).bootloader_finished
    ≡ any (false ∷ false ∷ true ∷ [])
silent_lem_example = silent_lem registers (false ∷ false ∷ true ∷ []) fresh refl refl refl

abbrev called : Boot
called = record fresh { timeout_disabled = true }

abbrev letter_c : Option Frame
letter_c = some (record { dlc = 1; bytes = 99 ∷ [] })
