-- ===== src/Boot.antt =====
-- The bootloader of the nodes, avr/bootloader/bootloader.cpp: its messages, the page that it takes in
-- and writes to the flash, and its main loop.
mod Tests
pub mod Page
pub mod Upload
pub mod Flash
pub mod Finish
use byt.Base.{
  ℕ, zero, suc, ◌+◌, ◌-◌, ◌*◌, ◌/◌, ◌%◌, ◌^◌, Bool, true, false, not, ◌&&◌, ◌||◌, Option, none,
  some, List, [], ◌∷◌, ◌++◌, take, ◌==◌, ltb, if◌then◌else◌, get_or, set, min, bit_xor,
}
use byt.Meas.{put_bytes}

-- SPM_PAGESIZE of the controller; `pgsize` of script/deploy/bb/avrcanconf/run.py.
abbrev pub pgsize : ℕ
pgsize = 256

-- The calls of avr/boot.h that change the flash: an erased page, a word of the page's buffer, and the
-- buffer written to the page.
pub data FlashOp : Type 0 where
  erased : ℕ → FlashOp
  filled : ℕ → ℕ → FlashOp
  written : ℕ → FlashOp

-- The static variables, the variables of `main`, and what the outside sees.
pub record Boot : Type 0 where
  pub msg : List ℕ  -- uint8_t[8]
  pub msglen : ℕ
  pub page : List ℕ  -- uint8_t[SPM_PAGESIZE]
  pub page_in8b : ℕ  -- uint8_t
  pub bootloader_finished : Bool
  pub timeout_disabled : Bool
  pub downloading : Bool
  pub xorsum : ℕ
  pub asleep : Bool  -- in the loop of `sleep_cpu`
  pub sent : List (List ℕ)  -- the data of the frames sent by can_tx, newest first
  pub flash : List FlashOp  -- oldest first

-- The registers that the status shows.
pub record Registers : Type 0 where
  pub cantec : ℕ
  pub canrec : ℕ
  pub mcusr : ℕ

-- A frame in a message object: the length code and the bytes.
pub record Frame : Type 0 where
  pub dlc : ℕ
  pub bytes : List ℕ

unfoldable pub u8min : ℕ → ℕ → ℕ
u8min a b = if ltb a b then a else b

unfoldable pub take_frame : Frame → Boot → Boot
unfolding u8min
take_frame f s =
    let len = u8min (f.dlc % 16) 8 in
    record s { msglen = len; msg = put_bytes 0 (take len f.bytes) s.msg }

-- `can_rx`: the objects 13 and 14, and what they hold. The result is the object's number, or 0.
unfoldable pub can_rx : Option Frame → Option Frame → Boot → ℕ × Boot
unfolding take_frame
can_rx none none s = (0, s)
can_rx none (some g) s = let u = take_frame g s in (if ltb 0 u.msglen then 14 else 0, u)
can_rx (some f) none s = let t = take_frame f s in (if ltb 0 t.msglen then 13 else 0, t)
can_rx (some f) (some g) s =
    let t = take_frame f s in
    let u = take_frame g t in
    if ltb 0 t.msglen then (13, t) else (if ltb 0 u.msglen then 14 else 0, u)

unfoldable pub can_tx : Boot → Boot
can_tx s = record s { sent = take s.msglen s.msg ∷ s.sent }

-- `n` rounds of the loop of `boot_program_page` from the byte `i` on.
unfoldable pub fills : ℕ → ℕ → ℕ → List ℕ → List FlashOp
fills zero i pageidx buf = []
fills (suc n) i pageidx buf =
    filled (pageidx + i) ((get_or buf i 0 + get_or buf (i + 1) 0 * 256) % 2 ^ 16)
    ∷ fills n (i + 2) pageidx buf

unfoldable pub boot_program_page : ℕ → List ℕ → List FlashOp
unfolding fills
boot_program_page pageidx buf =
    erased pageidx ∷ (fills (pgsize / 2) 0 pageidx buf ++ (written pageidx ∷ []))

-- `n` rounds of the loop that takes the message into the page.
unfoldable pub into_page : ℕ → ℕ → Boot → Boot
into_page zero i s = s
into_page (suc n) i s =
    let b = get_or s.msg i 0 in
    into_page n (i + 1)
      (record s { page = set s.page (8 * s.page_in8b + i) b; xorsum = bit_xor s.xorsum b })

-- `++page_in8b` and what follows: the last message of a page is answered by the sum.
unfoldable pub advance : Boot → Boot
advance s =
    let n = (s.page_in8b + 1) % 256 in
    let u = record s { page_in8b = n } in
    if n == pgsize / 8
    then record u { downloading = false; msglen = 2; msg = set (set u.msg 0 100) 1 u.xorsum }
    else u

-- A message of the download.
unfoldable pub download : Boot → Boot
unfolding into_page advance
download s = advance (into_page 8 0 s)

-- `PageAddr::addr` in the message.
unfoldable pub page_addr : List ℕ → ℕ
page_addr m = get_or m 1 0 + 256 * (get_or m 2 0 + 256 * (get_or m 3 0 + 256 * get_or m 4 0))

-- The letters h, c, s, f, d and X.
pub data Command : Type 0 where
  halt go status program start unknown : Command

abbrev pub command : ℕ → Command
command c =
    if c == 104
    then halt
    else if c == 99
    then go
    else if c == 115
    then status
    else if c == 102
    then program
    else if c == 100
    then start
    else unknown

-- The switch of `main`, and whether it lets the message be answered.
unfoldable pub execute : Command → Registers → ℕ → Boot → Bool × Boot
unfolding boot_program_page page_addr
execute halt r id s = (true, record s { asleep = true })
execute go r id s = (true, record s { msglen = 1; bootloader_finished = true })
execute status r id s =
    (true, record s { msglen = 4; msg = set (set (set s.msg 1 r.cantec) 2 r.canrec) 3 r.mcusr })
execute program r id s =
    (true, record s { flash = s.flash ++ boot_program_page (page_addr s.msg) s.page; msglen = 1 })
execute start r id s = (true, record s { downloading = true; page_in8b = 0; xorsum = 0xA5 })
execute unknown r id s = (not (id == 14), record s { msglen = 1; msg = set s.msg 0 88 })

-- What `main` does with a message, but for its answer; `sleep_cpu` does not return.
unfoldable pub obey : Registers → ℕ → Boot → Bool × Boot
unfolding download execute
obey r id s =
    if s.downloading then (true, download s) else execute (command (get_or s.msg 0 0)) r id s

-- The message counted, and answered if a page is not on its way.
unfoldable pub answer : Bool × Boot → Boot
unfolding can_tx
answer (reply, t) =
    let u = record t { timeout_disabled = true } in
    if t.asleep then t else if reply && not t.downloading then can_tx u else u

unfoldable pub on_rx : Registers → ℕ × Boot → Boot
unfolding obey answer
on_rx r (id, t) = if id == 0 then t else answer (obey r id t)

-- The end of a round, `ovrtim` being the overrun of the CAN timer.
unfoldable pub check_timeout : Bool → Boot → Boot
check_timeout ovrtim s =
    if not s.asleep && (not s.timeout_disabled && ovrtim)
    then record s { bootloader_finished = true }
    else s

-- A round of the loop of `main`.
unfoldable pub poll : Registers → Option Frame → Option Frame → Bool → Boot → Boot
unfolding can_rx on_rx check_timeout
poll r f g ovrtim s =
    if s.bootloader_finished || s.asleep then s else check_timeout ovrtim (on_rx r (can_rx f g s))
