-- ===== src/Svc/Ports.antt =====
-- The commands of `svc` (avr/fw/main.cpp) that read and write the ports, and the version.
use byt.Base.{ℕ, zero, suc, ◌+◌, ◌*◌, ◌/◌, ◌%◌, ◌^◌, ltb, if◌then◌else◌, set}
use byt.Gpio.{Gpio}
use byt.Svc.State.{Fw, arg, reply_len, push}

-- `n` rounds of the loop that answers with one register of each port.
unfoldable pub push_ports : (Gpio → ℕ → ℕ) → ℕ → ℕ → Fw → Fw
unfolding push
push_ports get zero port s = s
push_ports get (suc n) port s = push_ports get n (port + 1) (push (get s.gpio port) s)

unfoldable pub test_get : (Gpio → ℕ → ℕ) → Fw → Fw
unfolding push_ports reply_len
test_get get s = push_ports get 7 0 (reply_len 1 s)

-- `n` rounds of the loop that writes the bytes of the message from `idx` on to the ports from `port`
-- on.
unfoldable pub write_ports : (Gpio → ℕ → ℕ → Gpio) → ℕ → ℕ → Fw → Fw
unfolding arg
write_ports put zero port s = s
write_ports put (suc n) port s =
    let rest =
      write_ports put n (port + 1) (record s { gpio = put s.gpio port (arg (port + 1) s) }) in
    if ltb (port + 1) s.msglen then rest else s

unfoldable pub test_set : (Gpio → ℕ → ℕ → Gpio) → Fw → Fw
unfolding write_ports reply_len
test_set put s = reply_len 1 (write_ports put 7 0 s)

-- A 32-bit value stored in the message, lower byte first.
unfoldable pub store32 : ℕ → ℕ → Fw → Fw
store32 k v s =
    let m = set (set s.msg k (v % 256)) (k + 1) (v / 256 % 256) in
    record s { msg = set (set m (k + 2) (v / 2 ^ 16 % 256)) (k + 3) (v / 2 ^ 24 % 256) }

-- `git_hash` is FW_GIT_HASH_SHORT and `built` is `minutes2|FW_GIT_IS_DIRTY`, constants of the build.
unfoldable pub get_git_version : ℕ → ℕ → Fw → Fw
unfolding store32 reply_len
get_git_version git_hash built s =
    reply_len 8 (store32 1 git_hash (store32 4 (built * 256 % 2 ^ 32) s))
