-- ===== src/Therm.antt =====
-- Temperature sensors of the daemon, bytd/src/OwThermNet.cpp: the requests to the real-time unit and
-- what is made of its answers. Messages are lists of bytes; the answer that a request gets in its
-- 100 ms, the empty list for none, is an operation of the link (the device file and the thread of
-- bytd/src/Pru.cpp), as is `checkClear`.
mod Tests
pub mod Bus
pub mod Rom
pub mod Walk
pub mod Chain
pub mod Order
pub mod Sorted
pub mod Search
pub mod Found
use byt.Base.{
  ℕ, zero, suc, ◌+◌, ◌-◌, ◌*◌, ◌/◌, ◌%◌, ◌^◌, Bool, true, false, not, ◌&&◌, ◌||◌, Option, none,
  some, List, [], ◌∷◌, ◌++◌, ltb, leb, ◌==◌, if◌then◌else◌, to_nat, get_or, take, drop, length,
}
use byt.Reku.Daemon.{check_crc}

-- The way to the real-time unit.
pub record Link (S : Type 0) : Type 0 where
  pub clear : S → S
  pub exchange : List ℕ → S → List ℕ × S

-- `OwThermNet`: the bytes of the union `msg`, and the link's state.
pub record Net (S : Type 0) : Type 0 where
  pub msg : List ℕ
  pub bus : S

-- A word of four bytes, the lowest first, and back.
unfoldable pub word_bytes : ℕ → List ℕ
word_bytes n = n % 256 ∷ n / 256 % 256 ∷ n / 65536 % 256 ∷ n / 16777216 % 256 ∷ []

unfoldable pub word_at : List ℕ → ℕ
word_at d = get_or d 0 0 + get_or d 1 0 * 256 + get_or d 2 0 * 65536 + get_or d 3 0 * 16777216

-- The sizes that `Response::check` accepts for a code.
unfoldable pub fits : ℕ → ℕ → Bool
fits code len =
    if code == 2
      || code == 3
      || code == 13
      || code == 10
      || code == 11
      || code == 12
      || code == 7
      || code == 8
      || code == 9
    then len == 4
    else if code == 1 || code == 4 || code == 5
    then len == 8
    else if code == 6
    then ltb 4 len
    else false

-- `Response::check`, with `getCode` after it.
unfoldable pub response : List ℕ → Option ℕ
unfolding word_at fits
response d =
    if ltb (length d) 4
    then none
    else if fits (word_at d) (length d)
    then some (word_at d)
    else none

-- `memcpy` to the begin of the union.
unfoldable pub overlay : List ℕ → List ℕ → List ℕ
overlay d msg = d ++ drop (length d) msg

-- `send` and `wait`.
unfoldable pub request : {S : Type 0} → Link S → List ℕ → Net S → List ℕ × Net S
request l d s = let r = l.exchange d s.bus in (r.0, record s { bus = r.1 })

abbrev pub is_code : ℕ → Option ℕ → Bool
is_code n none = false
is_code n (some m) = m == n

-- `write_bits`: a failure is only logged.
unfoldable pub write_bits : {S : Type 0} → Link S → List ℕ → ℕ → Bool → Net S → Net S
unfolding word_bytes overlay request
write_bits l payload bitlen strong_pwr s =
    let head = word_bytes (if strong_pwr then 6 else 4) ++ word_bytes bitlen in
    let m = head ++ take (1 + (bitlen - 1) / 8) payload in
    (request l m (record s { msg = overlay m s.msg })).1

-- `read_bits`.
unfoldable pub read_bits : {S : Type 0} → Link S → ℕ → Net S → Bool × Net S
unfolding word_bytes overlay request response
read_bits l bitlen s =
    let m = word_bytes 5 ++ word_bytes bitlen in
    let r = request l m (record s { msg = overlay m s.msg }) in
    if is_code 6 (response r.0)
    then (true, record (r.1) { msg = overlay r.0 (r.1).msg })
    else (false, r.1)

-- `search_triplet`: 0 for both values, 1 and 2 for one of them, 3 for an error.
unfoldable pub triplet_result : Option ℕ → ℕ
triplet_result code =
    if is_code 13 code then 0 else if is_code 10 code then 1 else if is_code 11 code then 2 else 3

unfoldable pub search_triplet : {S : Type 0} → Link S → Bool → Net S → ℕ × Net S
unfolding word_bytes request response triplet_result
search_triplet l dir s =
    let r = request l (word_bytes (if dir then 3 else 2)) s in (triplet_result (response r.0), r.1)

-- `presence`.
unfoldable pub presence : {S : Type 0} → Link S → Net S → Bool × Net S
unfolding word_bytes request response
presence l s =
    let r = request l (word_bytes 1) (record s { bus = l.clear s.bus }) in
    (is_code 1 (response r.0), r.1)

-- `write_simple_cmd`.
unfoldable pub write_simple_cmd : {S : Type 0} → Link S → ℕ → Bool → Net S → Net S
unfolding write_bits
write_simple_cmd l cmd strong s = write_bits l (cmd ∷ []) 8 strong s

-- `convert`.
unfoldable pub convert : {S : Type 0} → Link S → Net S → Bool × Net S
unfolding presence write_simple_cmd
convert l s =
    let p = presence l s in
    if p.0 then (true, write_simple_cmd l 0x44 true (write_simple_cmd l 0xCC false p.1)) else p

-- What is asked of a scratchpad, nine bytes, before it is used.
unfoldable pub is_sound : List ℕ → Bool
unfolding check_crc
is_sound v =
    get_or v 4 0 == 0x7F
    && (get_or v 5 0 == 0xFF && get_or v 7 0 == 0x10)
    && check_crc (take 8 v) (get_or v 8 0)

-- `read_scratchpad`.
unfoldable pub read_scratchpad : {S : Type 0} → Link S → List ℕ → Net S → Option (List ℕ) × Net S
unfolding presence write_simple_cmd write_bits read_bits is_sound
read_scratchpad l rc s =
    let p = presence l s in
    let w = write_bits l rc 64 false (write_simple_cmd l 0x55 false p.1) in
    let r = read_bits l 72 (write_simple_cmd l 0xBE false w) in
    let v = take 9 (drop 4 (r.1).msg) in
    if not p.0 then (none, p.1) else if r.0 && is_sound v then (some v, r.1) else (none, r.1)

-- `readMeasured`.
unfoldable pub read_measured : {S : Type 0} → Link S → List ℕ → Net S → ℕ × Net S
unfolding read_scratchpad
read_measured l rc s =
    let r = read_scratchpad l rc s in
    (elim r.0 [ none ↦ 0xFC90 | some v ↦ get_or v 0 0 + get_or v 1 0 * 256 ], r.1)
