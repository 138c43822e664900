-- ===== src/Ot/Frame.antt =====
-- The fields of an OpenTherm frame, bytd/src/OtFrame.cpp.
use byt.Base.{ℕ, ◌*◌, ◌/◌, ◌%◌, ◌^◌, bit_and, bit_or}

-- A frame is its 32-bit `data`; a type is its number, a `uint8_t`.
unfoldable pub set_type : ℕ → ℕ → ℕ
set_type t d = bit_or (bit_and d 0x00FFFFFF) (t % 256 * 2 ^ 24)

unfoldable pub get_type : ℕ → ℕ
get_type d = bit_and (d / 2 ^ 24) 0x7F

unfoldable pub set_id : ℕ → ℕ → ℕ
set_id id d = bit_or (bit_and d 0xFF00FFFF) (bit_and id 0xFF * 2 ^ 16)

unfoldable pub get_id : ℕ → ℕ
get_id d = bit_and (d / 2 ^ 16) 0xFF

unfoldable pub set_v : ℕ → ℕ → ℕ
set_v v d = bit_or (bit_and d 0xFFFF0000) v

unfoldable pub get_v : ℕ → ℕ
get_v d = bit_and d 0xFFFF

-- `Frame(type, id, val)`: `data` begins as `invalid`.
unfoldable pub make : ℕ → ℕ → ℕ → ℕ
unfolding set_type set_id set_v
make t id v = set_v v (set_id id (set_type t 0x7FFF7BAD))
