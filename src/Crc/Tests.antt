-- ===== src/Crc/Tests.antt =====
-- The checksums at concrete inputs.
use byt.Base.{◌≡◌, bit_xor, arith}
use byt.Crc.{calc_crc}
use byt.Crc.OneWire.{divide_bits, calc_crc-divide_bits}

calc_crc-divide_bits_example : calc_crc 0x28 0x5A ≡ divide_bits 8 (bit_xor 0x5A 0x28)
calc_crc-divide_bits_example = calc_crc-divide_bits 0x28 0x5A (omega arith) (omega arith)
