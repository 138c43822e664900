-- ===== src/Crc.antt =====
-- The three checksums of the firmware: the table of the 1-wire bus (avr/fw/ow_sm.cpp), the
-- bitwise loop and the bit reversal of the SHT11 (avr/fw/main.cpp), and the word check of the
-- SCD4x (avr/fw/scd4x_sm.cpp). All work on bytes.
mod Tests
pub mod OneWire
pub mod Sensirion
use byt.Base.{
  ℕ, zero, suc, ◌+◌, ◌-◌, ◌*◌, ◌/◌, ◌%◌, ◌^◌, Bool, List, [], ◌∷◌, ◌++◌, bit_and, bit_or, bit_xor,
  ◌==◌, if◌then◌else◌, get_or,
}

abbrev row0 : List ℕ
row0 = 0 ∷ 94 ∷ 188 ∷ 226 ∷ 97 ∷ 63 ∷ 221 ∷ 131 ∷ 194 ∷ 156 ∷ 126 ∷ 32 ∷ 163 ∷ 253 ∷ 31 ∷ 65 ∷ []

abbrev row1 : List ℕ
row1 = 157 ∷ 195 ∷ 33 ∷ 127 ∷ 252 ∷ 162 ∷ 64 ∷ 30 ∷ 95 ∷ 1 ∷ 227 ∷ 189 ∷ 62 ∷ 96 ∷ 130 ∷ 220 ∷ []

abbrev row2 : List ℕ
row2 = 35 ∷ 125 ∷ 159 ∷ 193 ∷ 66 ∷ 28 ∷ 254 ∷ 160 ∷ 225 ∷ 191 ∷ 93 ∷ 3 ∷ 128 ∷ 222 ∷ 60 ∷ 98 ∷ []

abbrev row3 : List ℕ
row3 = 190 ∷ 224 ∷ 2 ∷ 92 ∷ 223 ∷ 129 ∷ 99 ∷ 61 ∷ 124 ∷ 34 ∷ 192 ∷ 158 ∷ 29 ∷ 67 ∷ 161 ∷ 255 ∷ []

abbrev row4 : List ℕ
row4 = 70 ∷ 24 ∷ 250 ∷ 164 ∷ 39 ∷ 121 ∷ 155 ∷ 197 ∷ 132 ∷ 218 ∷ 56 ∷ 102 ∷ 229 ∷ 187 ∷ 89 ∷ 7 ∷ []

abbrev row5 : List ℕ
row5 = 219 ∷ 133 ∷ 103 ∷ 57 ∷ 186 ∷ 228 ∷ 6 ∷ 88 ∷ 25 ∷ 71 ∷ 165 ∷ 251 ∷ 120 ∷ 38 ∷ 196 ∷ 154 ∷ []

abbrev row6 : List ℕ
row6 = 101 ∷ 59 ∷ 217 ∷ 135 ∷ 4 ∷ 90 ∷ 184 ∷ 230 ∷ 167 ∷ 249 ∷ 27 ∷ 69 ∷ 198 ∷ 152 ∷ 122 ∷ 36 ∷ []

abbrev row7 : List ℕ
row7 = 248 ∷ 166 ∷ 68 ∷ 26 ∷ 153 ∷ 199 ∷ 37 ∷ 123 ∷ 58 ∷ 100 ∷ 134 ∷ 216 ∷ 91 ∷ 5 ∷ 231 ∷ 185 ∷ []

abbrev row8 : List ℕ
row8 = 140 ∷ 210 ∷ 48 ∷ 110 ∷ 237 ∷ 179 ∷ 81 ∷ 15 ∷ 78 ∷ 16 ∷ 242 ∷ 172 ∷ 47 ∷ 113 ∷ 147 ∷ 205 ∷ []

abbrev row9 : List ℕ
row9 = 17 ∷ 79 ∷ 173 ∷ 243 ∷ 112 ∷ 46 ∷ 204 ∷ 146 ∷ 211 ∷ 141 ∷ 111 ∷ 49 ∷ 178 ∷ 236 ∷ 14 ∷ 80 ∷ []

abbrev rowa : List ℕ
rowa = 175 ∷ 241 ∷ 19 ∷ 77 ∷ 206 ∷ 144 ∷ 114 ∷ 44 ∷ 109 ∷ 51 ∷ 209 ∷ 143 ∷ 12 ∷ 82 ∷ 176 ∷ 238 ∷ []

abbrev rowb : List ℕ
rowb = 50 ∷ 108 ∷ 142 ∷ 208 ∷ 83 ∷ 13 ∷ 239 ∷ 177 ∷ 240 ∷ 174 ∷ 76 ∷ 18 ∷ 145 ∷ 207 ∷ 45 ∷ 115 ∷ []

abbrev rowc : List ℕ
rowc = 202 ∷ 148 ∷ 118 ∷ 40 ∷ 171 ∷ 245 ∷ 23 ∷ 73 ∷ 8 ∷ 86 ∷ 180 ∷ 234 ∷ 105 ∷ 55 ∷ 213 ∷ 139 ∷ []

abbrev rowd : List ℕ
rowd = 87 ∷ 9 ∷ 235 ∷ 181 ∷ 54 ∷ 104 ∷ 138 ∷ 212 ∷ 149 ∷ 203 ∷ 41 ∷ 119 ∷ 244 ∷ 170 ∷ 72 ∷ 22 ∷ []

abbrev rowe : List ℕ
rowe = 233 ∷ 183 ∷ 85 ∷ 11 ∷ 136 ∷ 214 ∷ 52 ∷ 106 ∷ 43 ∷ 117 ∷ 151 ∷ 201 ∷ 74 ∷ 20 ∷ 246 ∷ 168 ∷ []

abbrev rowf : List ℕ
rowf = 116 ∷ 42 ∷ 200 ∷ 150 ∷ 21 ∷ 75 ∷ 169 ∷ 247 ∷ 182 ∷ 232 ∷ 10 ∷ 84 ∷ 215 ∷ 137 ∷ 107 ∷ 53 ∷ []

unfoldable pub one_wire_crc8_table : List ℕ
one_wire_crc8_table =
    row0
    ++ (row1
        ++ (row2
            ++ (row3
                ++ (row4
                    ++ (row5
                        ++ (row6
                            ++ (row7
                                ++ (row8
                                    ++ (row9
                                        ++ (rowa
                                            ++ (rowb
                                                ++ (rowc ++ (rowd ++ (rowe ++ rowf))))))))))))))

-- `ow::calc_crc`. The index is a byte, so it is in the table.
unfoldable pub calc_crc : ℕ → ℕ → ℕ
unfolding one_wire_crc8_table
calc_crc b prev_b = get_or one_wire_crc8_table (bit_xor prev_b b) 0

-- The loops `crc = calc_crc(data[i], crc)` over a message.
unfoldable pub crc_from : ℕ → List ℕ → ℕ
crc_from crc [] = crc
crc_from crc (b ∷ bs) = crc_from (calc_crc b crc) bs

-- The loop of `reverse_bits`, with what `v`, `r` and `s` hold; each round shifts `r` as a byte.
unfoldable pub reverse_loop : ℕ → ℕ → ℕ → ℕ → ℕ
reverse_loop zero v r s = r
reverse_loop (suc n) v r s =
    let rest = reverse_loop n (v / 2) (bit_or (r * 2 % 256) (bit_and v 1)) (s - 1) in
    if v == 0 then r * 2 ^ s % 256 else rest

-- `reverse_bits`: seven rounds at most are made, since `v >> 1` has seven bits.
unfoldable pub reverse_bits : ℕ → ℕ
unfolding reverse_loop
reverse_bits v = reverse_loop 8 (v / 2) v 7

-- One round of the loop of `calc_crc_8bit`, on the checksum and the bits still to take.
unfoldable pub crc_round : ℕ → ℕ → ℕ
crc_round crc_prev byte =
    let differ = bit_xor (byte / 128) (crc_prev / 128) in
    let mask2 = bit_or (differ * 8) (differ * 16) in
    let mask = bit_or 8 16 in
    let tmp_crc = bit_xor crc_prev mask2 in
    let mixed =
      if differ == 0
      then crc_prev
      else bit_or (bit_and crc_prev (255 - mask)) (bit_and tmp_crc mask) in
    bit_or (mixed * 2 % 256) differ

unfoldable pub crc_rounds : ℕ → ℕ → ℕ → ℕ
unfolding crc_round
crc_rounds zero crc_prev byte = crc_prev
crc_rounds (suc n) crc_prev byte = crc_rounds n (crc_round crc_prev byte) (byte * 2 % 256)

unfoldable pub calc_crc_8bit : ℕ → ℕ → ℕ
unfolding crc_rounds
calc_crc_8bit crc_prev byte = crc_rounds 8 crc_prev byte

-- The inner loop of `check_crc_word`.
unfoldable pub shift_crc : ℕ → ℕ → ℕ
shift_crc zero crc = crc
shift_crc (suc n) crc =
    shift_crc n (if bit_and crc 0x80 == 0 then crc * 2 % 256 else bit_xor (crc * 2 % 256) 0x31)

-- The checksum of the two bytes of an `Item`, as they lie in memory.
unfoldable pub crc_word : ℕ → ℕ → ℕ
unfolding shift_crc
crc_word b0 b1 = shift_crc 8 (bit_xor (shift_crc 8 (bit_xor 0xff b0)) b1)

-- `check_crc_word`.
unfoldable pub check_crc_word : ℕ → ℕ → ℕ → Bool
unfolding crc_word
check_crc_word b0 b1 crc = crc_word b0 b1 == crc
