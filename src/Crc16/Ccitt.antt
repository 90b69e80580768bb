-- ===== src/Crc16/Ccitt.antt =====
-- What a turn of the inner loop of `iot_calc_crc16` in src/crc16.cpp does with the register.
use socketlab.Base.{
  ℕ, zero, suc, ◌+◌, ◌*◌, ◌/◌, ◌%◌, ◌^◌, ◌≤◌, ◌<◌, bit_and, bit_xor, ◌≡◌, ap, ◌∙◌, arith,
}
use socketlab.Base.Bits.{bit_and_field, bit_and-one}
use socketlab.Base.Bits.Xor.{bit_xor_fields, bit_xor_self, bit_xor-lt}
use socketlab.Crc16.{ccitt_bit, ccitt_bits}

highest_bit : (c : ℕ) → c < 2 ^ 16 → bit_and c 0x8000 ≡ c / 32768 * 32768
highest_bit c h =
    ap (λ x. bit_and x 0x8000) parts
    ∙ bit_and_field 15 (c / 32768) (c % 32768) 1 (omega arith)
    ∙ omega (arith, bit_and-one (c / 32768))
  where
    parts : c ≡ c / 32768 * 2 ^ 15 + c % 32768
    parts = omega arith

-- The polynomial, with its highest term: 2c and it agree in bit 16.
top_cancels :
    (c : ℕ) → 32768 ≤ c → c < 2 ^ 16 → bit_xor (c * 2) 0x11021 ≡ bit_xor (c * 2 % 65536) 0x1021
top_cancels c l h =
    ap (λ x. bit_xor x 0x11021) parts
    ∙ bit_xor_fields 16 1 1 (c * 2 % 65536) 0x1021 (omega arith) (omega arith)
    ∙ omega (arith, bit_xor_self 1)
  where
    parts : c * 2 ≡ 1 * 2 ^ 16 + c * 2 % 65536
    parts = omega arith

pub ccitt_bit-low : (c : ℕ) → c < 32768 → ccitt_bit c ≡ c * 2
unfolding ccitt_bit
ccitt_bit-low c h = ground (arith, highest_bit c (omega arith))

pub ccitt_bit-high : (c : ℕ) → 32768 ≤ c → c < 2 ^ 16 → ccitt_bit c ≡ bit_xor (c * 2) 0x11021
unfolding ccitt_bit
ccitt_bit-high c l h = ground (arith, highest_bit c h, top_cancels c l h)

pub ccitt_bit-lt : (c : ℕ) → c < 2 ^ 16 → ccitt_bit c < 2 ^ 16
unfolding ccitt_bit
ccitt_bit-lt c h = ground (arith, bit_xor-lt 16 (c * 2 % 65536) 0x1021 (omega arith) (omega arith))

pub ccitt_bits-lt : (j c : ℕ) → c < 2 ^ 16 → ccitt_bits j c < 2 ^ 16
unfolding ccitt_bits
ccitt_bits-lt zero c h = h
ccitt_bits-lt (suc j) c h = ccitt_bits-lt j (ccitt_bit c) (ccitt_bit-lt c h)
