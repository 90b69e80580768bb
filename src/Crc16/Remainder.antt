-- ===== src/Crc16/Remainder.antt =====
-- The outer loop of `iot_calc_crc16` in src/crc16.cpp.
use socketlab.Base.{
  ℕ, ◌+◌, ◌*◌, ◌^◌, ◌<◌, bit_xor, List, [], ◌∷◌, length, some, ◌≡◌, refl, sym, ap, ◌∙◌, arith, All,
  IsByte, u16,
}
use native.Mathlib.Nat.{pow-suc}
use socketlab.Base.Bits.Xor.{
  bit_xor_shifted, bit_xor_below, bit_xor-lt, bit_xor-zero, zero-bit_xor, bit_xor_assoc,
}
use socketlab.Crc16.{ccitt_bits, ccitt_byte, ccitt_loop, iot_calc_crc16}
use socketlab.Crc16.Ccitt.{ccitt_bits-lt}
use socketlab.Crc16.Division.{remainder, later, pow_add_16, division_steps}

-- The number whose bytes these are, the highest first.
abbrev pub number : List ℕ → ℕ
number [] = 0
number (b ∷ bs) = b * 256 ^ length bs + number bs

abbrev bits : List ℕ → ℕ
bits [] = 0
bits (b ∷ bs) = later 8 (bits bs)

bits-length : (bs : List ℕ) → bits bs ≡ 8 * length bs
bits-length [] = refl
bits-length (b ∷ bs) = omega (arith, bits-length bs)

pow_later_8 : (k : ℕ) → 2 ^ later 8 k ≡ 256 * 2 ^ k
pow_later_8 k = omega (
  arith,
  pow-suc 2 k,
  pow-suc 2 (later 1 k),
  pow-suc 2 (later 2 k),
  pow-suc 2 (later 3 k),
  pow-suc 2 (later 4 k),
  pow-suc 2 (later 5 k),
  pow-suc 2 (later 6 k),
  pow-suc 2 (later 7 k),
)

pow_bits : (bs : List ℕ) → 256 ^ length bs ≡ 2 ^ bits bs
pow_bits [] = refl
pow_bits (b ∷ bs) = omega (arith, pow-suc 256 (length bs), pow_bits bs, pow_later_8 (bits bs))

number-lt : (bs : List ℕ) → All IsByte bs → number bs < 256 ^ length bs
number-lt [] h = omega arith
number-lt (b ∷ bs) (hb, h) = grind (arith, number-lt bs h, pow-suc 256 (length bs))

entered-lt : (c b : ℕ) → u16 (bit_xor c (b * 2 ^ 8)) < 2 ^ 16
entered-lt c b = omega arith

-- A byte enters the register.
enters :
    (c b k l : ℕ)
    → c < 2 ^ 16
    → b < 256
    → l < 65536 * 2 ^ k
    → bit_xor (c * 2 ^ later 8 k) (b * 2 ^ k * 65536 + l)
      ≡ bit_xor (u16 (bit_xor c (b * 2 ^ 8)) * 2 ^ later 8 k) l
enters c b k l hc hb hl =
    ap (bit_xor (c * 2 ^ later 8 k)) byte
    ∙ sym (bit_xor_assoc (c * 2 ^ later 8 k) (b * 2 ^ 8 * 2 ^ later 8 k) l)
    ∙ ap (λ t. bit_xor t l)
        (bit_xor_shifted (later 8 k) c (b * 2 ^ 8) ∙ ap (λ t. t * 2 ^ later 8 k) (sym kept))
  where
    kept : u16 (bit_xor c (b * 2 ^ 8)) ≡ bit_xor c (b * 2 ^ 8)
    kept = omega (arith, bit_xor-lt 16 c (b * 2 ^ 8) hc (omega arith))

    place : b * 2 ^ k * 65536 ≡ b * 2 ^ (16 + k)
    place = ground (arith, ap (λ t. b * t) (pow_add_16 k))

    shifted : b * 2 ^ (16 + k) ≡ b * 2 ^ 8 * 2 ^ later 8 k
    shifted =
        ground (arith, ap (λ t. b * t) (pow_add_16 k), ap (λ t. b * 2 ^ 8 * t) (pow_later_8 k))

    byte : b * 2 ^ k * 65536 + l ≡ bit_xor (b * 2 ^ 8 * 2 ^ later 8 k) l
    byte =
        ap (λ t. t + l) place
        ∙ sym (bit_xor_below (16 + k) b l (omega (arith, pow_add_16 k)))
        ∙ ap (λ t. bit_xor t l) shifted

ccitt_loop-bits :
    (bs : List ℕ) (c : ℕ)
    → c < 2 ^ 16
    → All IsByte bs
    → ccitt_loop (length bs) bs c
      ≡ some (remainder (bits bs) (bit_xor (c * 2 ^ bits bs) (number bs * 65536)))
unfolding ccitt_loop ccitt_byte
ccitt_loop-bits [] c hc h = ap some (omega (arith, bit_xor-zero (c * 2 ^ 0)))
ccitt_loop-bits (b ∷ bs) c hc (hb, h) =
    ccitt_loop-bits bs (ccitt_bits 8 (u16 (bit_xor c (b * 2 ^ 8))))
      (ccitt_bits-lt 8 (u16 (bit_xor c (b * 2 ^ 8))) (entered-lt c b)) h
    ∙ ap some (
        sym (
          division_steps 8 (bits bs) (u16 (bit_xor c (b * 2 ^ 8))) (number bs * 65536)
            (entered-lt c b) low)
        ∙ ap (remainder (later 8 (bits bs))) (
            sym (enters c b (bits bs) (number bs * 65536) hc hb low)
            ∙ ap (bit_xor (c * 2 ^ later 8 (bits bs))) (sym parts)))
  where
    low : number bs * 65536 < 65536 * 2 ^ bits bs
    low = omega (arith, number-lt bs h, pow_bits bs)

    parts : number (b ∷ bs) * 65536 ≡ b * 2 ^ bits bs * 65536 + number bs * 65536
    parts = omega (arith, ap (λ t. b * t) (pow_bits bs))

-- `iot_calc_crc16` of fewer than 2^32 bytes, with their count, is the remainder of the polynomial whose
-- coefficients are the bits of the bytes, the highest first, times x^16, by x^16 + x^12 + x^5 + 1.
pub iot_calc_crc16-remainder :
    (bytes : List ℕ)
    → length bytes < 2 ^ 32
    → All IsByte bytes
    → iot_calc_crc16 bytes (length bytes)
      ≡ some (remainder (8 * length bytes) (number bytes * 2 ^ 16))
unfolding iot_calc_crc16
iot_calc_crc16-remainder bytes short h =
    ap (λ n. ccitt_loop n bytes 0) (omega arith)
    ∙ ccitt_loop-bits bytes 0 (omega arith) h
    ∙ ap some (
        ap (remainder (bits bytes)) start
        ∙ ap (λ k. remainder k (number bytes * 65536)) (bits-length bytes))
  where
    start : bit_xor (0 * 2 ^ bits bytes) (number bytes * 65536) ≡ number bytes * 65536
    start =
        ap (λ t. bit_xor t (number bytes * 65536)) (omega arith)
        ∙ zero-bit_xor (number bytes * 65536)
