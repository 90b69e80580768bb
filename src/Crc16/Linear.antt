-- ===== src/Crc16/Linear.antt =====
-- The register of `iot_calc_crc16` in src/crc16.cpp depends linearly, and one to one, on its bits.
use socketlab.Base.{
  ℕ, zero, suc, ◌+◌, ◌*◌, ◌/◌, ◌%◌, ◌^◌, ◌≤◌, ◌<◌, bit_xor, List, [], ◌∷◌, length, some, ◌≡◌, refl,
  sym, ap, ap₂, ◌∙◌, arith, if◌then◌else◌, leb, u16,
}
use socketlab.Base.Bits.{double_pow}
use socketlab.Base.Bits.Xor.{
  bit_xor_fields, bit_xor_parity, bit_xor_swap, bit_xor-zero, zero-bit_xor, bit_xor_self,
  bit_xor-lt, bit_xor_shifted, bit_xor_assoc, bit_xor_below, bit_xor_right_cancel,
}
use socketlab.Crc16.{ccitt_bit, ccitt_bits, ccitt_byte, ccitt_loop}
use socketlab.Crc16.Ccitt.{ccitt_bit-low, ccitt_bit-high, ccitt_bit-lt, ccitt_bits-lt}
use socketlab.Crc16.Detection.{IsCrc, checksum}

-- What is subtracted.
abbrev feed : ℕ → ℕ
feed c = if leb 32768 c then 0x11021 else 0

ccitt_bit-feed : (c : ℕ) → c < 2 ^ 16 → ccitt_bit c ≡ bit_xor (c * 2) (feed c)
ccitt_bit-feed c h = ground (arith, ccitt_bit-low c, ccitt_bit-high c, bit_xor-zero (c * 2))

highest-bit_xor :
    (a b : ℕ) → a < 2 ^ 16 → b < 2 ^ 16 → bit_xor a b / 32768 ≡ (a / 32768 + b / 32768) % 2
highest-bit_xor a b ha hb = omega (
  arith,
  ap₂ bit_xor (parts a) (parts b),
  bit_xor_fields 15 (a / 32768) (b / 32768) (a % 32768) (b % 32768) (omega arith) (omega arith),
  bit_xor-lt 15 (a % 32768) (b % 32768) (omega arith) (omega arith),
  bit_xor-lt 1 (a / 32768) (b / 32768) (omega arith) (omega arith),
  bit_xor_parity (a / 32768) (b / 32768),
)
  where
    parts : (x : ℕ) → x ≡ x / 32768 * 2 ^ 15 + x % 32768
    parts x = omega arith

feed-bit_xor : (a b : ℕ) → a < 2 ^ 16 → b < 2 ^ 16 → feed (bit_xor a b) ≡ bit_xor (feed a) (feed b)
feed-bit_xor a b ha hb = ground (
  arith,
  highest-bit_xor a b ha hb,
  bit_xor_self 0,
  bit_xor_self 0x11021,
  bit_xor-zero 0x11021,
  zero-bit_xor 0x11021,
)

ccitt_bit-bit_xor :
    (a b : ℕ)
    → a < 2 ^ 16
    → b < 2 ^ 16
    → ccitt_bit (bit_xor a b) ≡ bit_xor (ccitt_bit a) (ccitt_bit b)
ccitt_bit-bit_xor a b ha hb =
    ccitt_bit-feed (bit_xor a b) (bit_xor-lt 16 a b ha hb)
    ∙ ap₂ bit_xor (sym (bit_xor_shifted 1 a b)) (feed-bit_xor a b ha hb)
    ∙ bit_xor_swap (a * 2) (b * 2) (feed a) (feed b)
    ∙ sym (ap₂ bit_xor (ccitt_bit-feed a ha) (ccitt_bit-feed b hb))

ccitt_bits-bit_xor :
    (j a b : ℕ)
    → a < 2 ^ 16
    → b < 2 ^ 16
    → ccitt_bits j (bit_xor a b) ≡ bit_xor (ccitt_bits j a) (ccitt_bits j b)
unfolding ccitt_bits
ccitt_bits-bit_xor zero a b ha hb = refl
ccitt_bits-bit_xor (suc j) a b ha hb =
    ap (ccitt_bits j) (ccitt_bit-bit_xor a b ha hb)
    ∙ ccitt_bits-bit_xor j (ccitt_bit a) (ccitt_bit b) (ccitt_bit-lt a ha) (ccitt_bit-lt b hb)

-- The lowest bit of the register tells whether the polynomial was subtracted.
ccitt_bit-parity : (c : ℕ) → c < 2 ^ 16 → ccitt_bit c % 2 ≡ c / 32768
ccitt_bit-parity c h =
    ground (arith, ccitt_bit-low c, ccitt_bit-high c, bit_xor_parity (c * 2) 0x11021)

ccitt_bit_inj : (a b : ℕ) → a < 2 ^ 16 → b < 2 ^ 16 → ccitt_bit a ≡ ccitt_bit b → a ≡ b
ccitt_bit_inj a b ha hb e = omega (
  arith,
  bit_xor_right_cancel (a * 2) (b * 2) (feed b)
      (ap (bit_xor (a * 2)) same ∙ sym (ccitt_bit-feed a ha) ∙ e ∙ ccitt_bit-feed b hb),
)
  where
    same : feed b ≡ feed a
    same = ground (arith, ccitt_bit-parity a ha, ccitt_bit-parity b hb)

ccitt_bits_inj : (j a b : ℕ) → a < 2 ^ 16 → b < 2 ^ 16 → ccitt_bits j a ≡ ccitt_bits j b → a ≡ b
unfolding ccitt_bits
ccitt_bits_inj zero a b ha hb e = e
ccitt_bits_inj (suc j) a b ha hb e =
    ccitt_bit_inj a b ha hb
      (ccitt_bits_inj j (ccitt_bit a) (ccitt_bit b) (ccitt_bit-lt a ha) (ccitt_bit-lt b hb) e)

le_scaled : (y j : ℕ) → y ≤ y * 2 ^ j
le_scaled y zero = omega arith
le_scaled y (suc j) = omega (arith, double_pow y j, le_scaled y j)

-- Bits move up unchanged while the register's highest bit is 0.
bits_move_up : (j y : ℕ) → y * 2 ^ j < 2 ^ 16 → ccitt_bits j y ≡ y * 2 ^ j
unfolding ccitt_bits
bits_move_up zero y h = omega arith
bits_move_up (suc j) y h =
    ap (ccitt_bits j) doubled ∙ bits_move_up j (y * 2) (omega (arith, moved)) ∙ moved
  where
    doubled : ccitt_bit y ≡ y * 2
    doubled = ccitt_bit-low y (omega (arith, double_pow y j, le_scaled y j))

    moved : y * 2 * 2 ^ j ≡ y * 2 ^ suc j
    moved = omega (arith, double_pow y j)

-- The bytes of a number, the higher first.
abbrev pub high_first : ℕ → ℕ → ℕ
high_first x y = x * 2 ^ 8 + y

entered : (c b : ℕ) → c < 2 ^ 16 → b < 256 → u16 (bit_xor c (b * 2 ^ 8)) ≡ bit_xor c (b * 2 ^ 8)
entered c b hc hb = omega (arith, bit_xor-lt 16 c (b * 2 ^ 8) hc (omega arith))

ccitt_byte-bits :
    (c b : ℕ) → c < 2 ^ 16 → b < 256 → ccitt_byte c b ≡ ccitt_bits 8 (bit_xor c (b * 2 ^ 8))
unfolding ccitt_byte
ccitt_byte-bits c b hc hb = ap (ccitt_bits 8) (entered c b hc hb)

-- Two bytes enter the register at once.
ccitt_two_bytes :
    (c x y : ℕ)
    → c < 2 ^ 16
    → x < 256
    → y < 256
    → ccitt_byte (ccitt_byte c x) y ≡ ccitt_bits 16 (bit_xor c (high_first x y))
unfolding ccitt_bits
ccitt_two_bytes c x y hc hx hy =
    ap (λ t. ccitt_byte t y) (ccitt_byte-bits c x hc hx)
    ∙ ccitt_byte-bits (ccitt_bits 8 d) y (ccitt_bits-lt 8 d hd) hy
    ∙ ap (λ t. ccitt_bits 8 (bit_xor (ccitt_bits 8 d) t)) (sym (bits_move_up 8 y (omega arith)))
    ∙ ap (ccitt_bits 8) (sym (ccitt_bits-bit_xor 8 d y hd (omega arith)))
    ∙ ap (ccitt_bits 16) (bit_xor_assoc c (x * 2 ^ 8) y ∙ ap (bit_xor c) (bit_xor_below 8 x y hy))
  where
    d : ℕ
    d = bit_xor c (x * 2 ^ 8)

    hd : d < 2 ^ 16
    hd = bit_xor-lt 16 c (x * 2 ^ 8) hc (omega arith)

pub ccitt_byte-IsCrc : IsCrc ccitt_byte (ccitt_bits 16) high_first
unfolding ccitt_bits
ccitt_byte-IsCrc = record {
  below = λ c b hc hb. byte_lt c b hc hb;
  same_byte = λ c d b hc hd hb e. bit_xor_right_cancel c d (b * 2 ^ 8) (
      ccitt_bits_inj 8 (bit_xor c (b * 2 ^ 8)) (bit_xor d (b * 2 ^ 8))
        (bit_xor-lt 16 c (b * 2 ^ 8) hc (omega arith))
        (bit_xor-lt 16 d (b * 2 ^ 8) hd (omega arith))
        (sym (ccitt_byte-bits c b hc hb) ∙ e ∙ ccitt_byte-bits d b hd hb));
  two_bytes = λ c x y hc hx hy. ccitt_two_bytes c x y hc hx hy;
  shift_inj = λ c d hc hd e. ccitt_bits_inj 16 c d hc hd e;
  shift_zero = bits_move_up 16 0 (omega arith);
  join-lt = λ x y hx hy. omega arith;
  join_inj = λ x y x' y' hx hy hx' hy' e. (omega arith, omega arith);
}
  where
    byte_lt : (c b : ℕ) → c < 2 ^ 16 → b < 256 → ccitt_byte c b < 2 ^ 16
    byte_lt c b hc hb = omega (
      arith,
      ccitt_byte-bits c b hc hb,
      ccitt_bits-lt 8 (bit_xor c (b * 2 ^ 8)) (bit_xor-lt 16 c (b * 2 ^ 8) hc (omega arith)),
    )

pub ccitt_loop-checksum :
    (bs : List ℕ) (c : ℕ) → ccitt_loop (length bs) bs c ≡ some (checksum ccitt_byte bs c)
unfolding ccitt_loop
ccitt_loop-checksum [] c = refl
ccitt_loop-checksum (b ∷ bs) c = ccitt_loop-checksum bs (ccitt_byte c b)
