-- ===== src/Crc16/Division.antt =====
-- The division of polynomials over the field of two elements, and how the inner loop of
-- `iot_calc_crc16` in src/crc16.cpp does it.
use socketlab.Base.{
  ℕ, zero, suc, ◌+◌, ◌-◌, ◌*◌, ◌^◌, ◌≤◌, ◌<◌, bit_xor, ◌≡◌, refl, sym, ap, ap₂, ◌∙◌, ◌⊎◌, inl, inr,
  arith, if◌then◌else◌, leb,
}
use native.Mathlib.Nat.{pow-suc, add-mul}
use socketlab.Base.Bits.Xor.{
  bit_xor_fields, bit_xor_shifted, bit_xor-lt, bit_xor-zero, bit_xor_assoc, bit_xor_comm,
}
use socketlab.Base.Bits.{double_pow}
use socketlab.Crc16.{ccitt_bit, ccitt_bits}
use socketlab.Crc16.Ccitt.{ccitt_bit-low, ccitt_bit-high, ccitt_bit-lt}

-- The remainder of a polynomial with `k + 16` coefficients by x^16 + x^12 + x^5 + 1, coefficient by
-- coefficient. The polynomials are the numbers with these binary digits, and their difference is `^`.
abbrev pub remainder : ℕ → ℕ → ℕ
remainder zero x = x
remainder (suc k) x = remainder k (if leb (65536 * 2 ^ k) x then bit_xor x (0x11021 * 2 ^ k) else x)

abbrev pub later : ℕ → ℕ → ℕ
later zero k = k
later (suc j) k = suc (later j k)

pub pow_add_16 : (k : ℕ) → 2 ^ (16 + k) ≡ 65536 * 2 ^ k
pow_add_16 zero = refl
pow_add_16 (suc k) =
    ap (λ t. 2 ^ t) next ∙ omega (arith, pow-suc 2 (16 + k), pow-suc 2 k, pow_add_16 k)
  where
    next : 16 + suc k ≡ suc (16 + k)
    next = omega arith

scaled-lt : (c m k : ℕ) → c < m → c * 2 ^ k < m * 2 ^ k
scaled-lt c m zero h = ground arith
scaled-lt c m (suc k) h = omega (arith, double_pow c k, double_pow m k, scaled-lt c m k h)

-- The highest coefficient is 0.
stays_low : (k c l : ℕ) → c < 32768 → l < 65536 * 2 ^ k → bit_xor (c * 2 ^ suc k) l < 65536 * 2 ^ k
stays_low k c l hc hl = ground (
  arith,
  pow_add_16 k,
  double_pow c k,
  scaled-lt c 32768 k hc,
  bit_xor-lt (16 + k) (c * 2 ^ suc k) l,
)

-- The highest coefficient is 1.
stays_high :
    (k c l : ℕ)
    → 32768 ≤ c
    → c < 2 ^ 16
    → l < 65536 * 2 ^ k
    → 65536 * 2 ^ k ≤ bit_xor (c * 2 ^ suc k) l
stays_high k c l hm hc hl = ground (
  arith,
  ap (λ x. bit_xor x l) parts,
  pow_add_16 k,
  double_pow (c - 32768) k,
  scaled-lt (c - 32768) 32768 k (omega arith),
  bit_xor_fields (16 + k) 1 0 ((c - 32768) * 2 ^ suc k) l,
  bit_xor-zero 1,
)
  where
    whole : c ≡ 32768 + (c - 32768)
    whole = omega arith

    parts : c * 2 ^ suc k ≡ 1 * 2 ^ (16 + k) + (c - 32768) * 2 ^ suc k
    parts =
        ap (λ t. t * 2 ^ suc k) whole
        ∙ omega (arith, pow-suc 2 k, pow_add_16 k, add-mul 32768 (c - 32768) (2 ^ suc k))

doubled : (k c : ℕ) → c * 2 ^ suc k ≡ c * 2 * 2 ^ k
doubled k c = omega (arith, double_pow c k)

leb-cases : (a b : ℕ) → (a ≤ b) ⊎ (b < a)
leb-cases a b = ground arith

-- The subtraction of the polynomial.
reduced :
    (k c l : ℕ)
    → bit_xor (bit_xor (c * 2 ^ suc k) l) (0x11021 * 2 ^ k)
      ≡ bit_xor (bit_xor (c * 2) 0x11021 * 2 ^ k) l
reduced k c l =
    bit_xor_assoc (c * 2 ^ suc k) l (0x11021 * 2 ^ k)
    ∙ ap₂ bit_xor (doubled k c) (bit_xor_comm l (0x11021 * 2 ^ k))
    ∙ sym (bit_xor_assoc (c * 2 * 2 ^ k) (0x11021 * 2 ^ k) l)
    ∙ ap (λ t. bit_xor t l) (bit_xor_shifted k (c * 2) 0x11021)

-- A coefficient of the quotient is a turn of the inner loop.
division_step :
    (k c l : ℕ)
    → c < 2 ^ 16
    → l < 65536 * 2 ^ k
    → remainder (suc k) (bit_xor (c * 2 ^ suc k) l) ≡ remainder k (bit_xor (ccitt_bit c * 2 ^ k) l)
division_step k c l hc hl =
    ap (remainder k) (elim (leb-cases 32768 c) [ inl high ↦ at_high high | inr low ↦ at_low low ])
  where
    at_high :
        32768 ≤ c
        → (if leb (65536 * 2 ^ k) (bit_xor (c * 2 ^ suc k) l)
            then bit_xor (bit_xor (c * 2 ^ suc k) l) (0x11021 * 2 ^ k)
            else bit_xor (c * 2 ^ suc k) l)
          ≡ bit_xor (ccitt_bit c * 2 ^ k) l
    at_high high = ground (
      arith,
      stays_high k c l high hc hl,
      reduced k c l,
      ap (λ t. bit_xor (t * 2 ^ k) l) (ccitt_bit-high c high hc),
    )

    at_low :
        c < 32768
        → (if leb (65536 * 2 ^ k) (bit_xor (c * 2 ^ suc k) l)
            then bit_xor (bit_xor (c * 2 ^ suc k) l) (0x11021 * 2 ^ k)
            else bit_xor (c * 2 ^ suc k) l)
          ≡ bit_xor (ccitt_bit c * 2 ^ k) l
    at_low low = ground (
      arith,
      stays_low k c l low hl,
      ap (λ t. bit_xor t l) (doubled k c),
      ap (λ t. bit_xor (t * 2 ^ k) l) (ccitt_bit-low c low),
    )

below_later : (j l k : ℕ) → l < 65536 * 2 ^ k → l < 65536 * 2 ^ later j k
below_later zero l k h = h
below_later (suc j) l k h = omega (arith, pow-suc 2 (later j k), below_later j l k h)

pub division_steps :
    (j k c l : ℕ)
    → c < 2 ^ 16
    → l < 65536 * 2 ^ k
    → remainder (later j k) (bit_xor (c * 2 ^ later j k) l)
      ≡ remainder k (bit_xor (ccitt_bits j c * 2 ^ k) l)
unfolding ccitt_bits
division_steps zero k c l hc hl = refl
division_steps (suc j) k c l hc hl =
    division_step (later j k) c l hc (below_later j l k hl)
    ∙ division_steps j k (ccitt_bit c) l (ccitt_bit-lt c hc) hl
