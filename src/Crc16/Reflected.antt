-- ===== src/Crc16/Reflected.antt =====
-- A reference for `usMBCRC16` of src/crc16.cpp: CRC-16/MODBUS bit by bit, lowest bit first.
use socketlab.Base.{
  ℕ, zero, suc, ◌+◌, ◌*◌, ◌/◌, ◌%◌, ◌^◌, ◌≤◌, ◌<◌, bit_xor, ◌≡◌, refl, sym, ap, ap₂, ◌∙◌, arith,
  if◌then◌else◌, ◌==◌,
}
use socketlab.Base.Bits.{double_pow}
use socketlab.Base.Bits.Xor.{
  bit_xor_fields, bit_xor_half, bit_xor_parity, bit_xor_swap, bit_xor-zero, zero-bit_xor,
  bit_xor_self, bit_xor-lt, bit_xor_right_cancel,
}

-- A bit leaves the register; if it is 1, the polynomial x^16 + x^15 + x^2 + 1, reflected, is subtracted.
abbrev pub shift_out : ℕ → ℕ
shift_out c = if c % 2 == 0 then c / 2 else bit_xor (c / 2) 0xa001

abbrev pub shift_outs : ℕ → ℕ → ℕ
shift_outs zero c = c
shift_outs (suc j) c = shift_outs j (shift_out c)

abbrev pub reflected_byte : ℕ → ℕ → ℕ
reflected_byte c b = shift_outs 8 (bit_xor c b)

-- What is subtracted.
abbrev feed : ℕ → ℕ
feed c = if c % 2 == 0 then 0 else 0xa001

shift_out-feed : (c : ℕ) → shift_out c ≡ bit_xor (c / 2) (feed c)
shift_out-feed c = ground (arith, bit_xor-zero (c / 2))

feed-bit_xor : (a b : ℕ) → feed (bit_xor a b) ≡ bit_xor (feed a) (feed b)
feed-bit_xor a b = ground (
  arith,
  bit_xor_parity a b,
  bit_xor_self 0,
  bit_xor_self 0xa001,
  bit_xor-zero 0xa001,
  zero-bit_xor 0xa001,
)

-- The register depends linearly on its bits.
shift_out-bit_xor : (a b : ℕ) → shift_out (bit_xor a b) ≡ bit_xor (shift_out a) (shift_out b)
shift_out-bit_xor a b =
    shift_out-feed (bit_xor a b)
    ∙ ap₂ bit_xor (bit_xor_half a b) (feed-bit_xor a b)
    ∙ bit_xor_swap (a / 2) (b / 2) (feed a) (feed b)
    ∙ sym (ap₂ bit_xor (shift_out-feed a) (shift_out-feed b))

pub shift_outs-bit_xor :
    (j a b : ℕ) → shift_outs j (bit_xor a b) ≡ bit_xor (shift_outs j a) (shift_outs j b)
shift_outs-bit_xor zero a b = refl
shift_outs-bit_xor (suc j) a b =
    ap (shift_outs j) (shift_out-bit_xor a b) ∙ shift_outs-bit_xor j (shift_out a) (shift_out b)

pub shift_outs_zeros : (j h : ℕ) → shift_outs j (h * 2 ^ j) ≡ h
shift_outs_zeros zero h = omega arith
shift_outs_zeros (suc j) h = ap (shift_outs j) half ∙ shift_outs_zeros j h
  where
    half : shift_out (h * 2 ^ suc j) ≡ h * 2 ^ j
    half = ground (arith, double_pow h j)

-- The polynomial sets the highest bit, so the register tells which bit left it.
fed-high : (c : ℕ) → c < 32768 → 32768 ≤ bit_xor c 0xa001
fed-high c h = omega (
  arith,
  ap (λ x. bit_xor x 0xa001) parts,
  bit_xor_fields 15 0 1 c 0x2001 h (omega arith),
  zero-bit_xor 1,
)
  where
    parts : c ≡ 0 * 2 ^ 15 + c
    parts = omega arith

pub shift_out-lt : (c : ℕ) → c < 2 ^ 16 → shift_out c < 2 ^ 16
shift_out-lt c h = ground (arith, bit_xor-lt 16 (c / 2) 0xa001)

pub shift_outs-lt : (j c : ℕ) → c < 2 ^ 16 → shift_outs j c < 2 ^ 16
shift_outs-lt zero c h = h
shift_outs-lt (suc j) c h = shift_outs-lt j (shift_out c) (shift_out-lt c h)

shift_out_inj : (a b : ℕ) → a < 2 ^ 16 → b < 2 ^ 16 → shift_out a ≡ shift_out b → a ≡ b
shift_out_inj a b ha hb e = ground (
  arith,
  fed-high (a / 2) (omega arith),
  fed-high (b / 2) (omega arith),
  bit_xor_right_cancel (a / 2) (b / 2) 0xa001,
)

pub shift_outs_inj : (j a b : ℕ) → a < 2 ^ 16 → b < 2 ^ 16 → shift_outs j a ≡ shift_outs j b → a ≡ b
shift_outs_inj zero a b ha hb e = e
shift_outs_inj (suc j) a b ha hb e =
    shift_out_inj a b ha hb
      (shift_outs_inj j (shift_out a) (shift_out b) (shift_out-lt a ha) (shift_out-lt b hb) e)
