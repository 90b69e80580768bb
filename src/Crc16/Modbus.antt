-- ===== src/Crc16/Modbus.antt =====
-- `usMBCRC16` of src/crc16.cpp: its tables, and its loop against the reference.
use socketlab.Base.{
  ℕ, zero, suc, ◌+◌, ◌*◌, ◌^◌, ◌<◌, bit_xor, List, [], ◌∷◌, length, some, ◌≡◌, refl, sym, ap, ap₂,
  ◌∙◌, arith, ◌⊎◌, inl, inr, Bool, true, false, ◌&&◌, ◌==◌, ltb, ltb→lt, ==_iff, get_or, All,
  IsByte, u8,
}
use socketlab.Base.Bits.{bit_or_field}
use socketlab.Base.Bits.Xor.{bit_xor_below, bit_xor_above, bit_xor_assoc, bit_xor-lt}
use socketlab.Crc16.{
  Registers, auc_crc_hi, auc_crc_lo, modbus_byte, modbus_loop, combined, us_mb_crc16,
}
use socketlab.Crc16.Detection.{checksum}
use socketlab.Crc16.Reflected.{shift_outs, reflected_byte, shift_outs-bit_xor, shift_outs_zeros}

abbrev all_below : ℕ → (ℕ → Bool) → Bool
all_below zero test = true
all_below (suc n) test = test n && all_below n test

both : (a b : Bool) → a && b ≡ true → (a ≡ true) × (b ≡ true)
both true b e = (refl, e)
both false b e = absurd cc

all_below-holds :
    (n : ℕ) (test : ℕ → Bool) → all_below n test ≡ true → (i : ℕ) → i < n → test i ≡ true
all_below-holds zero test e i h = absurd (omega arith)
all_below-holds (suc n) test e i h = elim last_or_below [
  | inl below ↦ all_below-holds n test (both (test n) (all_below n test) e).1 i below
  | inr last ↦ ap test last ∙ (both (test n) (all_below n test) e).0
]
  where
    last_or_below : (i < n) ⊎ (i ≡ n)
    last_or_below = ground arith

-- The tables hold, for an index, the register after its eight bits have left it.
abbrev entry : ℕ → Bool
entry i =
    shift_outs 8 i == get_or auc_crc_lo i 0 * 256 + get_or auc_crc_hi i 0
    && ltb (get_or auc_crc_hi i 0) 256
    && ltb (get_or auc_crc_lo i 0) 256

entries : all_below 256 entry ≡ true
entries = refl

pub shift_outs-entry :
    (i : ℕ) → i < 256 → shift_outs 8 i ≡ get_or auc_crc_lo i 0 * 256 + get_or auc_crc_hi i 0
shift_outs-entry i h = grind (arith, both, ==_iff, all_below-holds 256 entry entries i h)

hi_entry-lt : (i : ℕ) → i < 256 → get_or auc_crc_hi i 0 < 256
hi_entry-lt i h = grind (arith, both, ltb→lt, all_below-holds 256 entry entries i h)

-- The register that the two halves stand for.
abbrev pub register : Registers → ℕ
register c = c.hi * 2 ^ 8 + c.lo

abbrev pub InRange : Registers → Type 0
InRange c = (c.hi < 256) × (c.lo < 256)

lo_entry-lt : (i : ℕ) → i < 256 → get_or auc_crc_lo i 0 < 256
lo_entry-lt i h = grind (arith, both, ltb→lt, all_below-holds 256 entry entries i h)

module _ (c : Registers) (b : ℕ) (r : InRange c) (hb : b < 256) where
  index-lt : bit_xor c.lo b < 256
  index-lt = bit_xor-lt 8 c.lo b r.1 hb

  modbus_byte-InRange : InRange (modbus_byte c b)
  unfolding modbus_byte
  modbus_byte-InRange = (lo_entry-lt (bit_xor c.lo b) index-lt, omega arith)

  -- The byte meets the lower half; the upper half takes its place.
  entered : bit_xor (register c) b ≡ bit_xor (c.hi * 2 ^ 8) (bit_xor c.lo b)
  entered =
      ap (λ t. bit_xor t b) (sym (bit_xor_below 8 c.hi c.lo r.1))
      ∙ bit_xor_assoc (c.hi * 2 ^ 8) c.lo b

  modbus_byte-register : register (modbus_byte c b) ≡ reflected_byte (register c) b
  unfolding modbus_byte
  modbus_byte-register =
      ap (λ t. get_or auc_crc_lo (bit_xor c.lo b) 0 * 2 ^ 8 + t) kept
      ∙ sym (
          ap (shift_outs 8) entered
          ∙ shift_outs-bit_xor 8 (c.hi * 2 ^ 8) (bit_xor c.lo b)
          ∙ ap₂ bit_xor (shift_outs_zeros 8 c.hi) (shift_outs-entry (bit_xor c.lo b) index-lt)
          ∙ bit_xor_above 8 c.hi (get_or auc_crc_lo (bit_xor c.lo b) 0)
              (get_or auc_crc_hi (bit_xor c.lo b) 0) r.0 hi_lt)
    where
      hi_lt : get_or auc_crc_hi (bit_xor c.lo b) 0 < 256
      hi_lt = hi_entry-lt (bit_xor c.lo b) index-lt

      kept :
          u8 (bit_xor c.hi (get_or auc_crc_hi (bit_xor c.lo b) 0))
          ≡ bit_xor c.hi (get_or auc_crc_hi (bit_xor c.lo b) 0)
      kept = omega (arith, bit_xor-lt 8 c.hi (get_or auc_crc_hi (bit_xor c.lo b) 0) r.0 hi_lt)

modbus_loop-checksum :
    (frame : List ℕ) (c : Registers)
    → InRange c
    → All IsByte frame
    → combined (modbus_loop (length frame) frame c)
      ≡ some (checksum reflected_byte frame (register c))
unfolding modbus_loop combined
modbus_loop-checksum [] c r h = ap some (omega (arith, bit_or_field 8 c.hi c.lo r.1, r.0))
modbus_loop-checksum (b ∷ frame) c r (hb, h) =
    modbus_loop-checksum frame (modbus_byte c b) (modbus_byte-InRange c b r hb) h
    ∙ ap (λ t. some (checksum reflected_byte frame t)) (modbus_byte-register c b r hb)

-- `usMBCRC16` of a frame of fewer than 2^16 bytes, with its length, is the reflected code of the reference, from a
-- register of ones: the two tables and the exchange of the register's halves compute it.
pub us_mb_crc16-reflected :
    (frame : List ℕ)
    → length frame < 2 ^ 16
    → All IsByte frame
    → us_mb_crc16 frame (length frame) ≡ some (checksum reflected_byte frame 0xffff)
unfolding us_mb_crc16
us_mb_crc16-reflected frame short h =
    ap (λ n. combined (modbus_loop n frame (record { hi = 0xff; lo = 0xff }))) (omega arith)
    ∙ modbus_loop-checksum frame (record { hi = 0xff; lo = 0xff }) (omega arith, omega arith) h
