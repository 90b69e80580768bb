-- ===== src/Crc16/Guarantees.antt =====
-- What the two checksums of src/crc16.cpp promise: a frame with its checksum appended is recognised,
-- and a change within two neighbouring bytes is noticed.
use socketlab.Base.{
  ℕ, ◌+◌, ◌*◌, ◌^◌, ◌<◌, bit_xor, List, [], ◌∷◌, ◌++◌, length, length-append, Option, some,
  some_inj, ◌≡◌, refl, sym, ap, ap₂, ◌∙◌, ◌↔◌, ◌≢◌, arith, All, IsByte, All-append,
}
use socketlab.Base.Bits.Xor.{
  bit_xor_assoc, bit_xor_comm, bit_xor-lt, bit_xor_right_cancel, bit_xor_below,
}
use socketlab.Crc16.{us_mb_crc16, iot_calc_crc16, ccitt_loop, ccitt_byte, ccitt_bits}
use socketlab.Crc16.Linear.{high_first, ccitt_byte-IsCrc, ccitt_loop-checksum}
use socketlab.Crc16.Reflected.{
  shift_outs, reflected_byte, shift_outs-bit_xor, shift_outs_zeros, shift_outs-lt, shift_outs_inj,
}
use socketlab.Crc16.Detection.{IsCrc, checksum, accepts, detects}
use socketlab.Crc16.Modbus.{us_mb_crc16-reflected}

-- The bytes of a number, the lower first.
abbrev low_first : ℕ → ℕ → ℕ
low_first x y = y * 2 ^ 8 + x

-- Two bytes enter the register at once.
reflected_two_bytes :
    (c x y : ℕ)
    → x < 256
    → reflected_byte (reflected_byte c x) y ≡ shift_outs 16 (bit_xor c (low_first x y))
reflected_two_bytes c x y hx =
    ap (λ t. shift_outs 8 (bit_xor (shift_outs 8 (bit_xor c x)) t)) (sym (shift_outs_zeros 8 y))
    ∙ ap (shift_outs 8) (sym (shift_outs-bit_xor 8 (bit_xor c x) (y * 2 ^ 8)))
    ∙ ap (shift_outs 16) (
        bit_xor_assoc c x (y * 2 ^ 8)
        ∙ ap (bit_xor c) (bit_xor_comm x (y * 2 ^ 8) ∙ bit_xor_below 8 y x hx))

reflected_byte-IsCrc : IsCrc reflected_byte (shift_outs 16) low_first
reflected_byte-IsCrc = record {
  below = λ c b hc hb. shift_outs-lt 8 (bit_xor c b) (bit_xor-lt 16 c b hc (omega arith));
  same_byte = λ c d b hc hd hb e. bit_xor_right_cancel c d b (
      shift_outs_inj 8 (bit_xor c b) (bit_xor d b) (bit_xor-lt 16 c b hc (omega arith))
        (bit_xor-lt 16 d b hd (omega arith)) e);
  two_bytes = λ c x y hc hx hy. reflected_two_bytes c x y hx;
  shift_inj = λ c d hc hd e. shift_outs_inj 16 c d hc hd e;
  shift_zero = refl;
  join-lt = λ x y hx hy. omega arith;
  join_inj = λ x y x' y' hx hy hx' hy' e. (omega arith, omega arith);
}

-- A code, as `some` of a checksum, for fewer than `limit` bytes.
module _ (code : List ℕ → ℕ → Option ℕ) (step : ℕ → ℕ → ℕ) (start limit : ℕ)
    (computes : (bs : List ℕ)
      → length bs < limit
      → All IsByte bs
      → code bs (length bs) ≡ some (checksum step bs start)) where
  code_iff :
      (bs cs : List ℕ) (m n : ℕ)
      → length bs < limit
      → length cs < limit
      → All IsByte bs
      → All IsByte cs
      → (checksum step bs start ≡ m) ↔ (checksum step cs start ≡ n)
      → (code bs (length bs) ≡ some m) ↔ (code cs (length cs) ≡ some n)
  code_iff bs cs m n lb lc hb hc (to, from) = (
    λ e. computes cs lc hc ∙ ap some (to (some_inj (sym (computes bs lb hb) ∙ e))),
    λ e. computes bs lb hb ∙ ap some (from (some_inj (sym (computes cs lc hc) ∙ e))),
  )

  code_same :
      (bs cs : List ℕ)
      → length bs < limit
      → length cs < limit
      → All IsByte bs
      → All IsByte cs
      → code bs (length bs) ≡ code cs (length cs)
      → checksum step bs start ≡ checksum step cs start
  code_same bs cs lb lc hb hc e = some_inj (sym (computes bs lb hb) ∙ e ∙ computes cs lc hc)

two_more-length :
    (p s : List ℕ) (x y limit : ℕ)
    → length p + length s + 2 < limit
    → length (p ++ x ∷ y ∷ s) < limit
two_more-length p s x y limit h = omega (arith, length-append p (x ∷ y ∷ s))

with_two :
    (p s : List ℕ) (x y : ℕ)
    → All IsByte p
    → All IsByte s
    → x < 256
    → y < 256
    → All IsByte (p ++ x ∷ y ∷ s)
with_two p s x y hp hs hx hy = All-append IsByte p (x ∷ y ∷ s) hp (hx, (hy, hs))

-- `usMBCRC16` of a frame of bytes and two bytes after it, together fewer than 2^16, is 0 exactly if
-- they are the frame's checksum, the lower byte first, as a Modbus frame ends.
pub us_mb_crc16-appended :
    (frame : List ℕ) (lo hi : ℕ)
    → length frame + 2 < 2 ^ 16
    → All IsByte frame
    → lo < 256
    → hi < 256
    → (us_mb_crc16 (frame ++ (lo ∷ hi ∷ [])) (length (frame ++ (lo ∷ hi ∷ []))) ≡ some 0)
      ↔ (us_mb_crc16 frame (length frame) ≡ some (hi * 2 ^ 8 + lo))
us_mb_crc16-appended frame lo hi short h hlo hhi =
    code_iff us_mb_crc16 reflected_byte 0xffff (2 ^ 16) us_mb_crc16-reflected
      (frame ++ (lo ∷ hi ∷ [])) frame 0 (hi * 2 ^ 8 + lo)
      (omega (arith, length-append frame (lo ∷ hi ∷ []))) (omega arith)
      (with_two frame [] lo hi h tt hlo hhi) h
      (accepts reflected_byte (shift_outs 16) low_first reflected_byte-IsCrc frame 0xffff lo hi
        (omega arith) h hlo hhi)

-- Two frames of fewer than 2^16 bytes that differ in one or both of two neighbouring bytes, and nowhere
-- else, have different `usMBCRC16`.
pub us_mb_crc16_detects :
    (p s : List ℕ) (x y x' y' : ℕ)
    → length p + length s + 2 < 2 ^ 16
    → All IsByte p
    → All IsByte s
    → All IsByte (x ∷ y ∷ [])
    → All IsByte (x' ∷ y' ∷ [])
    → (x ∷ y ∷ []) ≢ (x' ∷ y' ∷ [])
    → us_mb_crc16 (p ++ x ∷ y ∷ s) (length (p ++ x ∷ y ∷ s))
      ≢ us_mb_crc16 (p ++ x' ∷ y' ∷ s) (length (p ++ x' ∷ y' ∷ s))
us_mb_crc16_detects p s x y x' y' short hp hs (hx, (hy, _)) (hx', (hy', _)) differ e =
    differ (ap₂ (λ u v. u ∷ v ∷ []) same.0 same.1)
  where
    same : (x ≡ x') × (y ≡ y')
    same =
        detects reflected_byte (shift_outs 16) low_first reflected_byte-IsCrc p s 0xffff x y x' y'
          (omega arith) hp hs hx hy hx' hy'
          (code_same us_mb_crc16 reflected_byte 0xffff (2 ^ 16) us_mb_crc16-reflected
            (p ++ x ∷ y ∷ s) (p ++ x' ∷ y' ∷ s) (two_more-length p s x y _ short)
            (two_more-length p s x' y' _ short) (with_two p s x y hp hs hx hy)
            (with_two p s x' y' hp hs hx' hy') e)

iot_calc_crc16-checksum :
    (bs : List ℕ)
    → length bs < 2 ^ 32
    → All IsByte bs
    → iot_calc_crc16 bs (length bs) ≡ some (checksum ccitt_byte bs 0)
unfolding iot_calc_crc16
iot_calc_crc16-checksum bs short h =
    ap (λ n. ccitt_loop n bs 0) (omega arith) ∙ ccitt_loop-checksum bs 0

-- `iot_calc_crc16` of bytes and two bytes after them, together fewer than 2^32, is 0 exactly if those are the checksum, the
-- higher byte first.
iot_calc_crc16-appended :
    (bytes : List ℕ) (hi lo : ℕ)
    → length bytes + 2 < 2 ^ 32
    → All IsByte bytes
    → hi < 256
    → lo < 256
    → (iot_calc_crc16 (bytes ++ (hi ∷ lo ∷ [])) (length (bytes ++ (hi ∷ lo ∷ []))) ≡ some 0)
      ↔ (iot_calc_crc16 bytes (length bytes) ≡ some (hi * 2 ^ 8 + lo))
iot_calc_crc16-appended bytes hi lo short h hhi hlo =
    code_iff iot_calc_crc16 ccitt_byte 0 (2 ^ 32) iot_calc_crc16-checksum (bytes ++ (hi ∷ lo ∷ []))
      bytes 0 (hi * 2 ^ 8 + lo) (omega (arith, length-append bytes (hi ∷ lo ∷ []))) (omega arith)
      (with_two bytes [] hi lo h tt hhi hlo) h
      (accepts ccitt_byte (ccitt_bits 16) high_first ccitt_byte-IsCrc bytes 0 hi lo (omega arith) h
        hhi hlo)

-- Two frames of fewer than 2^32 bytes that differ in one or both of two neighbouring bytes, and nowhere
-- else, have different `iot_calc_crc16`.
iot_calc_crc16_detects :
    (p s : List ℕ) (x y x' y' : ℕ)
    → length p + length s + 2 < 2 ^ 32
    → All IsByte p
    → All IsByte s
    → All IsByte (x ∷ y ∷ [])
    → All IsByte (x' ∷ y' ∷ [])
    → (x ∷ y ∷ []) ≢ (x' ∷ y' ∷ [])
    → iot_calc_crc16 (p ++ x ∷ y ∷ s) (length (p ++ x ∷ y ∷ s))
      ≢ iot_calc_crc16 (p ++ x' ∷ y' ∷ s) (length (p ++ x' ∷ y' ∷ s))
iot_calc_crc16_detects p s x y x' y' short hp hs (hx, (hy, _)) (hx', (hy', _)) differ e =
    differ (ap₂ (λ u v. u ∷ v ∷ []) same.0 same.1)
  where
    same : (x ≡ x') × (y ≡ y')
    same =
        detects ccitt_byte (ccitt_bits 16) high_first ccitt_byte-IsCrc p s 0 x y x' y' (omega arith)
          hp hs hx hy hx' hy'
          (code_same iot_calc_crc16 ccitt_byte 0 (2 ^ 32) iot_calc_crc16-checksum (p ++ x ∷ y ∷ s)
            (p ++ x' ∷ y' ∷ s) (two_more-length p s x y _ short) (two_more-length p s x' y' _ short)
            (with_two p s x y hp hs hx hy) (with_two p s x' y' hp hs hx' hy') e)
