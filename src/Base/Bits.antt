-- ===== src/Base/Bits.antt =====
-- Laws of `&` and `|` at variables: the lowest digit of each, fields that do not overlap, masks,
-- and `x & (x - 1)`.
pub mod Bytes
pub mod Xor
use Prim.Native.Nat.{
  ℕ, zero, suc, ◌+◌, ◌-◌, ◌*◌, ◌/◌, ◌%◌, ◌^◌, ◌≤◌, ◌<◌, min, max, bit_and, bit_or, digits,
  bit_and-bitwise, bit_or-bitwise,
}
use mathlib.Core.Path.{◌≡◌, refl, ap}
use native.Mathlib.Omega.{arith}
use native.Mathlib.Nat.{pow-suc}

-- The count of digits to go is immaterial once it reaches the first number.
module _ (rest : ℕ → ℕ) (op : ℕ → ℕ → ℕ) where
  enough_digits : (k l x y : ℕ) → x ≤ k → x ≤ l → digits rest op k x y ≡ digits rest op l x y
  enough_digits zero zero x y hk hl = refl
  enough_digits (suc k) zero zero y hk hl = refl
  enough_digits (suc k) zero (suc x) y hk hl = absurd (omega arith)
  enough_digits zero (suc l) zero y hk hl = refl
  enough_digits zero (suc l) (suc x) y hk hl = absurd (omega arith)
  enough_digits (suc k) (suc l) zero y hk hl = refl
  enough_digits (suc k) (suc l) (suc x) y hk hl =
      ap (λ t. t * 2 + op (suc x % 2) (y % 2))
        (enough_digits k l (suc x / 2) (y / 2) (omega arith) (omega arith))

  pub lowest_digit :
      (x y : ℕ)
      → digits rest op (suc x) (suc x) y
        ≡ digits rest op (suc x / 2) (suc x / 2) (y / 2) * 2 + op (suc x % 2) (y % 2)
  lowest_digit x y =
      ap (λ t. t * 2 + op (suc x % 2) (y % 2))
        (enough_digits x (suc x / 2) (suc x / 2) (y / 2) (omega arith) (omega arith))

pub bit_or_digit : (x y : ℕ) → bit_or x y ≡ bit_or (x / 2) (y / 2) * 2 + max (x % 2) (y % 2)
bit_or_digit zero y = simp bit_or-bitwise (omega arith)
bit_or_digit (suc x) y = simp bit_or-bitwise (lowest_digit (λ b. b) max x y)

pub bit_and_digit : (x y : ℕ) → bit_and x y ≡ bit_and (x / 2) (y / 2) * 2 + min (x % 2) (y % 2)
bit_and_digit zero y = simp bit_and-bitwise (omega arith)
bit_and_digit (suc x) y = simp bit_and-bitwise (lowest_digit (λ b. zero) min x y)

zero-bit_or : (x : ℕ) → bit_or 0 x ≡ x
zero-bit_or x = bit_or-bitwise 0 x

zero-bit_and : (x : ℕ) → bit_and 0 x ≡ 0
zero-bit_and x = bit_and-bitwise 0 x

bit_or-zero_below : (n x : ℕ) → x ≤ n → bit_or x 0 ≡ x
bit_or-zero_below n zero h = refl
bit_or-zero_below zero (suc x) h = absurd (omega arith)
bit_or-zero_below (suc n) (suc x) h =
    omega (arith, bit_or_digit (suc x) 0, bit_or-zero_below n (suc x / 2) (omega arith))

pub bit_or-zero : (x : ℕ) → bit_or x 0 ≡ x
bit_or-zero x = bit_or-zero_below x x (omega arith)

bit_and-zero_below : (n x : ℕ) → x ≤ n → bit_and x 0 ≡ 0
bit_and-zero_below n zero h = refl
bit_and-zero_below zero (suc x) h = absurd (omega arith)
bit_and-zero_below (suc n) (suc x) h =
    omega (arith, bit_and_digit (suc x) 0, bit_and-zero_below n (suc x / 2) (omega arith))

pub bit_and-zero : (x : ℕ) → bit_and x 0 ≡ 0
bit_and-zero x = bit_and-zero_below x x (omega arith)

bit_and_self_below : (n x : ℕ) → x ≤ n → bit_and x x ≡ x
bit_and_self_below n zero h = refl
bit_and_self_below zero (suc x) h = absurd (omega arith)
bit_and_self_below (suc n) (suc x) h =
    omega (arith, bit_and_digit (suc x) (suc x), bit_and_self_below n (suc x / 2) (omega arith))

pub bit_and_self : (x : ℕ) → bit_and x x ≡ x
bit_and_self x = bit_and_self_below x x (omega arith)

pub double_pow : (q k : ℕ) → q * 2 ^ suc k ≡ 2 * (q * 2 ^ k)
double_pow q k = omega (arith, ap (λ (t : ℕ). q * t) (pow-suc 2 k))

-- `(q << k) | r` is a sum if `r` has `k` bits.
pub bit_or_field : (k q r : ℕ) → r < 2 ^ k → bit_or (q * 2 ^ k) r ≡ q * 2 ^ k + r
bit_or_field zero q r h = ground (arith, bit_or-zero q)
bit_or_field (suc k) q r h = ground (
  arith,
  bit_or_digit (q * 2 ^ suc k) r,
  double_pow q k,
  pow-suc 2 k,
  bit_or_field k q (r / 2) (omega (arith, pow-suc 2 k)),
)

-- A mask `m << k` takes the bits of `m` from what lies above the lowest `k` bits.
pub bit_and_field :
    (k q r m : ℕ) → r < 2 ^ k → bit_and (q * 2 ^ k + r) (m * 2 ^ k) ≡ bit_and q m * 2 ^ k
bit_and_field zero q r m h = ground (arith)
bit_and_field (suc k) q r m h = ground (
  arith,
  bit_and_digit (q * 2 ^ suc k + r) (m * 2 ^ suc k),
  double_pow q k,
  double_pow m k,
  double_pow (bit_and q m) k,
  pow-suc 2 k,
  bit_and_field k q (r / 2) m,
)

-- `x & 1` and `x & 0xff` are remainders.
pub bit_and-one : (x : ℕ) → bit_and x 1 ≡ x % 2
bit_and-one x = omega (arith, bit_and_digit x 1, bit_and-zero (x / 2))

-- The mask 2k + 1 takes one digit more than the mask k.
mask_digit : (x m : ℕ) → bit_and x (2 * m + 1) ≡ bit_and (x / 2) m * 2 + x % 2
mask_digit x m = omega (arith, bit_and_digit x (2 * m + 1), ap (bit_and (x / 2)) half)
  where
    half : (2 * m + 1) / 2 ≡ m
    half = omega arith

-- The mask 256 m + 255 takes a byte more than the mask m.
mask_byte : (x m : ℕ) → bit_and x (256 * m + 255) ≡ bit_and (x / 256) m * 256 + x % 256
mask_byte x m = ground (
  arith,
  mask_digit x (128 * m + 127),
  mask_digit (x / 2) (64 * m + 63),
  mask_digit (x / 4) (32 * m + 31),
  mask_digit (x / 8) (16 * m + 15),
  mask_digit (x / 16) (8 * m + 7),
  mask_digit (x / 32) (4 * m + 3),
  mask_digit (x / 64) (2 * m + 1),
  mask_digit (x / 128) m,
)

pub bit_and_byte : (x : ℕ) → bit_and x 0xff ≡ x % 256
bit_and_byte x = omega (arith, mask_byte x 0, bit_and-zero (x / 256))

pub bit_and_half : (x : ℕ) → bit_and x 0xffff ≡ x % 65536
bit_and_half x = omega (arith, mask_byte x 255, bit_and_byte (x / 256))

-- `x & (x - 1)` clears the lowest bit that is set.
pub clear_odd : (h : ℕ) → bit_and (2 * h + 1) (2 * h) ≡ 2 * h
clear_odd h = ground (arith, bit_and_digit (2 * h + 1) (2 * h), bit_and_self h)

pub clear_even : (h : ℕ) → 0 < h → bit_and (2 * h) (2 * h - 1) ≡ 2 * bit_and h (h - 1)
clear_even h p = ground (arith, bit_and_digit (2 * h) (2 * h - 1))
