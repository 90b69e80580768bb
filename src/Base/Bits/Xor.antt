-- ===== src/Base/Bits/Xor.antt =====
-- Laws of `^` at variables: the lowest digit, the laws of a group of exponent two, and fields that
-- do not overlap.
use Prim.Native.Nat.{
  ℕ, zero, suc, ◌+◌, ◌*◌, ◌/◌, ◌%◌, ◌^◌, ◌≤◌, ◌<◌, max, bit_xor, differ, bit_xor-bitwise,
}
use mathlib.Core.Path.{◌≡◌, refl, sym, ap, ap₂, ◌∙◌}
use native.Mathlib.Omega.{arith}
use native.Mathlib.Nat.{pow-suc, one-le-pow}
use socketlab.Base.Bits.{lowest_digit, double_pow}

differ_digits : (a b : ℕ) → a < 2 → b < 2 → differ a b ≡ (a + b) % 2
differ_digits zero b ha hb = omega arith
differ_digits (suc zero) zero ha hb = refl
differ_digits (suc zero) (suc zero) ha hb = refl
differ_digits (suc zero) (suc (suc b)) ha hb = absurd (omega arith)
differ_digits (suc (suc a)) b ha hb = absurd (omega arith)

differ_parity : (x y : ℕ) → differ (x % 2) (y % 2) ≡ (x + y) % 2
differ_parity x y = omega (arith, differ_digits (x % 2) (y % 2) (omega arith) (omega arith))

pub bit_xor_digit : (x y : ℕ) → bit_xor x y ≡ bit_xor (x / 2) (y / 2) * 2 + (x + y) % 2
bit_xor_digit zero y = simp bit_xor-bitwise (omega arith)
bit_xor_digit (suc x) y =
    simp bit_xor-bitwise (omega (arith, lowest_digit (λ b. b) differ x y, differ_parity (suc x) y))

pub bit_xor_half : (x y : ℕ) → bit_xor x y / 2 ≡ bit_xor (x / 2) (y / 2)
bit_xor_half x y = omega (arith, bit_xor_digit x y)

pub bit_xor_parity : (x y : ℕ) → bit_xor x y % 2 ≡ (x + y) % 2
bit_xor_parity x y = omega (arith, bit_xor_digit x y)

pub zero-bit_xor : (x : ℕ) → bit_xor 0 x ≡ x
zero-bit_xor x = bit_xor-bitwise 0 x

bit_xor_comm_below : (n x y : ℕ) → x ≤ n → y ≤ n → bit_xor x y ≡ bit_xor y x
bit_xor_comm_below zero zero zero hx hy = refl
bit_xor_comm_below zero (suc x) y hx hy = absurd (omega arith)
bit_xor_comm_below zero zero (suc y) hx hy = absurd (omega arith)
bit_xor_comm_below (suc n) x y hx hy = omega (
  arith,
  bit_xor_digit x y,
  bit_xor_digit y x,
  bit_xor_comm_below n (x / 2) (y / 2) (omega arith) (omega arith),
)

pub bit_xor_comm : (x y : ℕ) → bit_xor x y ≡ bit_xor y x
bit_xor_comm x y = bit_xor_comm_below (max x y) x y (omega arith) (omega arith)

pub bit_xor-zero : (x : ℕ) → bit_xor x 0 ≡ x
bit_xor-zero x = bit_xor_comm x 0 ∙ zero-bit_xor x

bit_xor_assoc_below :
    (n x y z : ℕ) → x ≤ n → y ≤ n → z ≤ n → bit_xor (bit_xor x y) z ≡ bit_xor x (bit_xor y z)
bit_xor_assoc_below zero zero zero zero hx hy hz = refl
bit_xor_assoc_below zero (suc x) y z hx hy hz = absurd (omega arith)
bit_xor_assoc_below zero zero (suc y) z hx hy hz = absurd (omega arith)
bit_xor_assoc_below zero zero zero (suc z) hx hy hz = absurd (omega arith)
bit_xor_assoc_below (suc n) x y z hx hy hz = omega (
  arith,
  bit_xor_digit (bit_xor x y) z,
  bit_xor_digit x (bit_xor y z),
  ap (λ t. bit_xor t (z / 2)) (bit_xor_half x y),
  ap (bit_xor (x / 2)) (bit_xor_half y z),
  bit_xor_parity x y,
  bit_xor_parity y z,
  bit_xor_assoc_below n (x / 2) (y / 2) (z / 2) (omega arith) (omega arith) (omega arith),
)

pub bit_xor_assoc : (x y z : ℕ) → bit_xor (bit_xor x y) z ≡ bit_xor x (bit_xor y z)
bit_xor_assoc x y z =
    bit_xor_assoc_below (max x (max y z)) x y z (omega arith) (omega arith) (omega arith)

bit_xor_self_below : (n x : ℕ) → x ≤ n → bit_xor x x ≡ 0
bit_xor_self_below zero zero h = refl
bit_xor_self_below zero (suc x) h = absurd (omega arith)
bit_xor_self_below (suc n) x h =
    omega (arith, bit_xor_digit x x, bit_xor_self_below n (x / 2) (omega arith))

pub bit_xor_self : (x : ℕ) → bit_xor x x ≡ 0
bit_xor_self x = bit_xor_self_below x x (omega arith)

-- A number is its own inverse.
pub bit_xor_twice : (x y : ℕ) → bit_xor x (bit_xor x y) ≡ y
bit_xor_twice x y =
    sym (bit_xor_assoc x x y) ∙ ap (λ t. bit_xor t y) (bit_xor_self x) ∙ zero-bit_xor y

pub bit_xor_cancel : (x y z : ℕ) → bit_xor x y ≡ bit_xor x z → y ≡ z
bit_xor_cancel x y z e = sym (bit_xor_twice x y) ∙ ap (bit_xor x) e ∙ bit_xor_twice x z

pub bit_xor_right_cancel : (x y z : ℕ) → bit_xor x z ≡ bit_xor y z → x ≡ y
bit_xor_right_cancel x y z e = bit_xor_cancel z x y (bit_xor_comm z x ∙ e ∙ bit_xor_comm y z)

-- Two sums, term by term.
pub bit_xor_swap :
    (a b c d : ℕ) → bit_xor (bit_xor a b) (bit_xor c d) ≡ bit_xor (bit_xor a c) (bit_xor b d)
bit_xor_swap a b c d =
    bit_xor_assoc a b (bit_xor c d)
    ∙ ap (bit_xor a)
        (sym (bit_xor_assoc b c d) ∙ ap (λ t. bit_xor t d) (bit_xor_comm b c) ∙ bit_xor_assoc c b d)
    ∙ sym (bit_xor_assoc a c (bit_xor b d))

-- The lowest `k` bits and those above them are apart.
pub bit_xor_fields :
    (k a b r s : ℕ)
    → r < 2 ^ k
    → s < 2 ^ k
    → bit_xor (a * 2 ^ k + r) (b * 2 ^ k + s) ≡ bit_xor a b * 2 ^ k + bit_xor r s
bit_xor_fields zero a b r s hr hs = ground (arith)
bit_xor_fields (suc k) a b r s hr hs = ground (
  arith,
  bit_xor_digit (a * 2 ^ suc k + r) (b * 2 ^ suc k + s),
  bit_xor_digit r s,
  double_pow a k,
  double_pow b k,
  double_pow (bit_xor a b) k,
  pow-suc 2 k,
  bit_xor_fields k a b (r / 2) (s / 2),
)

pub bit_xor-lt : (k r s : ℕ) → r < 2 ^ k → s < 2 ^ k → bit_xor r s < 2 ^ k
bit_xor-lt zero r s hr hs = ground (arith)
bit_xor-lt (suc k) r s hr hs =
    ground (arith, bit_xor_digit r s, pow-suc 2 k, bit_xor-lt k (r / 2) (s / 2))

-- `^` of two shifted numbers, and of a shifted number and one below it.
module _ (k : ℕ) where
  pub pow-pos : 0 < 2 ^ k
  pow-pos = one-le-pow k 2 (omega arith)

  pub bit_xor_shifted : (a b : ℕ) → bit_xor (a * 2 ^ k) (b * 2 ^ k) ≡ bit_xor a b * 2 ^ k
  bit_xor_shifted a b =
      ap₂ bit_xor (plus_zero (a * 2 ^ k)) (plus_zero (b * 2 ^ k))
      ∙ omega (arith, bit_xor_fields k a b 0 0 pow-pos pow-pos, bit_xor_self 0)
    where
      plus_zero : (x : ℕ) → x ≡ x + 0
      plus_zero x = omega arith

  pub bit_xor_below : (a r : ℕ) → r < 2 ^ k → bit_xor (a * 2 ^ k) r ≡ a * 2 ^ k + r
  bit_xor_below a r h =
      ap₂ bit_xor plus_zero zero_plus
      ∙ bit_xor_fields k a 0 0 r pow-pos h
      ∙ ap₂ (λ u v. u * 2 ^ k + v) (bit_xor-zero a) (zero-bit_xor r)
    where
      plus_zero : a * 2 ^ k ≡ a * 2 ^ k + 0
      plus_zero = omega arith

      zero_plus : r ≡ 0 * 2 ^ k + r
      zero_plus = omega arith

  -- `^` with a number below the higher field.
  pub bit_xor_above :
      (h a r : ℕ) → h < 2 ^ k → r < 2 ^ k → bit_xor h (a * 2 ^ k + r) ≡ a * 2 ^ k + bit_xor h r
  bit_xor_above h a r hh hr =
      ap (λ t. bit_xor t (a * 2 ^ k + r)) zero_plus
      ∙ bit_xor_fields k 0 a h r hh hr
      ∙ ap (λ t. t * 2 ^ k + bit_xor h r) (zero-bit_xor a)
    where
      zero_plus : h ≡ 0 * 2 ^ k + h
      zero_plus = omega arith
