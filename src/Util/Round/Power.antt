-- ===== src/Util/Round/Power.antt =====
-- `round_two` is the least power of two, and `reverse32` reverses the bytes.
use socketlab.Base.{
  ℕ, zero, suc, ◌+◌, ◌-◌, ◌*◌, ◌/◌, ◌%◌, ◌^◌, ◌≤◌, ◌<◌, ◌≡◌, ◌⊎◌, inl, inr, refl, ap, ap₂, ◌∙◌,
  bit_and, bit_or, u32, ◌<<<◌, ◌>>>◌, arith, le32, be32,
}
use socketlab.Base.Bits.{clear_odd, clear_even, bit_or_field, bit_and_field, bit_and_byte}
use native.Mathlib.Nat.{pow-suc, pow-le-pow_right}
use socketlab.Util.Round.{keep_highest, round_two, reverse32}

below_lem : (x : ℕ) → 0 < x → x < 2 ^ 32 → u32 (x + 2 ^ 32 - 1) ≡ x - 1
below_lem x p h = omega arith

-- Half of a number that has its highest bit at `suc k` has it at `k`.
abbrev HasTop : ℕ → ℕ → Type 0
HasTop p x = (p ≤ x) × (x < 2 * p)

-- What `x & (x - 1)` leaves of a number whose highest bit is `p`.
abbrev Cleared : ℕ → ℕ → ℕ → Type 0
Cleared p x c = ((c ≡ 0) × (x ≡ p)) ⊎ ((p ≤ c) × (c < x))

halves : (x : ℕ) → (x ≡ 2 * (x / 2)) ⊎ (x ≡ 2 * (x / 2) + 1)
halves x = ground arith

clear-Cleared : (k x : ℕ) → HasTop (2 ^ k) x → Cleared (2 ^ k) x (bit_and x (x - 1))
clear-Cleared zero x h = rw one (inl (refl, refl))
  where
    one : x ≡ 1
    one = omega arith
clear-Cleared (suc k) x h = elim (halves x) [
  | inl e ↦ doubled e (clear-Cleared k (x / 2) (omega (arith, pow-suc 2 k)))
  | inr e ↦ inr (odd_case e)
]
  where
    doubled :
        x ≡ 2 * (x / 2)
        → Cleared (2 ^ k) (x / 2) (bit_and (x / 2) (x / 2 - 1))
        → Cleared (2 ^ suc k) x (bit_and x (x - 1))
    doubled e z =
        let whole = ap₂ bit_and e (ap (λ y. y - 1) e) ∙ clear_even (x / 2) (omega arith) in
        elim z [
          | inl u ↦ inl (omega (arith, whole, u.0, u.1, pow-suc 2 k))
          | inr u ↦ inr (omega (arith, whole, u.0, u.1, pow-suc 2 k))
        ]

    odd_case : x ≡ 2 * (x / 2) + 1 → (2 ^ suc k ≤ bit_and x (x - 1)) × (bit_and x (x - 1) < x)
    odd_case e =
        let cleared = ap (λ y. bit_and y (y - 1)) e in
        ground (arith, cleared, clear_odd (x / 2), pow-suc 2 k)

keep_highest-top :
    (n k x : ℕ) → x ≤ n → x < 2 ^ 32 → HasTop (2 ^ k) x → 0 < x → keep_highest n x ≡ 2 ^ k
unfolding keep_highest
keep_highest-top zero k x n_fits fits h p = absurd (omega arith)
keep_highest-top (suc n) k x n_fits fits h p = rw (below_lem x p fits) (elim (clear-Cleared k x h) [
  | inl z ↦ rw z.0 z.1
  | inr z ↦ ground (
    arith,
    keep_highest-top n k (bit_and x (x - 1)) (omega arith) (omega arith) (omega arith)
        (omega arith),
  )
])

-- Exactly a power of two is cleared to 0.
at_power :
    (k x : ℕ)
    → 2 ^ k < x
    → x ≤ 2 ^ suc k
    → ((bit_and x (x - 1) ≡ 0) × (x ≡ 2 ^ suc k)) ⊎ ((0 < bit_and x (x - 1)) × (HasTop (2 ^ k) x))
at_power k x low high = ground (
  arith,
  pow-suc 2 k,
  λ (h : HasTop (2 ^ suc k) x). clear-Cleared (suc k) x h,
  λ (h : HasTop (2 ^ k) x). clear-Cleared k x h,
)

-- From 2 to 2 ^ 30 `round_two` gives the least power of two that is not below `x`; in particular it
-- leaves a power of two as it is.
pub round_two-least : (k x : ℕ) → k < 30 → 2 ^ k < x → x ≤ 2 ^ suc k → round_two x ≡ 2 ^ suc k
unfolding round_two
round_two-least k x k_fits low high =
    let double = pow-suc 2 k in
    let small = pow-le-pow_right {n = 2} (omega arith) {i = suc k} {j = 30} (omega arith) in
    let some_bit = pow-le-pow_right {n = 2} (omega arith) {i = 0} {j = k} (omega arith) in
    rw (below_lem x (omega arith) (omega arith))
      (ground (arith, at_power k x low high, keep_highest-top x k x (omega arith) (omega arith)))

-- The four bytes of a number, highest first.
word : ℕ → ℕ → ℕ → ℕ → ℕ
word a b c d = a * 2 ^ 24 + b * 2 ^ 16 + c * 2 ^ 8 + d

four_bytes :
    (a b c d : ℕ)
    → b < 256
    → c < 256
    → d < 256
    → bit_or (bit_or (bit_or (a * 2 ^ 24) (b * 2 ^ 16)) (c * 2 ^ 8)) d ≡ word a b c d
unfolding word
four_bytes a b c d hb hc hd =
    rw
      (
        bit_or_field 24 a (b * 2 ^ 16) (omega arith),
        one,
        bit_or_field 16 (a * 256 + b) (c * 2 ^ 8) (omega arith),
        two,
        bit_or_field 8 (a * 65536 + b * 256 + c) d (omega arith),
      )
      (omega arith)
  where
    one : a * 2 ^ 24 + b * 2 ^ 16 ≡ (a * 256 + b) * 2 ^ 16
    one = omega arith

    two : (a * 256 + b) * 2 ^ 16 + c * 2 ^ 8 ≡ (a * 65536 + b * 256 + c) * 2 ^ 8
    two = omega arith

-- A mask of one byte that is shifted cuts that byte out.
bit_and_shifted : (k q r : ℕ) → r < 2 ^ k → bit_and (q * 2 ^ k + r) (255 * 2 ^ k) ≡ q % 256 * 2 ^ k
bit_and_shifted k q r h = bit_and_field k q r 255 h ∙ ap (λ t. t * 2 ^ k) (bit_and_byte q)

reverse32_lem :
    (x : ℕ)
    → x < 2 ^ 32
    → reverse32 x ≡ word (x % 256) (x / 256 % 256) (x / 65536 % 256) (x / 16777216)
unfolding reverse32
reverse32_lem x h =
    rw (first, second, third)
      (four_bytes (x % 256) (x / 256 % 256) (x / 65536 % 256) (x / 16777216) (omega arith)
        (omega arith) (omega arith))
  where
    first : u32 (x <<< 24) ≡ x % 256 * 2 ^ 24
    first = omega arith

    second : bit_and (u32 (x <<< 8)) 0x00ff0000 ≡ x / 256 % 256 * 2 ^ 16
    second =
        let split = bit_and_shifted 16 (x / 256 % 65536) (x % 256 * 256) (omega arith) in
        ground (arith, split)

    third : bit_and (x >>> 8) 0x0000ff00 ≡ x / 65536 % 256 * 2 ^ 8
    third =
        let split = bit_and_shifted 8 (x / 65536) (x / 256 % 256) (omega arith) in
        ground (arith, split)

-- `reverse32` reverses the order of the bytes in memory, and doing it twice gives the number back.
reverse32-bytes :
    (x : ℕ) → x < 2 ^ 32 → (le32 (reverse32 x) ≡ be32 x) × (reverse32 (reverse32 x) ≡ x)
unfolding word
reverse32-bytes x h =
    let once = reverse32_lem x h in
    let twice = reverse32_lem (reverse32 x) (omega (arith, once)) in
    (ground (arith, once), omega (arith, once, twice))
