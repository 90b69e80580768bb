-- ===== src/Base/Bits/Bytes.antt =====
-- `&` and `|` byte by byte, so that they commute with `htonl`; and masks of ones.
use Prim.Native.Nat.{ℕ, zero, suc, ◌+◌, ◌-◌, ◌*◌, ◌/◌, ◌%◌, ◌^◌, ◌<◌, bit_and, bit_or}
use mathlib.Core.Path.{◌≡◌, sym, ap, ap₂, ◌∙◌}
use native.Mathlib.Omega.{arith}
use native.Mathlib.Nat.{pow-suc}
use socketlab.Base.Word.{htonl}
use socketlab.Base.Bits.{bit_and_digit, bit_or_digit, bit_and-zero, double_pow}

-- The lowest `k` bits and those above them are apart.
bit_and_fields :
    (k a b r s : ℕ)
    → r < 2 ^ k
    → s < 2 ^ k
    → bit_and (a * 2 ^ k + r) (b * 2 ^ k + s) ≡ bit_and a b * 2 ^ k + bit_and r s
bit_and_fields zero a b r s hr hs = ground (arith)
bit_and_fields (suc k) a b r s hr hs = ground (
  arith,
  bit_and_digit (a * 2 ^ suc k + r) (b * 2 ^ suc k + s),
  bit_and_digit r s,
  double_pow a k,
  double_pow b k,
  double_pow (bit_and a b) k,
  pow-suc 2 k,
  bit_and_fields k a b (r / 2) (s / 2),
)

bit_or_fields :
    (k a b r s : ℕ)
    → r < 2 ^ k
    → s < 2 ^ k
    → bit_or (a * 2 ^ k + r) (b * 2 ^ k + s) ≡ bit_or a b * 2 ^ k + bit_or r s
bit_or_fields zero a b r s hr hs = ground (arith)
bit_or_fields (suc k) a b r s hr hs = ground (
  arith,
  bit_or_digit (a * 2 ^ suc k + r) (b * 2 ^ suc k + s),
  bit_or_digit r s,
  double_pow a k,
  double_pow b k,
  double_pow (bit_or a b) k,
  pow-suc 2 k,
  bit_or_fields k a b (r / 2) (s / 2),
)

bit_and-lt : (k r s : ℕ) → r < 2 ^ k → s < 2 ^ k → bit_and r s < 2 ^ k
bit_and-lt zero r s hr hs = ground (arith)
bit_and-lt (suc k) r s hr hs =
    ground (arith, bit_and_digit r s, pow-suc 2 k, bit_and-lt k (r / 2) (s / 2))

bit_or-lt : (k r s : ℕ) → r < 2 ^ k → s < 2 ^ k → bit_or r s < 2 ^ k
bit_or-lt zero r s hr hs = ground (arith)
bit_or-lt (suc k) r s hr hs =
    ground (arith, bit_or_digit r s, pow-suc 2 k, bit_or-lt k (r / 2) (s / 2))

-- A mask of `n` ones keeps a number of `n` bits.
pub bit_and_ones : (n q : ℕ) → q < 2 ^ n → bit_and q (2 ^ n - 1) ≡ q
bit_and_ones zero q h = ground (arith, bit_and-zero q)
bit_and_ones (suc n) q h =
    ground (arith, bit_and_digit q (2 ^ suc n - 1), pow-suc 2 n, bit_and_ones n (q / 2))

-- Four bytes, highest first.
abbrev word : ℕ → ℕ → ℕ → ℕ → ℕ
word a b c d = ((a * 2 ^ 8 + b) * 2 ^ 8 + c) * 2 ^ 8 + d

htonl-word :
    (a b c d : ℕ) → a < 256 → b < 256 → c < 256 → d < 256 → htonl (word a b c d) ≡ word d c b a
unfolding htonl
htonl-word a b c d ha hb hc hd = omega arith

-- What `op` gives for two words, in terms of their bytes.
abbrev word_of : ℕ → ℕ
word_of n = word (n / 16777216) (n / 65536 % 256) (n / 256 % 256) (n % 256)

word_of_lem : (n : ℕ) → word_of n ≡ n
word_of_lem n = omega arith

htonl-word_of :
    (n : ℕ) → n < 2 ^ 32 → htonl n ≡ word (n % 256) (n / 256 % 256) (n / 65536 % 256) (n / 16777216)
unfolding htonl
htonl-word_of n h = omega arith

module _ (op : ℕ → ℕ → ℕ)
    (fields : (k a b r s : ℕ)
      → r < 2 ^ k
      → s < 2 ^ k
      → op (a * 2 ^ k + r) (b * 2 ^ k + s) ≡ op a b * 2 ^ k + op r s)
    (below : (k r s : ℕ) → r < 2 ^ k → s < 2 ^ k → op r s < 2 ^ k) where
  op-word :
      (a b c d a' b' c' d' : ℕ)
      → b < 256
      → c < 256
      → d < 256
      → b' < 256
      → c' < 256
      → d' < 256
      → op (word a b c d) (word a' b' c' d') ≡ word (op a a') (op b b') (op c c') (op d d')
  op-word a b c d a' b' c' d' hb hc hd hb' hc' hd' =
      fields 8 ((a * 2 ^ 8 + b) * 2 ^ 8 + c) ((a' * 2 ^ 8 + b') * 2 ^ 8 + c') d d' hd hd'
      ∙ ap (λ t. t * 2 ^ 8 + op d d')
          (fields 8 (a * 2 ^ 8 + b) (a' * 2 ^ 8 + b') c c' hc hc'
            ∙ ap (λ t. t * 2 ^ 8 + op c c') (fields 8 a a' b b' hb hb'))

  op-htonl : (x y : ℕ) → x < 2 ^ 32 → y < 2 ^ 32 → op (htonl x) (htonl y) ≡ htonl (op x y)
  op-htonl x y hx hy =
      ap₂ op (htonl-word_of x hx) (htonl-word_of y hy)
      ∙ op-word (x % 256) (x / 256 % 256) (x / 65536 % 256) (x / 16777216) (y % 256) (y / 256 % 256)
          (y / 65536 % 256) (y / 16777216) (omega arith) (omega arith) (omega arith) (omega arith)
          (omega arith) (omega arith)
      ∙ sym (
          ap htonl (
            sym (ap₂ op (word_of_lem x) (word_of_lem y))
            ∙ op-word (x / 16777216) (x / 65536 % 256) (x / 256 % 256) (x % 256) (y / 16777216)
                (y / 65536 % 256) (y / 256 % 256) (y % 256) (omega arith) (omega arith)
                (omega arith) (omega arith) (omega arith) (omega arith))
          ∙ htonl-word (op (x / 16777216) (y / 16777216)) (op (x / 65536 % 256) (y / 65536 % 256))
              (op (x / 256 % 256) (y / 256 % 256)) (op (x % 256) (y % 256))
              (below 8 (x / 16777216) (y / 16777216) (omega arith) (omega arith))
              (below 8 (x / 65536 % 256) (y / 65536 % 256) (omega arith) (omega arith))
              (below 8 (x / 256 % 256) (y / 256 % 256) (omega arith) (omega arith))
              (below 8 (x % 256) (y % 256) (omega arith) (omega arith)))

pub bit_and-htonl :
    (x y : ℕ) → x < 2 ^ 32 → y < 2 ^ 32 → bit_and (htonl x) (htonl y) ≡ htonl (bit_and x y)
bit_and-htonl x y hx hy = op-htonl bit_and bit_and_fields bit_and-lt x y hx hy

pub bit_or-htonl :
    (x y : ℕ) → x < 2 ^ 32 → y < 2 ^ 32 → bit_or (htonl x) (htonl y) ≡ htonl (bit_or x y)
bit_or-htonl x y hx hy = op-htonl bit_or bit_or_fields bit_or-lt x y hx hy
