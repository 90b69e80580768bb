-- ===== src/Netpackets/Checksum/Sum.antt =====
-- The loop computes the plain sum of the words, and the last steps its one's complement.
use socketlab.Base.{
  ℕ, ◌+◌, ◌-◌, ◌*◌, ◌/◌, ◌%◌, ◌^◌, ◌≤◌, ◌<◌, ◌≡◌, ◌↔◌, ap, ◌∙◌, List, [], ◌∷◌, some, u16, u32,
  ◌<<<◌, arith, length, All, IsByte, if◌then◌else◌, ◌==◌,
}
use native.Mathlib.Nat.{zero-add, mod-eq_of_lt}
use socketlab.Base.Bits.{bit_and_half}
use socketlab.Netpackets.Checksum.{
  add_words, fold_carry, add_carry, complement, finish, ipv4_checksum, icmp_checksum,
}

-- The bytes as big-endian words, added without a limit; a last odd byte counts as itself.
abbrev pub word_sum : List ℕ → ℕ
word_sum [] = 0
word_sum (a ∷ []) = a
word_sum (a ∷ b ∷ p) = a * 256 + b + word_sum p

pub word_sum-le : (p : List ℕ) → All IsByte p → 2 * word_sum p ≤ 65535 * (length p + 1)
word_sum-le [] h = omega arith
word_sum-le (a ∷ []) h = omega arith
word_sum-le (a ∷ b ∷ p) h = omega (arith, word_sum-le p h.1.1)

-- The `uint32_t` sum of at most 65535 bytes does not wrap.
pub add_words-word_sum :
    (p : List ℕ) (sum : ℕ)
    → sum + word_sum p < 2 ^ 32
    → add_words (length p) p sum ≡ some (sum + word_sum p)
unfolding add_words
add_words-word_sum [] sum h = ap some (omega arith)
add_words-word_sum (a ∷ []) sum h = ap some (omega arith)
add_words-word_sum (a ∷ b ∷ p) sum h =
    rw no_wrap (add_words-word_sum p (sum + (a * 256 + b)) (omega arith) ∙ ap some (omega arith))
  where
    no_wrap : u32 (sum + ((a <<< 8) + b)) ≡ sum + (a * 256 + b)
    no_wrap = omega arith

-- The one's complement sum: the remainder by 65535, but 65535 in place of 0 for a sum that is not 0.
abbrev pub ones_sum : ℕ → ℕ
ones_sum s = if s == 0 then 0 else if s % 65535 == 0 then 65535 else s % 65535

pub finish_lem : (s : ℕ) → s < 2 ^ 31 → finish s ≡ 65535 - ones_sum s
unfolding finish fold_carry add_carry complement
finish_lem s h = ground (arith, bit_and_half s)

-- What is added to a sum to reach a multiple of 65535 makes the checksum 0.
pub ones_sum_cancel : (s : ℕ) → ones_sum (s + (65535 - ones_sum s)) ≡ 65535
ones_sum_cancel s = ground arith

-- With the bytes of the checksum swapped this holds only if they are the same.
pub ones_sum_swapped :
    (s c : ℕ)
    → 0 < s
    → c ≡ 65535 - ones_sum s
    → (ones_sum (s + (c % 256 * 256 + c / 256)) ≡ 65535) ↔ (c / 256 ≡ c % 256)
ones_sum_swapped s c p e = (λ h. ground arith, λ h. ground arith)

pub ones_sum_detects :
    (s v w : ℕ) → v < 65535 → w < 65535 → ones_sum (s + v) ≡ ones_sum (s + w) → v ≡ w
ones_sum_detects s v w hv hw e = ground arith

pub ones_sum-le : (s : ℕ) → ones_sum s ≤ 65535
ones_sum-le s = ground arith

-- On at most 65535 bytes both functions read inside the block, and give the complement of the one's
-- complement sum of its words.
pub checksum_lem :
    (p : List ℕ)
    → All IsByte p
    → length p < 2 ^ 16
    → (ipv4_checksum p (length p) ≡ some (65535 - ones_sum (word_sum p)))
      × (icmp_checksum p (length p) ≡ some (65535 - ones_sum (word_sum p)))
unfolding ipv4_checksum icmp_checksum
checksum_lem p bytes short =
    (rw (wrapped, ipv4_checksum) (ap some last), rw (total, icmp_checksum) (ap some last))
  where
    last : finish (word_sum p) ≡ 65535 - ones_sum (word_sum p)
    last = finish_lem (word_sum p) (omega (arith, word_sum-le p bytes))

    total : add_words (length p) p 0 ≡ some (word_sum p)
    total =
        add_words-word_sum p 0 (omega (arith, word_sum-le p bytes))
        ∙ ap some (zero-add (word_sum p))

    wrapped : add_words (u16 (length p)) p 0 ≡ some (word_sum p)
    wrapped = rw (mod-eq_of_lt short) total
