-- ===== src/Netpackets/Checksum.antt =====
-- The RFC 1071 checksum, which lib/netpackets/src/ipv4.c (`ipv4_checksum`) and
-- src/send_icmp_echo.c (`icmp_checksum`) compute by the same statements.
pub mod Sum
pub mod Rfc1071
pub mod Verify
mod Tests
use socketlab.Base.{
  ℕ, zero, suc, ◌+◌, ◌-◌, ◌^◌, List, [], ◌∷◌, Option, none, some, u16, u32, ◌<<<◌, ◌>>>◌, bit_and,
}

-- The loop, with `len` bytes to go from the pointer on; `none` is a read past the block.
unfoldable pub add_words : ℕ → List ℕ → ℕ → Option ℕ
add_words zero p sum = some sum
add_words (suc zero) [] sum = none
add_words (suc zero) (a ∷ p) sum = some (u32 (sum + a))
add_words (suc (suc len)) [] sum = none
add_words (suc (suc len)) (a ∷ []) sum = none
add_words (suc (suc len)) (a ∷ b ∷ p) sum = add_words len p (u32 (sum + ((a <<< 8) + b)))

-- `sum = (sum >> 16) + (sum & 0xffff)`
unfoldable pub fold_carry : ℕ → ℕ
fold_carry sum = u32 ((sum >>> 16) + bit_and sum 0xffff)

-- `sum += (sum >> 16)`
unfoldable pub add_carry : ℕ → ℕ
add_carry sum = u32 (sum + (sum >>> 16))

-- `result = ~sum`, cut to 16 bits.
unfoldable pub complement : ℕ → ℕ
complement sum = u16 (2 ^ 32 - 1 - sum)

unfoldable pub finish : ℕ → ℕ
unfolding fold_carry add_carry complement
finish sum = complement (add_carry (fold_carry sum))

-- `ipv4_checksum(data, len)`, where `len` is a `uint16_t`.
unfoldable pub ipv4_checksum : List ℕ → ℕ → Option ℕ
unfolding add_words finish
ipv4_checksum data_bytes len = elim (add_words (u16 len) data_bytes 0) [
  | none ↦ none
  | some sum ↦ some (finish sum)
]

-- `icmp_checksum(data, len)`, where `len` is a `size_t`.
unfoldable pub icmp_checksum : List ℕ → ℕ → Option ℕ
unfolding add_words finish
icmp_checksum data_bytes len = elim (add_words len data_bytes 0) [
  | none ↦ none
  | some sum ↦ some (finish sum)
]
