-- ===== src/Ping/Wire.antt =====
-- The request of ping.
use socketlab.Base.{
  ℕ, ◌+◌, ◌-◌, ◌*◌, ◌/◌, ◌%◌, ◌^◌, ◌<◌, ◌≡◌, refl, sym, ap, ◌∙◌, List, [], ◌∷◌, ◌++◌, some, arith,
  length, All, IsByte, htons, be16,
}
use socketlab.Base.Bits.{bit_and_half}
use socketlab.Netpackets.Checksum.{ipv4_checksum, icmp_checksum}
use socketlab.Netpackets.Checksum.Sum.{checksum_lem, ones_sum, word_sum}
use socketlab.Netpackets.Checksum.Verify.{block_checksum, checksum_verifies}
use socketlab.Netpackets.Icmp.{PingPacket, ping_bytes, ping_packet_size}
use socketlab.Ping.{echo_request, bare_request, magic_str}

-- The bytes behind the checksum: identifier, sequence number and payload.
abbrev pub behind : ℕ → ℕ → List ℕ
behind pid seq = be16 (pid % 65536) ++ (be16 (seq % 65536) ++ magic_str)

bare_bytes : (pid seq : ℕ) → ping_bytes (bare_request pid seq) ≡ 8 ∷ 0 ∷ (0 ∷ 0 ∷ behind pid seq)
unfolding bare_request htons
bare_bytes pid seq = ground (arith, bit_and_half pid)

same_checksum :
    (p : List ℕ)
    → All IsByte p
    → length p < 2 ^ 16
    → icmp_checksum p (length p) ≡ ipv4_checksum p (length p)
same_checksum p h short = let c = checksum_lem p h short in c.1 ∙ sym c.0

behind-IsByte : (pid seq : ℕ) → All IsByte (behind pid seq)
behind-IsByte pid seq = omega arith

-- The request with a checksum.
checksummed : ℕ → ℕ → ℕ → PingPacket
checksummed pid seq c = record (bare_request pid seq) {
  hdr = record (bare_request pid seq).hdr { checksum = htons c };
}

checksummed_bytes :
    (pid seq c : ℕ)
    → c < 2 ^ 16
    → ping_bytes (checksummed pid seq c) ≡ 8 ∷ 0 ∷ (c / 256 ∷ c % 256 ∷ behind pid seq)
unfolding checksummed bare_request htons
checksummed_bytes pid seq c h = ground (arith, bit_and_half pid)

echo_request_lem :
    (pid seq c : ℕ)
    → icmp_checksum (ping_bytes (bare_request pid seq)) ping_packet_size ≡ some c
    → echo_request pid seq ≡ some (checksummed pid seq c)
unfolding echo_request checksummed
echo_request_lem pid seq c e = rw (echo_request, e) refl

-- The request always has a checksum, which makes the 26 bytes of the request check. On the wire they
-- are type 8, code 0, the checksum, the low half of the process id, the sequence number and the
-- magic text, in network byte order.
pub echo_request-checks :
    (pid seq : ℕ)
    → (p : PingPacket) × (c : ℕ) × (echo_request pid seq ≡ some p)
      × (ping_bytes p ≡ 8 ∷ 0 ∷ (c / 256 ∷ c % 256 ∷ behind pid seq))
      × (icmp_checksum (ping_bytes p) ping_packet_size ≡ some 0)
echo_request-checks pid seq = (
  checksummed pid seq c,
  c,
  echo_request_lem pid seq c (ap (λ b. icmp_checksum b 26) (bare_bytes pid seq) ∙ computed),
  wire,
  ap (λ b. icmp_checksum b 26) wire ∙ checks,
)
  where
    rest : List ℕ
    rest = behind pid seq

    rest-bytes : All IsByte rest
    rest-bytes = behind-IsByte pid seq

    c : ℕ
    c = 65535 - ones_sum (word_sum (8 ∷ 0 ∷ []) + word_sum rest + (0 * 256 + 0))

    with_zero : ipv4_checksum (8 ∷ 0 ∷ (0 ∷ 0 ∷ rest)) 26 ≡ some c
    with_zero =
        block_checksum 1 (8 ∷ 0 ∷ []) rest refl (omega arith) rest-bytes (omega arith) 0 0
          (omega arith) (omega arith)

    computed : icmp_checksum (8 ∷ 0 ∷ (0 ∷ 0 ∷ rest)) 26 ≡ some c
    computed = same_checksum (8 ∷ 0 ∷ (0 ∷ 0 ∷ rest)) (omega arith) (omega arith) ∙ with_zero

    checks : icmp_checksum (8 ∷ 0 ∷ (c / 256 ∷ c % 256 ∷ rest)) 26 ≡ some 0
    checks =
        same_checksum (8 ∷ 0 ∷ (c / 256 ∷ c % 256 ∷ rest)) (omega arith) (omega arith)
        ∙ checksum_verifies 1 (8 ∷ 0 ∷ []) rest refl (omega arith) rest-bytes (omega arith)
            with_zero

    wire : ping_bytes (checksummed pid seq c) ≡ 8 ∷ 0 ∷ (c / 256 ∷ c % 256 ∷ rest)
    wire = checksummed_bytes pid seq c (omega arith)
