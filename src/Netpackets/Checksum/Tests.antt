-- ===== src/Netpackets/Checksum/Tests.antt =====
-- Checksums of concrete blocks.
use socketlab.Base.{ℕ, ◌≡◌, refl, List, [], ◌∷◌, ◌++◌, some, arith, All, IsByte}
use socketlab.Netpackets.Checksum.{
  add_words, fold_carry, add_carry, complement, finish, ipv4_checksum, icmp_checksum,
}
use socketlab.Netpackets.Checksum.Rfc1071.{checksum-rfc_sum}
use socketlab.Netpackets.Checksum.Verify.{checksum_verifies, checksum_detects}

abbrev pre : List ℕ
pre = 0x45 ∷ 0x00 ∷ 0xff ∷ 0xff ∷ []

abbrev post : List ℕ
post = 0x7f ∷ 0x01 ∷ 0x09 ∷ []

pre-bytes : All IsByte pre
pre-bytes = omega arith

post-bytes : All IsByte post
post-bytes = omega arith

-- The carries go round: 0x4500 + 0xffff + 0x7f01 + 0x09 is 0x1c409.
checksum_run : ipv4_checksum (pre ++ (0 ∷ 0 ∷ post)) 9 ≡ some (15349)
unfolding ipv4_checksum add_words finish fold_carry add_carry complement
checksum_run = refl

checksum-rfc_sum_example :
    (ipv4_checksum (1 ∷ 2 ∷ []) 2 ≡ some 0xfefd)
    × (icmp_checksum (1 ∷ 2 ∷ []) 2 ≡ some 0xfefd)
    × (ipv4_checksum (1 ∷ 2 ∷ 3 ∷ []) 3 ≡ some 0xfefa)
    × (icmp_checksum (1 ∷ 2 ∷ 3 ∷ []) 3 ≡ some 0xfefa)
checksum-rfc_sum_example =
    checksum-rfc_sum 1 3 (1 ∷ 2 ∷ []) (omega arith) (omega arith) (omega arith, (omega arith, tt))
      (omega arith)

checksum_verifies_example : ipv4_checksum (pre ++ (0x3b ∷ 0xf5 ∷ post)) 9 ≡ some 0
checksum_verifies_example =
    checksum_verifies 2 pre post refl pre-bytes post-bytes (omega arith) checksum_run

checksum_detects_example : ◌≡◌ {A = ℕ} 7 7
checksum_detects_example =
    checksum_detects 2 pre post refl pre-bytes post-bytes (omega arith) 7 7 (omega arith)
      (omega arith) refl
