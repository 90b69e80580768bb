-- ===== src/Netpackets/Checksum/Rfc1071.antt =====
-- The checksums of lib/netpackets/src/ipv4.c and src/send_icmp_echo.c, and that of RFC 1071, which both
-- sources name.
use socketlab.Base.{
  ℕ, suc, zero, ◌+◌, ◌-◌, ◌*◌, ◌^◌, ◌<◌, ◌≡◌, refl, ap, ◌∙◌, List, [], ◌∷◌, ◌++◌, some, arith,
  length, length-append, All, All-append, IsByte,
}
use socketlab.Netpackets.Checksum.{ipv4_checksum, icmp_checksum}
use socketlab.Netpackets.Checksum.Sum.{word_sum, ones_sum, checksum_lem}

-- The sum of RFC 1071: big-endian words, where a last odd byte is followed by a zero byte.
abbrev pub rfc_sum : List ℕ → ℕ
rfc_sum [] = 0
rfc_sum (a ∷ []) = a * 256
rfc_sum (a ∷ b ∷ p) = a * 256 + b + rfc_sum p

even-rfc_sum : (k : ℕ) (p : List ℕ) → length p ≡ 2 * k → word_sum p ≡ rfc_sum p
even-rfc_sum k [] e = refl
even-rfc_sum k (a ∷ []) e = absurd (omega arith)
even-rfc_sum zero (a ∷ b ∷ p) e = absurd (omega arith)
even-rfc_sum (suc k) (a ∷ b ∷ p) e = ap (λ s. a * 256 + b + s) (even-rfc_sum k p (omega arith))

-- The odd byte counts as if the zero stood before it.
odd-rfc_sum :
    (k : ℕ) (p : List ℕ) (c : ℕ)
    → length p ≡ 2 * k
    → word_sum (p ++ (c ∷ [])) ≡ rfc_sum (p ++ (0 ∷ c ∷ []))
odd-rfc_sum k [] c e = omega arith
odd-rfc_sum k (a ∷ []) c e = absurd (omega arith)
odd-rfc_sum zero (a ∷ b ∷ p) c e = absurd (omega arith)
odd-rfc_sum (suc k) (a ∷ b ∷ p) c e = ap (λ s. a * 256 + b + s) (odd-rfc_sum k p c (omega arith))

-- On an even number of bytes, fewer than 65535, both functions read inside the block and give the
-- checksum of RFC 1071. With one byte more they still do, but give the checksum of the block that has
-- a zero before its last byte, where RFC 1071 puts it behind.
pub checksum-rfc_sum :
    (k c : ℕ) (p : List ℕ)
    → length p ≡ 2 * k
    → 2 * k + 1 < 2 ^ 16
    → All IsByte p
    → c < 256
    → (ipv4_checksum p (length p) ≡ some (65535 - ones_sum (rfc_sum p)))
      × (icmp_checksum p (length p) ≡ some (65535 - ones_sum (rfc_sum p)))
      × (ipv4_checksum (p ++ (c ∷ [])) (length (p ++ (c ∷ [])))
          ≡ some (65535 - ones_sum (rfc_sum (p ++ (0 ∷ c ∷ [])))))
      × (icmp_checksum (p ++ (c ∷ [])) (length (p ++ (c ∷ [])))
          ≡ some (65535 - ones_sum (rfc_sum (p ++ (0 ∷ c ∷ [])))))
checksum-rfc_sum k c p even short bytes last =
    let (ipv4, icmp) = checksum_lem p bytes (omega arith) in
    let (ipv4_odd, icmp_odd) =
      checksum_lem (p ++ (c ∷ [])) (All-append IsByte p (c ∷ []) bytes (last, tt))
        (omega (arith, length-append p (c ∷ []))) in
    (ipv4 ∙ same, icmp ∙ same, ipv4_odd ∙ same_odd, icmp_odd ∙ same_odd)
  where
    same : some (65535 - ones_sum (word_sum p)) ≡ some (65535 - ones_sum (rfc_sum p))
    same = ap (λ s. some (65535 - ones_sum s)) (even-rfc_sum k p even)

    same_odd :
        some (65535 - ones_sum (word_sum (p ++ (c ∷ []))))
        ≡ some (65535 - ones_sum (rfc_sum (p ++ (0 ∷ c ∷ []))))
    same_odd = ap (λ s. some (65535 - ones_sum s)) (odd-rfc_sum k p c even)
