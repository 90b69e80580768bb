-- ===== src/Netpackets/Ipv4/Valid.antt =====
-- Whether a receiver accepts the checksum of a header that `pack_ipv4_hdr` has filled.
use socketlab.Base.{
  ℕ, ◌+◌, ◌-◌, ◌*◌, ◌/◌, ◌%◌, ◌^◌, ◌<◌, ◌≡◌, ◌↔◌, refl, sym, List, [], ◌∷◌, ◌++◌, Option, none,
  some, be16, arith, htons, le16, le32,
}
use mathlib.Core.Path.{subst}
use socketlab.Netpackets.Checksum.{ipv4_checksum}
use socketlab.Netpackets.Checksum.Sum.{ones_sum, word_sum}
use socketlab.Netpackets.Checksum.Verify.{block_checksum, swapped_verifies, checksum_verifies}
use socketlab.Netpackets.Ipv4.{
  Ipv4Hdr, ipv4_hdr_size, ipv4_bytes, before_checksum, after_checksum, unchecked, pack_ipv4_hdr,
}
use socketlab.Netpackets.Ipv4.Layout.{IsHdr, before-IsByte, after-IsByte}

pub unchecked-IsHdr :
    (pid src dst protocol data_len : ℕ)
    → src < 2 ^ 32
    → dst < 2 ^ 32
    → IsHdr (unchecked pid src dst protocol data_len)
unfolding unchecked htons
unchecked-IsHdr pid src dst protocol data_len s d = omega arith

-- The header checks, as a receiver computes it over the 20 bytes.
abbrev pub Accepted : Ipv4Hdr → Type 0
Accepted h = ipv4_checksum (ipv4_bytes h) ipv4_hdr_size ≡ some 0

-- The checksum of a header with the field at 0: a 16-bit number.
pub header_checksum :
    {h : Ipv4Hdr}
    → IsHdr h
    → (c : ℕ) × (ipv4_checksum (ipv4_bytes (record h { checksum = 0 })) ipv4_hdr_size ≡ some c)
      × (c < 2 ^ 16)
header_checksum {h} v = (
  65535 - ones_sum (word_sum (before_checksum h) + word_sum (after_checksum h) + (0 * 256 + 0)),
  block_checksum 5 (before_checksum h) (after_checksum h) refl (before-IsByte v) (after-IsByte h)
      (omega arith) 0 0 (omega arith) (omega arith),
  omega arith,
)

-- The same with the two bytes of the checksum field given.
abbrev AcceptedWith : Ipv4Hdr → List ℕ → Type 0
AcceptedWith h field =
    ipv4_checksum (before_checksum h ++ (field ++ after_checksum h)) ipv4_hdr_size ≡ some 0

htons_bytes : (c : ℕ) → c < 2 ^ 16 → le16 (htons c) ≡ c / 256 ∷ c % 256 ∷ []
unfolding htons
htons_bytes c fits = ground arith

high_byte : (c : ℕ) → c < 2 ^ 16 → le16 c ≡ c % 256 ∷ c / 256 ∷ []
high_byte c fits = ground arith

-- Stored in network byte order, that checksum makes the header check.
pub stored_be :
    {h : Ipv4Hdr} (c : ℕ)
    → IsHdr h
    → c < 2 ^ 16
    → ipv4_checksum (ipv4_bytes (record h { checksum = 0 })) ipv4_hdr_size ≡ some c
    → Accepted (record h { checksum = htons c })
stored_be {h} c v fits e = subst (AcceptedWith h) (sym (htons_bytes c fits)) (
    checksum_verifies 5 (before_checksum h) (after_checksum h) refl (before-IsByte v)
      (after-IsByte h) (omega arith) e)

-- Stored in the host's byte order it does so only if its two bytes are the same.
pub stored_le :
    {h : Ipv4Hdr} (c : ℕ)
    → IsHdr h
    → 0 < h.version
    → c < 2 ^ 16
    → ipv4_checksum (ipv4_bytes (record h { checksum = 0 })) ipv4_hdr_size ≡ some c
    → Accepted (record h { checksum = c }) ↔ (c / 256 ≡ c % 256)
stored_le {h} c v p fits e =
    subst (λ w. AcceptedWith h w ↔ (c / 256 ≡ c % 256)) (sym (high_byte c fits))
      (swapped_verifies 5 (before_checksum h) (after_checksum h) refl (before-IsByte v)
        (after-IsByte h) (omega arith) (omega arith) e)

-- `pack_ipv4_hdr` always returns a header. The checksum `c` that it computes makes the header check
-- in network byte order. It stores `c` in the host's byte order, and then a receiver accepts the
-- header exactly when the two bytes of `c` are the same.
pub pack_ipv4_hdr-Accepted :
    (pid src dst protocol data_len : ℕ)
    → src < 2 ^ 32
    → dst < 2 ^ 32
    → (h : Ipv4Hdr) × (pack_ipv4_hdr pid src dst protocol data_len ≡ some h)
      × Accepted (record h { checksum = htons h.checksum })
      × (Accepted h ↔ (h.checksum / 256 ≡ h.checksum % 256))
unfolding pack_ipv4_hdr
pack_ipv4_hdr-Accepted pid src dst protocol data_len s d =
    let v = unchecked-IsHdr pid src dst protocol data_len s d in
    let (c, e, fits) = header_checksum v in
    (
      record (unchecked pid src dst protocol data_len) { checksum = c },
      rw (e, pack_ipv4_hdr),
      stored_be c v fits e,
      stored_le c v (omega arith) fits e,
    )

filled :
    (o : Option ℕ) (u h : Ipv4Hdr)
    → elim o [ none ↦ none | some sum ↦ some (record u { checksum = sum }) ] ≡ some h
    → h ≡ record u { checksum = h.checksum }
filled none u h e = cc
filled (some c) u h e = ground arith

-- The other bytes that it fills in: version 4 and five words, the total length, the process id, the
-- don't-fragment flag, 64 hops and the protocol, in network byte order, and the addresses.
pack_ipv4_wire :
    (pid src dst protocol data_len : ℕ) {h : Ipv4Hdr}
    → protocol < 256
    → data_len + ipv4_hdr_size < 2 ^ 16
    → pack_ipv4_hdr pid src dst protocol data_len ≡ some h
    → (before_checksum h
        ≡ 0x45 ∷ 0 ∷ (be16 (data_len + 20) ++ (be16 pid ++ (0x40 ∷ 0 ∷ 64 ∷ protocol ∷ []))))
      × (after_checksum h ≡ le32 src ++ le32 dst)
unfolding pack_ipv4_hdr htons
pack_ipv4_wire pid src dst protocol data_len {h} p l e =
    subst Wire (sym (filled (ipv4_checksum (ipv4_bytes u) ipv4_hdr_size) u h e)) (ground arith)
  where
    u : Ipv4Hdr
    u = unchecked pid src dst protocol data_len

    Wire : Ipv4Hdr → Type 0
    Wire k =
        (before_checksum k
          ≡ 0x45 ∷ 0 ∷ (be16 (data_len + 20) ++ (be16 pid ++ (0x40 ∷ 0 ∷ 64 ∷ protocol ∷ []))))
        × (after_checksum k ≡ le32 src ++ le32 dst)
