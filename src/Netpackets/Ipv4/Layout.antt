-- ===== src/Netpackets/Ipv4/Layout.antt =====
-- The IPv4 header as bytes.
use socketlab.Base.{ℕ, List, ◌++◌, ◌^◌, ◌<◌, ◌≡◌, arith, htons_invol, All, IsByte}
use socketlab.Netpackets.Ipv4.{
  Ipv4Hdr, ipv4_bytes, before_checksum, after_checksum, ipv4_of_bytes, ipv4_ntohs, ipv4_htons,
}

-- Every field is in its width.
pub record IsHdr (h : Ipv4Hdr) : Type 0 where
  pub ihl_fits : h.ihl < 16
  pub version_fits : h.version < 16
  pub tos_fits : h.tos < 256
  pub tot_len_fits : h.tot_len < 2 ^ 16
  pub id_fits : h.id < 2 ^ 16
  pub frag_fits : h.frag < 2 ^ 16
  pub ttl_fits : h.ttl < 256
  pub protocol_fits : h.protocol < 256
  pub checksum_fits : h.checksum < 2 ^ 16
  pub src_fits : h.src_addr < 2 ^ 32
  pub dst_fits : h.dst_addr < 2 ^ 32

-- Reading back the bytes of a header, whatever follows them, gives the header.
pub ipv4_of_bytes-ipv4_bytes :
    {h : Ipv4Hdr} (rest : List ℕ) → IsHdr h → ipv4_of_bytes (ipv4_bytes h ++ rest) ≡ h
unfolding ipv4_of_bytes
ipv4_of_bytes-ipv4_bytes {h} rest v = ground arith

-- The two changes of byte order undo each other.
ipv4_ntohs-ipv4_htons : {h : Ipv4Hdr} → IsHdr h → ipv4_ntohs (ipv4_htons h) ≡ h
unfolding ipv4_ntohs ipv4_htons
ipv4_ntohs-ipv4_htons {h} v =
    ground (arith, htons_invol h.tot_len, htons_invol h.id, htons_invol h.checksum)

-- The bytes before and after the checksum are bytes.
pub before-IsByte : {h : Ipv4Hdr} → IsHdr h → All IsByte (before_checksum h)
before-IsByte v = omega arith

pub after-IsByte : (h : Ipv4Hdr) → All IsByte (after_checksum h)
after-IsByte h = omega arith
