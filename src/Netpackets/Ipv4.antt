-- ===== src/Netpackets/Ipv4.antt =====
-- The IPv4 header of lib/netpackets/include/netpackets/ipv4.h, and lib/netpackets/src/ipv4.c
-- (its checksum is in Checksum). A multi-byte field holds the number that the host reads in it.
pub mod Layout
pub mod Valid
mod Tests
use socketlab.Base.{
  ℕ, ◌+◌, ◌*◌, ◌/◌, ◌%◌, ◌^◌, List, [], ◌∷◌, ◌++◌, Option, none, some, htons, le16, le32, u8, u16,
  drop, get_or,
}
use socketlab.Netpackets.Ether.{word_at}
use socketlab.Netpackets.Checksum.{ipv4_checksum}

-- `ipv4_hdr_t`; `version` and `ihl` are bit-fields of four bits each.
pub record Ipv4Hdr : Type 0 where
  pub ihl : ℕ
  pub version : ℕ
  pub tos : ℕ
  pub tot_len : ℕ
  pub id : ℕ
  pub frag : ℕ
  pub ttl : ℕ
  pub protocol : ℕ
  pub checksum : ℕ
  pub src_addr : ℕ
  pub dst_addr : ℕ

-- `sizeof(ipv4_hdr_t)`
abbrev pub ipv4_hdr_size : ℕ
ipv4_hdr_size = 20

-- `DF`, don't fragment
abbrev pub df : ℕ
df = 0x4000

-- The packed structure in memory, on either side of the checksum.
abbrev pub before_checksum : Ipv4Hdr → List ℕ
before_checksum h =
    (h.version * 16 + h.ihl)
    ∷ h.tos
    ∷ (le16 h.tot_len ++ (le16 h.id ++ (le16 h.frag ++ (h.ttl ∷ h.protocol ∷ []))))

abbrev pub after_checksum : Ipv4Hdr → List ℕ
after_checksum h = le32 h.src_addr ++ le32 h.dst_addr

abbrev pub ipv4_bytes : Ipv4Hdr → List ℕ
ipv4_bytes h = before_checksum h ++ (le16 h.checksum ++ after_checksum h)

abbrev pub long_at : List ℕ → ℕ
long_at p = word_at p + word_at (drop 2 p) * 65536

-- `memcpy(&hdr, p, sizeof(ipv4_hdr_t))`
unfoldable pub ipv4_of_bytes : List ℕ → Ipv4Hdr
ipv4_of_bytes p = record {
  ihl = get_or p 0 0 % 16;
  version = get_or p 0 0 / 16;
  tos = get_or p 1 0;
  tot_len = word_at (drop 2 p);
  id = word_at (drop 4 p);
  frag = word_at (drop 6 p);
  ttl = get_or p 8 0;
  protocol = get_or p 9 0;
  checksum = word_at (drop 10 p);
  src_addr = long_at (drop 12 p);
  dst_addr = long_at (drop 16 p);
}

-- Both change the byte order of three fields, and leave `frag` and the addresses.
unfoldable pub ipv4_ntohs : Ipv4Hdr → Ipv4Hdr
ipv4_ntohs h = record h { tot_len = htons h.tot_len; id = htons h.id; checksum = htons h.checksum }

unfoldable pub ipv4_htons : Ipv4Hdr → Ipv4Hdr
ipv4_htons h = record h { tot_len = htons h.tot_len; id = htons h.id; checksum = htons h.checksum }

-- The header of `pack_ipv4_hdr` before the checksum is computed; `pid` is `getpid()`.
unfoldable pub unchecked : ℕ → ℕ → ℕ → ℕ → ℕ → Ipv4Hdr
unchecked pid src dst protocol data_len = record {
  ihl = ipv4_hdr_size / 4;
  version = 4;
  tos = 0;
  tot_len = htons (u16 (ipv4_hdr_size + data_len));
  id = htons (u16 pid);
  frag = htons df;
  ttl = 64;
  protocol = u8 protocol;
  checksum = 0;
  src_addr = src;
  dst_addr = dst;
}

-- `pack_ipv4_hdr`; `none` is a read past the header. The checksum is stored as it was computed.
unfoldable pub pack_ipv4_hdr : ℕ → ℕ → ℕ → ℕ → ℕ → Option Ipv4Hdr
unfolding unchecked
pack_ipv4_hdr pid src dst protocol data_len =
    let h = unchecked pid src dst protocol data_len in
    elim (ipv4_checksum (ipv4_bytes h) ipv4_hdr_size) [
      | none ↦ none
      | some sum ↦ some (record h { checksum = sum })
    ]
