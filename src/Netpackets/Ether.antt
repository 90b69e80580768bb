-- ===== src/Netpackets/Ether.antt =====
-- The Ethernet header and frame of lib/netpackets/include/netpackets/ether.h, and
-- lib/netpackets/src/ether.c. A multi-byte field holds the number that the host reads in it.
pub mod Wire
use socketlab.Base.{
  ℕ, zero, suc, ◌+◌, ◌*◌, ◌/◌, ◌%◌, ◌^◌, ◌≤◌, ◌<◌, ◌≡◌, refl, List, [], ◌∷◌, ◌++◌, Option, none,
  some, arith, length, take, drop, replicate, All, IsByte, htons, le16, be16, leb, u16,
  if◌then◌else◌,
}

-- `ether_hdr_t`
pub record EtherHdr : Type 0 where
  pub dst_mac : List ℕ
  pub source_mac : List ℕ
  pub proto_type : ℕ

-- `sizeof(ether_hdr_t)`, MAC_BYTE_LEN and ETH_DATA_MAX_LEN
abbrev pub ether_hdr_size : ℕ
ether_hdr_size = 14

abbrev pub mac_byte_len : ℕ
mac_byte_len = 6

abbrev pub eth_data_max_len : ℕ
eth_data_max_len = 1500

-- The packed structure in memory, which is what is sent.
abbrev pub ether_bytes : EtherHdr → List ℕ
ether_bytes h = h.dst_mac ++ (h.source_mac ++ le16 h.proto_type)

-- A pointer to bytes that is read as a pointer to the structure.
abbrev pub word_at : List ℕ → ℕ
word_at (lo ∷ hi ∷ _) = lo + hi * 256
word_at _ = 0

unfoldable pub ether_of_bytes : List ℕ → EtherHdr
ether_of_bytes p = record {
  dst_mac = take 6 p;
  source_mac = take 6 (drop 6 p);
  proto_type = word_at (drop 12 p);
}

-- `pack_ether_hdr`: `memcpy` of six bytes from each address.
unfoldable pub pack_ether_hdr : List ℕ → List ℕ → ℕ → EtherHdr
pack_ether_hdr dst source proto = record {
  dst_mac = take 6 dst;
  source_mac = take 6 source;
  proto_type = htons (u16 proto);
}

-- `pack_ether_frame` into a frame with room for 1500 bytes of data: the bytes of the frame up to
-- the length that is returned, with that length; `none` is a copy past the end of the frame.
unfoldable pub pack_ether_frame : List ℕ → List ℕ → ℕ → List ℕ → Option (List ℕ × ℕ)
pack_ether_frame dst source proto payload =
    if leb (length payload) eth_data_max_len
    then some
        (ether_bytes (pack_ether_hdr dst source proto) ++ payload, length payload + ether_hdr_size)
    else none
