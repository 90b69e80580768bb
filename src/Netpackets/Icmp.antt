-- ===== src/Netpackets/Icmp.antt =====
-- The ICMP echo packet of lib/netpackets/include/netpackets/icmp.h and src/send_icmp_echo.c.
use socketlab.Base.{ℕ, List, ◌∷◌, ◌++◌, le16, take, drop, get_or}
use socketlab.Netpackets.Ether.{word_at}

-- `icmp_hdr_t`
pub record IcmpHdr : Type 0 where
  pub type : ℕ
  pub code : ℕ
  pub checksum : ℕ

-- `icmp_echo_t`
pub record IcmpEcho : Type 0 where
  pub identifier : ℕ
  pub sequence : ℕ

-- `ping_packet_t`: 4 bytes, 4 bytes and 18 bytes.
pub record PingPacket : Type 0 where
  pub hdr : IcmpHdr
  pub echo : IcmpEcho
  pub payload : List ℕ

abbrev pub magic_len : ℕ
magic_len = 18

abbrev pub ping_packet_size : ℕ
ping_packet_size = 26

abbrev pub ping_bytes : PingPacket → List ℕ
ping_bytes p =
    p.hdr.type
    ∷ p.hdr.code
    ∷ (le16 p.hdr.checksum ++ (le16 p.echo.identifier ++ (le16 p.echo.sequence ++ p.payload)))

-- `memcpy(&packet, p, sizeof(ping_packet_t))`
unfoldable pub ping_of_bytes : List ℕ → PingPacket
ping_of_bytes p = record {
  hdr = record { type = get_or p 0 0; code = get_or p 1 0; checksum = word_at (drop 2 p) };
  echo = record { identifier = word_at (drop 4 p); sequence = word_at (drop 6 p) };
  payload = take magic_len (drop 8 p);
}
