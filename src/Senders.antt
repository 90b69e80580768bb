-- ===== src/Senders.antt =====
-- src/send_ipv4.c: an IPv4 packet in an Ethernet frame.
pub mod Header
pub mod Vlan
pub mod Ether
use socketlab.Base.{
  ℕ, ◌+◌, ◌/◌, ◌%◌, ◌^◌, List, [], ◌∷◌, ◌++◌, Option, none, some, false, bit_or, htons, u16,
  replicate, if◌then◌else◌,
}
use mathlib.Core.Option
use socketlab.Base.Int.{ℤ, pos, negsuc, is_neg, bits32}
use socketlab.Sys.{Sys, Call, getpid, pure, fault, call, ◌>>=◌, when◌run◌otherwise◌}
use socketlab.Netpackets.Ether.{ether_bytes, pack_ether_hdr}
use socketlab.Netpackets.Checksum.{ipv4_checksum}
use socketlab.Netpackets.Ipv4.{Ipv4Hdr, ipv4_hdr_size, df, ipv4_bytes, long_at}
use socketlab.Net.SockIf.{get_itf_ipaddr, get_itf_hwaddr, send_frame}

-- ETH_TYPE_IPV4
abbrev pub eth_type_ipv4 : ℕ
eth_type_ipv4 = 0x0800

-- The header before its checksum is computed; `frag` is what that field held.
unfoldable pub plain_ip4_hdr : ℕ → ℕ → ℕ → ℕ → ℕ → ℕ → Ipv4Hdr
plain_ip4_hdr frag pid hdr_len data_len src dst = record {
  ihl = hdr_len / 4 % 16;
  version = 4;
  tos = 0;
  tot_len = htons (u16 (hdr_len + data_len));
  id = htons (u16 pid);
  frag = htons (u16 (bit_or frag df));
  ttl = 64;
  protocol = 40;
  checksum = 0;
  src_addr = src;
  dst_addr = dst;
}

-- `none` is a read past the header.
unfoldable pub config_ip4_hdr : ℕ → ℕ → ℕ → ℕ → ℕ → ℕ → Option Ipv4Hdr
unfolding plain_ip4_hdr
config_ip4_hdr frag pid hdr_len data_len src dst =
    let h = plain_ip4_hdr frag pid hdr_len data_len src dst in
    elim (ipv4_checksum (ipv4_bytes h) ipv4_hdr_size) [
      | none ↦ none
      | some sum ↦ some (record h { checksum = htons sum })
    ]

-- "eth0", the destination's MAC and address, and "hello world" in an array of 26 bytes.
abbrev pub itf : List ℕ
itf = 101 ∷ 116 ∷ 104 ∷ 48 ∷ []

abbrev pub dst_mac : List ℕ
dst_mac = 0x00 ∷ 0x11 ∷ 0x22 ∷ 0x33 ∷ 0x44 ∷ 0x55 ∷ []

abbrev pub dst_ip : ℕ
dst_ip = long_at (192 ∷ 168 ∷ 5 ∷ 2 ∷ [])

abbrev pub payload : List ℕ
payload = 104 ∷ 101 ∷ 108 ∷ 108 ∷ 111 ∷ 32 ∷ 119 ∷ 111 ∷ 114 ∷ 108 ∷ 100 ∷ replicate 15 0

-- The end of `main`: the frame, if there is a header, is sent.
unfoldable pub send_ip4 : List ℕ → Option Ipv4Hdr → Sys ℤ
send_ip4 src_mac none = fault
send_ip4 src_mac (some h) = do
  r ←
      send_frame itf
        (ether_bytes (pack_ether_hdr dst_mac src_mac eth_type_ipv4) ++ (ipv4_bytes h ++ payload))
  when is_neg r run pure (negsuc 0) otherwise pure (pos 0)

-- `main`. The results of the lookups are not looked at; the variables are zero before.
unfoldable pub send_ipv4 : Sys ℤ
send_ipv4 = do
  (ip_code, ip) ← get_itf_ipaddr itf false
  (mac_code, mac) ← get_itf_hwaddr itf false
  pid ← call getpid
  send_ip4 (Option.get_or mac (replicate 6 0)) (
      config_ip4_hdr 0 (bits32 pid.ret) ipv4_hdr_size 26
        (long_at (Option.get_or ip (replicate 4 0))) dst_ip)
