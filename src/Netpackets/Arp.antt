-- ===== src/Netpackets/Arp.antt =====
-- The ARP message of lib/netpackets/include/netpackets/arp.h, and `pack_arp_msg` of
-- lib/netpackets/src/arp.c. (`arping` and its kin are in Net/Arping.)
pub mod Wire
mod Tests
use socketlab.Base.{ℕ, List, ◌∷◌, [], ◌++◌, htons, le16, take, drop, replicate, get_or}
use socketlab.Netpackets.Ether.{
  EtherHdr, ether_bytes, ether_of_bytes, pack_ether_hdr, word_at, mac_byte_len,
}

-- `arp_msg_t`, with 18 bytes of padding.
pub record ArpMsg : Type 0 where
  pub eth_hdr : EtherHdr
  pub hardware_type : ℕ
  pub protocol_type : ℕ
  pub hardware_size : ℕ
  pub protocol_size : ℕ
  pub opcode : ℕ
  pub sender_mac : List ℕ
  pub sender_ip : List ℕ
  pub target_mac : List ℕ
  pub target_ip : List ℕ
  pub padding : List ℕ

-- ETH_P_ARP, ETH_P_IP, ARPOP_REQUEST, ARPOP_REPLY and IPV4_BYTE_LEN
abbrev pub eth_p_arp : ℕ
eth_p_arp = 0x0806

abbrev pub eth_p_ip : ℕ
eth_p_ip = 0x0800

abbrev pub arp_request : ℕ
arp_request = 1

abbrev pub arp_reply : ℕ
arp_reply = 2

abbrev pub ipv4_byte_len : ℕ
ipv4_byte_len = 4

-- The packed structure in memory.
unfoldable pub arp_bytes : ArpMsg → List ℕ
arp_bytes m =
    ether_bytes m.eth_hdr
    ++ (le16 m.hardware_type
        ++ (le16 m.protocol_type
            ++ (m.hardware_size
                ∷ m.protocol_size
                ∷ (le16 m.opcode
                    ++ (m.sender_mac
                        ++ (m.sender_ip ++ (m.target_mac ++ (m.target_ip ++ m.padding))))))))

-- Received bytes, read as the structure.
unfoldable pub arp_of_bytes : List ℕ → ArpMsg
arp_of_bytes p = record {
  eth_hdr = ether_of_bytes p;
  hardware_type = word_at (drop 14 p);
  protocol_type = word_at (drop 16 p);
  hardware_size = get_or p 18 0;
  protocol_size = get_or p 19 0;
  opcode = word_at (drop 20 p);
  sender_mac = take 6 (drop 22 p);
  sender_ip = take 4 (drop 28 p);
  target_mac = take 6 (drop 32 p);
  target_ip = take 4 (drop 38 p);
  padding = take 18 (drop 42 p);
}

abbrev pub broadcast_mac : List ℕ
broadcast_mac = replicate 6 0xff

-- `pack_arp_msg`: a request from `sender_mac`, `sender_ip` for `target_ip`.
unfoldable pub pack_arp_msg : List ℕ → List ℕ → List ℕ → ArpMsg
pack_arp_msg sender_mac sender_ip target_ip = record {
  eth_hdr = pack_ether_hdr broadcast_mac sender_mac eth_p_arp;
  hardware_type = htons 0x01;
  protocol_type = htons eth_p_ip;
  hardware_size = mac_byte_len;
  protocol_size = ipv4_byte_len;
  opcode = htons arp_request;
  sender_mac = take 6 sender_mac;
  sender_ip = take 4 sender_ip;
  target_mac = replicate 6 0;
  target_ip = take 4 target_ip;
  padding = replicate 18 0;
}
