-- ===== src/Netpackets/Arp/Wire.antt =====
-- What `pack_arp_msg` puts on the wire.
use socketlab.Base.{
  ℕ, ◌≡◌, refl, List, [], ◌∷◌, ◌++◌, length, six_cases, four_cases, replicate, htons,
}
use socketlab.Netpackets.Ether.{pack_ether_hdr, ether_of_bytes}
use socketlab.Netpackets.Arp.{arp_bytes, arp_of_bytes, pack_arp_msg, broadcast_mac}

-- The 28 bytes of an ARP request, behind the Ethernet header.
abbrev pub request_bytes : List ℕ → List ℕ → List ℕ → List ℕ
request_bytes mac ip target =
    0x00 ∷ 0x01 ∷ 0x08 ∷ 0x00 ∷ 6 ∷ 4 ∷ 0x00 ∷ 0x01 ∷ (mac ++ (ip ++ (replicate 6 0 ++ target)))

abbrev Packed : List ℕ → List ℕ → List ℕ → Type 0
Packed mac ip target =
    (arp_bytes (pack_arp_msg mac ip target)
      ≡ broadcast_mac ++ (mac ++ (0x08 ∷ 0x06 ∷ (request_bytes mac ip target ++ replicate 18 0))))
    × (length (arp_bytes (pack_arp_msg mac ip target)) ≡ 60)
    × (arp_of_bytes (arp_bytes (pack_arp_msg mac ip target)) ≡ pack_arp_msg mac ip target)

-- A request from a six-byte MAC and a four-byte address for a four-byte address is broadcast: the
-- Ethernet header, the 28 bytes of the request in network byte order and 18 zero bytes, 60 in all;
-- read as a message these bytes are the message that was packed.
pub arp_wire :
    (mac ip target : List ℕ)
    → length mac ≡ 6
    → length ip ≡ 4
    → length target ≡ 4
    → Packed mac ip target
unfolding arp_bytes pack_arp_msg pack_ether_hdr htons arp_of_bytes ether_of_bytes
arp_wire mac ip target m i t =
    six_cases (λ mac. Packed mac ip target)
      (λ a b c d e f.
        four_cases (λ ip. Packed (a ∷ b ∷ c ∷ d ∷ e ∷ f ∷ []) ip target)
          (λ p q r s.
            four_cases (λ target. Packed (a ∷ b ∷ c ∷ d ∷ e ∷ f ∷ []) (p ∷ q ∷ r ∷ s ∷ []) target)
              (λ w x y z. (refl, refl, refl)) target t)
          ip i)
      mac m
