-- ===== src/Netpackets/Arp/Tests.antt =====
-- An ARP request at concrete addresses.
use socketlab.Base.{ℕ, ◌≡◌, refl, List, [], ◌∷◌, ◌++◌, length, replicate}
use socketlab.Netpackets.Arp.{arp_bytes, arp_of_bytes, pack_arp_msg, broadcast_mac}
use socketlab.Netpackets.Arp.Wire.{request_bytes, arp_wire}

abbrev mac : List ℕ
mac = 2 ∷ 0 ∷ 0 ∷ 0 ∷ 0 ∷ 1 ∷ []

abbrev ip : List ℕ
ip = 10 ∷ 0 ∷ 0 ∷ 1 ∷ []

abbrev target : List ℕ
target = 10 ∷ 0 ∷ 0 ∷ 9 ∷ []

arp_wire_example :
    (arp_bytes (pack_arp_msg mac ip target)
      ≡ broadcast_mac ++ (mac ++ (0x08 ∷ 0x06 ∷ (request_bytes mac ip target ++ replicate 18 0))))
    × (length (arp_bytes (pack_arp_msg mac ip target)) ≡ 60)
    × (arp_of_bytes (arp_bytes (pack_arp_msg mac ip target)) ≡ pack_arp_msg mac ip target)
arp_wire_example = arp_wire mac ip target refl refl refl
