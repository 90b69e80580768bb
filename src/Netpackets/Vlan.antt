-- ===== src/Netpackets/Vlan.antt =====
-- The 802.1Q tag of lib/netpackets/include/netpackets/vlan.h, and lib/netpackets/src/vlan.c.
pub mod Wire
use socketlab.Base.{
  ℕ, ◌+◌, ◌*◌, ◌/◌, ◌%◌, ◌^◌, ◌<◌, ◌≡◌, refl, List, [], ◌∷◌, ◌++◌, arith, htons, le16, be16, u16,
}
use socketlab.Netpackets.Ether.{word_at}

-- `vlan_hdr_t`. `tci` and the bit-fields `id` (12 bits, lowest), `dei` (1) and `pri` (3, highest)
-- share one `uint16_t`.
pub record VlanHdr : Type 0 where
  pub tci : ℕ
  pub proto_type : ℕ

abbrev pub vlan_hdr_size : ℕ
vlan_hdr_size = 4

-- The bit-fields of a little-endian host.
abbrev pub tci_id : ℕ → ℕ
tci_id t = t % 4096

abbrev pub tci_dei : ℕ → ℕ
tci_dei t = t / 4096 % 2

abbrev pub tci_pri : ℕ → ℕ
tci_pri t = t / 8192 % 8

-- An assignment to a bit-field keeps the low bits of the value and the other fields.
abbrev pub set_id : ℕ → ℕ → ℕ
set_id v t = tci_pri t * 8192 + tci_dei t * 4096 + v % 4096

abbrev pub set_dei : ℕ → ℕ → ℕ
set_dei v t = tci_pri t * 8192 + v % 2 * 4096 + tci_id t

abbrev pub set_pri : ℕ → ℕ → ℕ
set_pri v t = v % 8 * 8192 + tci_dei t * 4096 + tci_id t

abbrev pub vlan_bytes : VlanHdr → List ℕ
vlan_bytes h = le16 h.tci ++ le16 h.proto_type

-- `pack_vlan_hdr`, into a header that holds `old`.
unfoldable pub pack_vlan_hdr : VlanHdr → ℕ → ℕ → ℕ → ℕ → VlanHdr
pack_vlan_hdr old id dei pri proto = record {
  tci = htons (set_pri pri (set_dei dei (set_id id old.tci)));
  proto_type = htons (u16 proto);
}
