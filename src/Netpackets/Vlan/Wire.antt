-- ===== src/Netpackets/Vlan/Wire.antt =====
-- What `pack_vlan_hdr` puts on the wire.
use socketlab.Base.{ℕ, ◌+◌, ◌*◌, ◌%◌, ◌^◌, ◌<◌, ◌≡◌, ◌++◌, arith, htons, be16}
use socketlab.Netpackets.Vlan.{VlanHdr, vlan_bytes, pack_vlan_hdr}

-- Whatever the header held before, the tag goes out in network byte order, priority first: the
-- fields are cut to their widths, and the upper protocol follows.
pub pack_vlan_wire :
    (old : VlanHdr) (id dei pri proto : ℕ)
    → proto < 2 ^ 16
    → vlan_bytes (pack_vlan_hdr old id dei pri proto)
      ≡ be16 (pri % 8 * 8192 + dei % 2 * 4096 + id % 4096) ++ be16 proto
unfolding pack_vlan_hdr htons
pack_vlan_wire old id dei pri proto h = ground arith
