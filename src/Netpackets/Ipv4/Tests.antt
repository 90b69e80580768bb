-- ===== src/Netpackets/Ipv4/Tests.antt =====
-- IPv4 headers at concrete inputs.
use socketlab.Base.{ℕ, ◌/◌, ◌%◌, ◌≡◌, ◌↔◌, refl, some, arith, htons}
use socketlab.Netpackets.Checksum.{
  ipv4_checksum, add_words, finish, fold_carry, add_carry, complement,
}
use socketlab.Netpackets.Ipv4.{Ipv4Hdr, unchecked, pack_ipv4_hdr}
use socketlab.Netpackets.Ipv4.Layout.{IsHdr}
use socketlab.Netpackets.Ipv4.Valid.{Accepted, pack_ipv4_hdr-Accepted}

-- 127.0.0.1, as a `uint32_t` of the host
abbrev localhost : ℕ
localhost = 0x0100007f

abbrev packed : Ipv4Hdr
packed = record {
  ihl = 5;
  version = 4;
  tos = 0;
  tot_len = 0x1c00;
  id = 0xd204;
  frag = 0x40;
  ttl = 64;
  protocol = 1;
  checksum = 0x380d;
  src_addr = localhost;
  dst_addr = localhost;
}

packed-IsHdr : IsHdr packed
packed-IsHdr = omega arith

pack_run : pack_ipv4_hdr 1234 localhost localhost 1 8 ≡ some packed
unfolding pack_ipv4_hdr unchecked htons ipv4_checksum add_words finish fold_carry add_carry
    complement
pack_run = refl

pack_ipv4_hdr-Accepted_example :
    (h : Ipv4Hdr) × (pack_ipv4_hdr 1234 localhost localhost 1 8 ≡ some h)
    × Accepted (record h { checksum = htons h.checksum })
    × (Accepted h ↔ (h.checksum / 256 ≡ h.checksum % 256))
pack_ipv4_hdr-Accepted_example =
    pack_ipv4_hdr-Accepted 1234 localhost localhost 1 8 (omega arith) (omega arith)
