-- ===== src/Senders/Vlan.antt =====
-- src/send_vlan.c: an IPv4 packet with a VLAN tag, built in a packet buffer.
pub mod Frame
mod Tests
use socketlab.Base.{
  ℕ, ◌+◌, ◌-◌, ◌*◌, List, [], ◌∷◌, ◌++◌, Option, none, some, drop, take, if◌then◌else◌,
}
use mathlib.Core.Option
use socketlab.Base.Int.{ℤ, pos, is_neg, bits32}
use socketlab.Sys.{Sys, Call, getpid, pure, fault, call, ◌>>=◌, ◌>>◌}
use socketlab.Netpackets.PacketBuff.{PacketBuff, alloc, push, copy_to, contents}
use socketlab.Netpackets.Ether.{ether_bytes, pack_ether_hdr, ether_hdr_size, word_at}
use socketlab.Netpackets.Vlan.{VlanHdr, vlan_hdr_size, vlan_bytes, pack_vlan_hdr}
use socketlab.Netpackets.Ipv4.{Ipv4Hdr, ipv4_hdr_size, ipv4_bytes, pack_ipv4_hdr, long_at}
use socketlab.Net.SockIf.{send_frame}
use socketlab.Senders.{eth_type_ipv4, itf}

-- ETH_TYPE_8021Q
abbrev pub eth_type_8021q : ℕ
eth_type_8021q = 0x8100

-- `smac`, `dmac`, `sip`, `dip`, and `data` with its zero.
abbrev pub smac : List ℕ
smac = 0x00 ∷ 0x11 ∷ 0x22 ∷ 0x33 ∷ 0x44 ∷ 0x55 ∷ []

abbrev pub dmac : List ℕ
dmac = 0xaa ∷ 0xbb ∷ 0xcc ∷ 0xdd ∷ 0xee ∷ 0xff ∷ []

abbrev pub sip : ℕ
sip = long_at (192 ∷ 168 ∷ 5 ∷ 2 ∷ [])

abbrev pub dip : ℕ
dip = long_at (192 ∷ 168 ∷ 5 ∷ 3 ∷ [])

abbrev pub text : List ℕ
text = 104 ∷ 101 ∷ 108 ∷ 108 ∷ 111 ∷ 32 ∷ 119 ∷ 111 ∷ 114 ∷ 108 ∷ 100 ∷ 0 ∷ []

-- `sizeof(data)`
abbrev pub text_size : ℕ
text_size = 12

-- The size that `pktb_alloc` is asked for.
abbrev pub frame_size : ℕ
frame_size = ether_hdr_size + vlan_hdr_size + ipv4_hdr_size + text_size

-- A store through a pointer that `pktb_push` returned; `none` is a fault.
unfoldable pub store_at : PacketBuff → Option ℕ → List ℕ → Option PacketBuff
store_at p none src = none
store_at p (some at) src = copy_to p at src

-- What the VLAN header at a pointer holds.
unfoldable pub vlan_at : PacketBuff → Option ℕ → VlanHdr
vlan_at p none = record { tci = 0; proto_type = 0 }
vlan_at p (some at) =
    let b = drop (at - p.data_start) p.bytes in
    record { tci = word_at b; proto_type = word_at (drop 2 b) }

-- The four stores of `main`, through the pointers that the pushes returned.
unfoldable pub fill : ℕ → PacketBuff → Option ℕ → Option ℕ → Option ℕ → Option ℕ → Option PacketBuff
fill pid p eth vlan ipv4 at_text =
    Option.bind (store_at p eth (ether_bytes (pack_ether_hdr smac dmac eth_type_8021q))) λ a.
      Option.bind
        (store_at a vlan (vlan_bytes (pack_vlan_hdr (vlan_at a vlan) 100 0 7 eth_type_ipv4)))
        λ b.
          Option.bind (pack_ipv4_hdr pid sip dip 40 text_size)
            λ h. Option.bind (store_at b ipv4 (ipv4_bytes h)) λ c. store_at c at_text text

-- The four pushes of `main`.
unfoldable pub layout : ℕ → PacketBuff → Option PacketBuff
layout pid p =
    let e = push p ether_hdr_size in
    let v = push e.1 vlan_hdr_size in
    let i = push v.1 ipv4_hdr_size in let t = push i.1 text_size in fill pid t.1 e.0 v.0 i.0 t.0

-- The buffer that `main` sends; `none` is a fault, also where `malloc` fails.
unfoldable pub build : (ℕ → Option ℕ) → ℕ → Option PacketBuff
build malloc pid = elim (alloc malloc frame_size) [ none ↦ none | some p ↦ layout pid p ]

unfoldable pub send_built : Option PacketBuff → Sys ℤ
send_built none = fault
send_built (some p) = do send_frame itf (contents p); pure (pos 0)

-- `main`, which returns 0 whether the frame could be sent or not.
unfoldable pub send_vlan : (ℕ → Option ℕ) → Sys ℤ
send_vlan malloc = do pid ← call getpid; send_built (build malloc (bits32 pid.ret))
