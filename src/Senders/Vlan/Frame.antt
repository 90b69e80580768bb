-- ===== src/Senders/Vlan/Frame.antt =====
-- The frame that send_vlan builds in its packet buffer, and sends.
use socketlab.Base.{
  ℕ, ◌+◌, ◌^◌, ◌≤◌, ◌<◌, ◌≡◌, refl, ap, ◌∙◌, List, [], ◌∷◌, ◌++◌, Option, some, arith, length, take,
  drop, replicate,
}
use mathlib.Core.Option
use socketlab.Base.Int.{pos, bits32}
use socketlab.Sys.{Env, Call, getpid, pure, then_do}
use socketlab.Netpackets.PacketBuff.{PacketBuff, header_size}
use socketlab.Netpackets.PacketBuff.Layout.{
  laid, alloc-laid, push-laid, copy_to-laid, contents-laid,
}
use socketlab.Netpackets.Ether.Wire.{ether_wire}
use socketlab.Netpackets.Vlan.Wire.{pack_vlan_wire}
use socketlab.Netpackets.Ipv4.{Ipv4Hdr, ipv4_bytes, pack_ipv4_hdr}
use socketlab.Netpackets.Ipv4.Valid.{pack_ipv4_hdr-Accepted}
use socketlab.Net.SockIf.{send_frame}
use socketlab.Senders.{itf, eth_type_ipv4}
use socketlab.Senders.Vlan.{
  smac, dmac, sip, dip, text, text_size, frame_size, eth_type_8021q, store_at, vlan_at, fill,
  layout, build, send_built, send_vlan,
}

-- The tag: priority 7, not to be dropped, VLAN 100, with the protocol behind it.
abbrev tag : List ℕ
tag = 0xe0 ∷ 0x64 ∷ 0x08 ∷ 0x00 ∷ []

-- `smac`, which stands first, is where the frame goes to.
abbrev pub frame : Ipv4Hdr → List ℕ
frame h = smac ++ (dmac ++ (0x81 ∷ 0x00 ∷ (tag ++ (ipv4_bytes h ++ text))))

module _ (base : ℕ) (placed : base + header_size + frame_size < 2 ^ 64) where
  -- The buffer with `n` bytes taken.
  abbrev at : ℕ → List ℕ → PacketBuff
  at n bytes = laid base frame_size n bytes

  abbrev pointer : ℕ → Option ℕ
  pointer n = some (base + header_size + n)

  store_at-laid :
      (i : ℕ) (src bytes : List ℕ)
      → i + length src ≤ frame_size
      → store_at (at frame_size bytes) (pointer i) src
        ≡ some (at frame_size (take i bytes ++ (src ++ drop (i + length src) bytes)))
  unfolding store_at
  store_at-laid i src bytes h =
      copy_to-laid base frame_size (omega arith) placed frame_size i src bytes h

  abbrev zeros : List ℕ
  zeros = replicate frame_size 0

  abbrev ether : List ℕ
  ether = smac ++ (dmac ++ (0x81 ∷ 0x00 ∷ []))

  pushes :
      (pid : ℕ)
      → layout pid (at 0 zeros)
        ≡ fill pid (at frame_size zeros) (pointer 0) (pointer 14) (pointer 18) (pointer 38)
  unfolding layout
  pushes pid =
      rw
        (
          push-laid base frame_size (omega arith) placed 0 14 zeros (omega arith),
          push-laid base frame_size (omega arith) placed 14 4 zeros (omega arith),
          push-laid base frame_size (omega arith) placed 18 20 zeros (omega arith),
          push-laid base frame_size (omega arith) placed 38 12 zeros (omega arith),
        )
        refl

  fill-frame :
      (pid : ℕ) {h : Ipv4Hdr}
      → pack_ipv4_hdr pid sip dip 40 text_size ≡ some h
      → fill pid (at frame_size zeros) (pointer 0) (pointer 14) (pointer 18) (pointer 38)
        ≡ some (at frame_size (frame h))
  unfolding fill Option.bind
  fill-frame pid {h} e =
      rw
        (
          ether_wire smac dmac eth_type_8021q refl refl (omega arith),
          store_at-laid 0 ether zeros (omega arith),
          pack_vlan_wire (vlan_at (at frame_size (ether ++ replicate 36 0)) (pointer 14)) 100 0 7
              eth_type_ipv4 (omega arith),
          store_at-laid 14 tag (ether ++ replicate 36 0) (omega arith),
          e,
          store_at-laid 18 (ipv4_bytes h) (ether ++ (tag ++ replicate 32 0)) (omega arith),
          store_at-laid 38 text (ether ++ (tag ++ (ipv4_bytes h ++ replicate 12 0))) (omega arith),
        )
        refl

  build-frame :
      (malloc : ℕ → Option ℕ) (pid : ℕ) {h : Ipv4Hdr}
      → malloc (header_size + frame_size) ≡ some base
      → pack_ipv4_hdr pid sip dip 40 text_size ≡ some h
      → build malloc pid ≡ some (at frame_size (frame h))
  unfolding build
  build-frame malloc pid m e =
      rw (build, alloc-laid base frame_size (omega arith) placed malloc m)
        (pushes pid ∙ fill-frame pid e)

  send_built-frame :
      (malloc : ℕ → Option ℕ) (pid : ℕ) {h : Ipv4Hdr} (env : Env) (t : List Call)
      → malloc (header_size + frame_size) ≡ some base
      → pack_ipv4_hdr pid sip dip 40 text_size ≡ some h
      → send_built (build malloc pid) env t
        ≡ then_do (send_frame itf (frame h) env t) (λ r. pure (pos 0)) env
  unfolding send_built
  send_built-frame malloc pid {h} env t m e = rw (build-frame malloc pid m e) (
      ap (λ bytes. then_do (send_frame itf bytes env t) (λ r. pure (pos 0)) env)
        (contents-laid base frame_size (omega arith) placed frame_size (frame h)))

-- If `malloc` gives a block, the pushes and stores of `main` leave in the buffer, whole and in this
-- order: the Ethernet header (addressed to `smac`, and from `dmac`), the VLAN tag, the IPv4 header `h`
-- of `pack_ipv4_hdr` and the text. `main` sends just these 50 bytes, and returns 0 in any case.
pub send_vlan_lem :
    (malloc : ℕ → Option ℕ) (base : ℕ) (env : Env) (t : List Call)
    → malloc (header_size + frame_size) ≡ some base
    → base + header_size + frame_size < 2 ^ 64
    → (h : Ipv4Hdr) × (pack_ipv4_hdr (bits32 (env t getpid).ret) sip dip 40 text_size ≡ some h)
      × (send_vlan malloc env t
          ≡ then_do (send_frame itf (frame h) env (getpid ∷ t)) (λ r. pure (pos 0)) env)
unfolding send_vlan
send_vlan_lem malloc base env t m placed =
    let pid = bits32 (env t getpid).ret in
    let (h, e, ok, swapped) =
      pack_ipv4_hdr-Accepted pid sip dip 40 text_size (omega arith) (omega arith) in
    (h, e, send_built-frame base placed malloc pid env (getpid ∷ t) m e)
