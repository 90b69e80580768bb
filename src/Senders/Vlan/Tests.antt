-- ===== src/Senders/Vlan/Tests.antt =====
-- The frame of send_vlan on a network where it can be sent.
use socketlab.Base.{◌≡◌, [], ◌∷◌, some, refl, arith}
use socketlab.Base.Int.{pos, bits32}
use socketlab.Sys.{getpid, pure, then_do}
use socketlab.Sys.Lan.{lan}
use socketlab.Netpackets.Ipv4.{Ipv4Hdr, pack_ipv4_hdr}
use socketlab.Net.SockIf.{send_frame}
use socketlab.Senders.{itf}
use socketlab.Senders.Vlan.{sip, dip, text_size, send_vlan}
use socketlab.Senders.Vlan.Frame.{frame, send_vlan_lem}

send_vlan_lem_example :
    (h : Ipv4Hdr) × (pack_ipv4_hdr (bits32 (lan [] getpid).ret) sip dip 40 text_size ≡ some h)
    × (send_vlan (λ n. some 4096) lan []
        ≡ then_do (send_frame itf (frame h) lan (getpid ∷ [])) (λ r. pure (pos 0)) lan)
send_vlan_lem_example = send_vlan_lem (λ n. some 4096) 4096 lan [] refl (omega arith)
