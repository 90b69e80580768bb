-- ===== src/Net/Arping/Tests.antt =====
-- `arping` on a network of the tests.
use socketlab.Base.{ℕ, ◌≡◌, refl, List, [], ◌∷◌, some, false}
use socketlab.Base.Int.{pos}
use socketlab.Sys.{Call, done, sendto, socket, close, ioctl}
use socketlab.Sys.Files.{KeepsOpen}
use socketlab.Sys.Lan.{lan, mac, ip, target}
use socketlab.Netpackets.Arp.{pack_arp_msg}
use socketlab.Net.SockIf.{
  get_itf_hwaddr, get_itf_ipaddr, af_inet, sock_dgram, siocgifhwaddr, siocgifaddr,
}
use socketlab.Net.Arping.{arping, arping1, send_arp_pack, arp_addr}
use socketlab.Net.Arping.Sends.{before_lookups, request_frame, arping_sends, arp-KeepsOpen}

abbrev eth0 : List ℕ
eth0 = 101 ∷ 116 ∷ 104 ∷ 48 ∷ []

-- The calls of one lookup of the interface.
abbrev lookup : ℕ → List Call → List Call
lookup request t = close (pos 3) ∷ ioctl (pos 3) request eth0 ∷ socket af_inet sock_dgram 0 ∷ t

abbrev after_lookups : List Call
after_lookups = lookup siocgifaddr (lookup siocgifhwaddr (before_lookups eth0 target []))

hwaddr_run :
    get_itf_hwaddr eth0 false lan (before_lookups eth0 target [])
    ≡ (done (pos 0, some mac), lookup siocgifhwaddr (before_lookups eth0 target []))
unfolding get_itf_hwaddr
hwaddr_run = refl

ipaddr_run :
    get_itf_ipaddr eth0 false lan (lookup siocgifhwaddr (before_lookups eth0 target []))
    ≡ (done (pos 0, some ip), after_lookups)
unfolding get_itf_ipaddr
ipaddr_run = refl

arping_sends_example : arping [] [] (pos 3) eth0 target lan [] ≡ (
  done (pos 0),
  sendto (pos 3) (request_frame mac ip target) (arp_addr (pos 2) mac) ∷ after_lookups,
)
arping_sends_example =
    arping_sends [] [] mac ip target (pos 3) eth0 target lan []
      (lookup siocgifhwaddr (before_lookups eth0 target [])) after_lookups refl refl refl refl refl
      hwaddr_run ipaddr_run

arp-KeepsOpen_example :
    KeepsOpen (arping1 [] [] eth0 target)
    × KeepsOpen (arping [] [] (pos 3) eth0 target)
    × KeepsOpen (send_arp_pack (pos 3) eth0 (pack_arp_msg mac ip target))
arp-KeepsOpen_example = arp-KeepsOpen [] [] (pos 3) eth0 target (pack_arp_msg mac ip target)
