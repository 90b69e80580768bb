-- ===== src/ArpPing/Tests.antt =====
-- The program on a network where every call succeeds, and on one without the interface.
use socketlab.Base.{◌≡◌, refl, []}
use socketlab.Base.Int.{pos, negsuc}
use socketlab.Sys.{Env, done, recvfrom}
use socketlab.Sys.Lan.{lan, mac, ip}
use socketlab.Net.Arping.{arping1, arping, send_request}
use socketlab.Net.SockIf.{get_itf_hwaddr, get_itf_ipaddr}
use socketlab.ArpPing.{Junk, arp_ping, ask, await, warn_failed}

abbrev junk : Junk
junk = record { protocol = 0; hatype = 0; halen = 0; mac = mac; ip = ip }

arp_ping_test : (arp_ping junk lan []).0 ≡ done (pos 0)
unfolding arp_ping ask await warn_failed arping1 arping send_request get_itf_hwaddr get_itf_ipaddr
arp_ping_test = refl

-- A timeout is no error; another failure of `recvfrom` is.
abbrev silent : Env
silent t (recvfrom fd n) = record { ret = negsuc 0; out = []; errno = 11 }
silent t c = lan t c

abbrev broken : Env
broken t (recvfrom fd n) = record { ret = negsuc 0; out = []; errno = 9 }
broken t c = lan t c

timeout_test : (arp_ping junk silent []).0 ≡ done (pos 0)
unfolding arp_ping ask await warn_failed arping1 arping send_request get_itf_hwaddr get_itf_ipaddr
timeout_test = refl

broken_test : (arp_ping junk broken []).0 ≡ done (negsuc 5)
unfolding arp_ping ask await warn_failed arping1 arping send_request get_itf_hwaddr get_itf_ipaddr
broken_test = refl
