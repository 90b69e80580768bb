-- ===== src/Net/SockIf/Tests.antt =====
-- The functions of sock_if.c on a network of the tests.
use socketlab.Base.{ℕ, ◌≡◌, refl, List, [], ◌∷◌, some, false}
use socketlab.Base.Int.{pos}
use socketlab.Sys.{done}
use socketlab.Sys.Files.{open_fds, KeepsOpen}
use socketlab.Sys.Lan.{lan, mac, ip}
use socketlab.Net.SockIf.{get_itf_hwaddr, get_itf_ipaddr, bind_itf, send_frame}
use socketlab.Net.SockIf.Descriptors.{sock_if-KeepsOpen}

-- eth0
abbrev eth0 : List ℕ
eth0 = 101 ∷ 116 ∷ 104 ∷ 48 ∷ []

hwaddr_run : (get_itf_hwaddr eth0 false lan []).0 ≡ done (pos 0, some mac)
unfolding get_itf_hwaddr
hwaddr_run = refl

ipaddr_run : (get_itf_ipaddr eth0 false lan []).0 ≡ done (pos 0, some ip)
unfolding get_itf_ipaddr
ipaddr_run = refl

sock_if-KeepsOpen_example :
    KeepsOpen (get_itf_hwaddr eth0 false)
    × KeepsOpen (get_itf_ipaddr eth0 false)
    × KeepsOpen (bind_itf (pos 3) eth0)
    × KeepsOpen (send_frame eth0 mac)
sock_if-KeepsOpen_example = sock_if-KeepsOpen eth0 mac false (pos 3)

send_run : open_fds lan (send_frame eth0 mac lan []).1 ≡ []
unfolding send_frame bind_itf open_fds
send_run = refl
