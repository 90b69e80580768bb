-- ===== src/Itfs/Tests.antt =====
-- A loopback interface, and a tunnel without an address.
use socketlab.Base.{ℕ, ◌≡◌, refl, List, [], ◌∷◌, Option, none, some}
use socketlab.Base.Int.{pos}
use socketlab.Itfs.{SockAddr, Ifaddrs, itf, addr, returned, null_pointer, print_itfs, get_itfs}

-- The text is made of the bytes themselves.
abbrev nameinfo : SockAddr → Option (List ℕ)
nameinfo a = some a.bytes

abbrev lo : Ifaddrs
lo = record { ifa_name = 108 ∷ 111 ∷ []; ifa_addr = some (record { family = 2; bytes = 127 ∷ [] }) }

abbrev tun : Ifaddrs
tun = record { ifa_name = 116 ∷ []; ifa_addr = none }

lo_run :
    get_itfs nameinfo (some (lo ∷ []))
    ≡ returned (pos 0) (itf (108 ∷ 111 ∷ []) 2 ∷ addr (127 ∷ []) ∷ [])
unfolding get_itfs print_itfs
lo_run = refl

tun_run :
    get_itfs nameinfo (some (lo ∷ tun ∷ []))
    ≡ null_pointer (itf (108 ∷ 111 ∷ []) 2 ∷ addr (127 ∷ []) ∷ [])
unfolding get_itfs print_itfs
tun_run = refl
