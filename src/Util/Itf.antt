-- ===== src/Util/Itf.antt =====
-- The interface functions of include/util.c (its `bind_itf` has the text of the one in Net/SockIf).
pub mod Descriptors
mod Tests
use socketlab.Base.{ℕ, List, [], Option, none, some, Bool, true, false, take, if◌then◌else◌}
use socketlab.Base.Int.{ℤ, pos, negsuc, is_minus_one}
use socketlab.Sys.{
  Sys, Call, socket, close, ioctl, perror, pure, call, ◌>>=◌, ◌>>◌, when◌run◌otherwise◌,
}
use socketlab.Net.SockIf.{Fills, sa_data, af_inet, sock_dgram, siocgifhwaddr, siocgifaddr, ifnamsiz}

-- SIOCGIFNETMASK, and `sizeof(struct sockaddr)`
abbrev pub siocgifnetmask : ℕ
siocgifnetmask = 0x891b

abbrev pub sockaddr_size : ℕ
sockaddr_size = 16

-- The bytes that are written to `sll_addr`. `is_null` tells whether `addr == NULL`.
unfoldable pub get_itf_mac : List ℕ → Bool → Sys Fills
get_itf_mac itf true = pure (negsuc 0, none)
get_itf_mac itf false = do
  s ← call (socket af_inet sock_dgram 0)
  when is_minus_one s.ret run (do call perror; pure (negsuc 1, none)) otherwise (do
    r ← call (ioctl s.ret siocgifhwaddr (take ifnamsiz itf))
    when is_minus_one r.ret
        run (do call (close s.ret); call perror; pure (negsuc 2, none))
        otherwise (do call (close s.ret); pure (pos 0, some (take 6 (sa_data r.out)))))

-- The bytes of the `struct sockaddr`, also of the mask.
unfoldable pub get_itf_ip4 : List ℕ → Bool → Sys Fills
get_itf_ip4 itf true = pure (negsuc 0, none)
get_itf_ip4 itf false = do
  s ← call (socket af_inet sock_dgram 0)
  when is_minus_one s.ret run (do call perror; pure (negsuc 1, none)) otherwise (do
    r ← call (ioctl s.ret siocgifaddr (take ifnamsiz itf))
    when is_minus_one r.ret
        run (do call (close s.ret); call perror; pure (negsuc 2, none))
        otherwise (do call (close s.ret); pure (pos 0, some (take sockaddr_size r.out))))

unfoldable pub get_itf_subnet_mask : List ℕ → Bool → Sys Fills
get_itf_subnet_mask itf true = pure (negsuc 0, none)
get_itf_subnet_mask itf false = do
  s ← call (socket af_inet sock_dgram 0)
  when is_minus_one s.ret run (do call perror; pure (negsuc 1, none)) otherwise (do
    r ← call (ioctl s.ret siocgifnetmask (take ifnamsiz itf))
    when is_minus_one r.ret
        run (do call (close s.ret); call perror; pure (negsuc 2, none))
        otherwise (do call (close s.ret); pure (pos 0, some (take sockaddr_size r.out))))
