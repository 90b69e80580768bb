-- ===== src/Net/SockIf.antt =====
-- lib/netpackets/src/sock_if.c: the addresses of a network interface, and sending a raw frame.
pub mod Descriptors
mod Tests
use socketlab.Base.{
  ℕ, ◌+◌, List, [], ◌∷◌, Option, none, some, Bool, true, false, take, drop, if◌then◌else◌, u16,
  htons,
}
use socketlab.Base.Int.{ℤ, pos, negsuc, is_neg, is_minus_one}
use socketlab.Sys.{
  Sys, Call, socket, close, bind, sendto, ioctl, if_nametoindex, perror, Addr, link, no_addr, pure,
  call, ◌>>=◌, ◌>>◌, when◌run◌otherwise◌,
}

-- AF_INET, AF_PACKET, SOCK_DGRAM, SOCK_RAW, ETH_P_ALL, SIOCGIFHWADDR, SIOCGIFADDR and IFNAMSIZ
abbrev pub af_inet : ℕ
af_inet = 2

abbrev pub af_packet : ℕ
af_packet = 17

abbrev pub sock_dgram : ℕ
sock_dgram = 2

abbrev pub sock_raw : ℕ
sock_raw = 3

abbrev pub eth_p_all : ℕ
eth_p_all = 0x0003

abbrev pub siocgifhwaddr : ℕ
siocgifhwaddr = 0x8927

abbrev pub siocgifaddr : ℕ
siocgifaddr = 0x8915

abbrev pub ifnamsiz : ℕ
ifnamsiz = 16

-- A function that fills a buffer of its caller: the value returned, and the bytes written, if any.
abbrev pub Fills : Type 0
Fills = ℤ × Option (List ℕ)

-- The answer of an interface `ioctl` is a `struct sockaddr`: the family, then 14 bytes of data.
abbrev pub sa_data : List ℕ → List ℕ
sa_data out = drop 2 out

-- The `sin_addr` of a `struct sockaddr_in`, behind its port.
abbrev pub sin_addr : List ℕ → List ℕ
sin_addr out = take 4 (drop 4 out)

-- `is_null` tells whether `addr == NULL`.
unfoldable pub get_itf_hwaddr : List ℕ → Bool → Sys Fills
get_itf_hwaddr itf true = pure (negsuc 0, none)
get_itf_hwaddr itf false = do
  s ← call (socket af_inet sock_dgram 0)
  when is_minus_one s.ret run (do call perror; pure (negsuc 1, none)) otherwise (do
    r ← call (ioctl s.ret siocgifhwaddr (take ifnamsiz itf))
    when is_minus_one r.ret
        run (do call (close s.ret); call perror; pure (negsuc 2, none))
        otherwise (do call (close s.ret); pure (pos 0, some (take 6 (sa_data r.out)))))

unfoldable pub get_itf_ipaddr : List ℕ → Bool → Sys Fills
get_itf_ipaddr itf true = pure (negsuc 0, none)
get_itf_ipaddr itf false = do
  s ← call (socket af_inet sock_dgram 0)
  when is_minus_one s.ret run (do call perror; pure (negsuc 1, none)) otherwise (do
    r ← call (ioctl s.ret siocgifaddr (take ifnamsiz itf))
    when is_minus_one r.ret
        run (do call (close s.ret); call perror; pure (negsuc 2, none))
        otherwise (do call (close s.ret); pure (pos 0, some (sin_addr r.out))))

-- `sockaddr_ll` with the family and the index of the interface, and zeros.
abbrev pub itf_addr : ℤ → Addr
itf_addr index = link af_packet 0 index 0 0 []

unfoldable pub bind_itf : ℤ → List ℕ → Sys ℤ
bind_itf fd itf = do
  i ← call (if_nametoindex itf)
  when is_minus_one i.ret
      run pure (negsuc 0)
      otherwise (do r ← call (bind fd (itf_addr i.ret)); pure r.ret)

-- `frame` are the `len` bytes; both gotos reach the same label as the fall through.
unfoldable pub send_frame : List ℕ → List ℕ → Sys ℤ
unfolding bind_itf
send_frame itf frame = do
  s ← call (socket af_packet sock_raw (htons eth_p_all))
  when is_neg s.ret run pure (negsuc 0) otherwise (do
    b ← bind_itf s.ret itf
    when is_neg b
        run (do call (close s.ret); pure b)
        otherwise (do r ← call (sendto s.ret frame no_addr); call (close s.ret); pure r.ret))
