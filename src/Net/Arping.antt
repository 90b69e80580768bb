-- ===== src/Net/Arping.antt =====
-- The senders of lib/netpackets/src/arp.c and lib/netpackets/src/ether.c.
pub mod Sends
mod Tests
use socketlab.Base.{
  ℕ, List, [], ◌∷◌, ◌++◌, Option, none, some, Bool, true, false, take, get_or, replicate,
  if◌then◌else◌, htons,
}
use mathlib.Core.Option
use socketlab.Base.Int.{ℤ, pos, negsuc, is_neg, is_minus_one, is_zero}
use socketlab.Sys.{
  Sys, Call, socket, close, sendto, if_nametoindex, inet_pton, perror, Addr, link, no_addr, pure,
  fault, call, ◌>>=◌, ◌>>◌, when◌run◌otherwise◌,
}
use socketlab.Netpackets.Ether.{pack_ether_frame}
use socketlab.Netpackets.Arp.{ArpMsg, arp_bytes, pack_arp_msg, eth_p_arp}
use socketlab.Net.SockIf.{af_packet, sock_raw, Fills, get_itf_hwaddr, get_itf_ipaddr}

-- ARPHRD_ETHER and ETH_ALEN
abbrev pub arphrd_ether : ℕ
arphrd_ether = 1

abbrev pub eth_alen : ℕ
eth_alen = 6

-- The `sockaddr_ll` of an ARP message; `memcpy` of `sizeof(sll_addr)`, 8, bytes, of which the first
-- six are the MAC and the last two what lies behind it.
abbrev pub arp_addr : ℤ → List ℕ → Addr
arp_addr index mac =
    link af_packet (htons eth_p_arp) index (htons arphrd_ether) eth_alen (take 6 mac)

-- The part of `send_arp_pack` behind the lookup of the MAC.
unfoldable pub send_from : ℤ → ℤ → ArpMsg → Fills → Sys ℤ
send_from fd index msg (code, mac) =
    when is_zero code
    run (do
      r ← call (sendto fd (arp_bytes msg) (arp_addr index (Option.get_or mac [])))
      when is_minus_one r.ret run (do call perror; pure (negsuc 3)) otherwise pure (pos 0))
    otherwise (do call perror; pure (negsuc 1))

unfoldable pub send_arp_pack : ℤ → List ℕ → ArpMsg → Sys ℤ
send_arp_pack fd itf msg = do
  i ← call (if_nametoindex itf)
  when is_zero i.ret
      run (do call perror; pure (negsuc 0))
      otherwise (get_itf_hwaddr itf false >>= λ found. send_from fd i.ret msg found)

-- The last part of `arping`: the message is packed and sent.
unfoldable pub send_request : ℤ → ℤ → List ℕ → List ℕ → List ℕ → Sys ℤ
send_request fd index mac ip to_ip = do
  r ← call (sendto fd (arp_bytes (pack_arp_msg mac ip to_ip)) (arp_addr index mac))
  when is_minus_one r.ret run (do call perror; pure (negsuc 3)) otherwise pure (pos 0)

-- The results of the lookups are not looked at. A lookup that fails leaves its buffer as it was:
-- `junk_mac` and `junk_ip`, which are not initialised, and zeros for the target.
unfoldable pub arping : List ℕ → List ℕ → ℤ → List ℕ → List ℕ → Sys ℤ
arping junk_mac junk_ip fd itf target = do
  p ← call (inet_pton target)
  i ← call (if_nametoindex itf)
  (mac_code, mac) ← get_itf_hwaddr itf false
  (ip_code, ip) ← get_itf_ipaddr itf false
  send_request fd i.ret (Option.get_or mac junk_mac) (Option.get_or ip junk_ip)
      (if is_zero p.ret then replicate 4 0 else take 4 p.out)

unfoldable pub arping1 : List ℕ → List ℕ → List ℕ → List ℕ → Sys ℤ
arping1 junk_mac junk_ip itf target = do
  s ← call (socket af_packet sock_raw (htons eth_p_arp))
  when is_minus_one s.ret run (do call perror; pure (negsuc 0)) otherwise (do
    code ← arping junk_mac junk_ip s.ret itf target
    when is_zero code
        run (do call (close s.ret); pure (pos 0))
        otherwise (do call (close s.ret); pure code))

-- A fault is the overflow of the frame on the stack.
unfoldable pub send_ether_frame : ℤ → List ℕ → List ℕ → ℕ → List ℕ → Sys ℤ
send_ether_frame fd dst source proto payload = elim (pack_ether_frame dst source proto payload) [
  | none ↦ fault
  | some (frame, len) ↦ do r ← call (sendto fd (take len frame) no_addr); pure r.ret
]
