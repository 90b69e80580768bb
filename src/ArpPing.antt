-- ===== src/ArpPing.antt =====
-- `main` of src/arping.c: asks for the MAC of one address, and waits a second for an answer. What it
-- prints of the answer is left out.
mod Tests
use socketlab.Base.{ℕ, List, [], ◌∷◌, Bool, ◌==◌, if◌then◌else◌, htons, take}
use socketlab.Base.Int.{ℤ, pos, negsuc, is_minus_one}
use socketlab.Sys.{
  Sys, Call, socket, close, bind, recvfrom, setsockopt, ioctl, if_nametoindex, perror, Addr, link,
  pure, call, ◌>>=◌, ◌>>◌, when◌run◌otherwise◌,
}
use socketlab.Netpackets.Arp.{eth_p_arp}
use socketlab.Net.SockIf.{af_packet, sock_raw, siocgifhwaddr, sa_data}
use socketlab.Net.Arping.{arping1}
use socketlab.Net.Common.{so_rcvtimeo, timeval_bytes}
use socketlab.ArpScan.{arp_msg_size, eagain}

-- DEV, "eth0", and "192.168.5.4"
abbrev pub dev : List ℕ
dev = 101 ∷ 116 ∷ 104 ∷ 48 ∷ []

abbrev pub asked : List ℕ
asked = 49 ∷ 57 ∷ 50 ∷ 46 ∷ 49 ∷ 54 ∷ 56 ∷ 46 ∷ 53 ∷ 46 ∷ 52 ∷ []

-- What stands in the fields of `sock_addr`, and in the buffers of `arping`, that nothing is stored in.
pub record Junk : Type 0 where
  pub protocol : ℕ
  pub hatype : ℕ
  pub halen : ℕ
  pub mac : List ℕ
  pub ip : List ℕ

abbrev pub sock_addr : Junk → ℤ → List ℕ → Addr
sock_addr junk index out =
    link af_packet junk.protocol index junk.hatype junk.halen (take 6 (sa_data out))

-- The wait for an answer. A timeout is no error.
unfoldable pub await : ℤ → Sys ℤ
await sock_fd = do
  r ← call (recvfrom sock_fd arp_msg_size)
  when is_minus_one r.ret
      run (when r.errno == eagain
          run (do call (close sock_fd); pure (pos 0))
          otherwise (do call perror; pure (negsuc 5)))
      otherwise (do call (close sock_fd); pure (pos 0))

unfoldable pub ask : Junk → ℤ → Addr → Sys ℤ
ask junk sock_fd addr = do
  arping1 junk.mac junk.ip dev asked
  b ← call (bind sock_fd addr)
  when is_minus_one b.ret run (do call perror; pure (negsuc 4)) otherwise await sock_fd

unfoldable pub warn_failed : ℤ → Sys ℤ
warn_failed code = when is_minus_one code run (do call perror; pure code) otherwise pure code

-- `main`. Its error paths do not close the socket.
unfoldable pub arp_ping : Junk → Sys ℤ
arp_ping junk = do
  s ← call (socket af_packet sock_raw (htons eth_p_arp))
  o ← call (setsockopt s.ret so_rcvtimeo (timeval_bytes 1))
  warn_failed o.ret
  i ← call (if_nametoindex dev)
  h ← call (ioctl s.ret siocgifhwaddr dev)
  when is_minus_one h.ret
      run (do call perror; pure (negsuc 2))
      otherwise ask junk s.ret (sock_addr junk i.ret h.out)
