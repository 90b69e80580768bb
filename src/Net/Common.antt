-- ===== src/Net/Common.antt =====
-- include/common.c: TCP sockets and socket options, as the code is compiled for Linux.
pub mod Server
use socketlab.Base.{
  ℕ, ◌+◌, List, [], ◌∷◌, ◌++◌, Option, none, some, Bool, true, false, get_or, ◌==◌, ◌&&◌,
  if◌then◌else◌, u16, htons, le32, replicate,
}
use socketlab.Base.Int.{ℤ, pos, negsuc, is_neg, is_minus_one, is_zero}
use socketlab.Sys.{
  Sys, Call, socket, close, bind, listen, connect, setsockopt, getsockopt, gethostbyname, perror,
  Addr, inet, pure, exit, call, ◌>>=◌, ◌>>◌, when◌run◌otherwise◌,
}
use socketlab.Netpackets.Ipv4.{long_at}
use socketlab.Net.SockIf.{af_inet}

-- SOCK_STREAM, and the options SO_REUSEADDR, SO_BROADCAST, SO_RCVTIMEO and SO_SNDTIMEO of SOL_SOCKET
abbrev pub sock_stream : ℕ
sock_stream = 1

abbrev pub so_reuseaddr : ℕ
so_reuseaddr = 2

abbrev pub so_broadcast : ℕ
so_broadcast = 6

abbrev pub so_rcvtimeo : ℕ
so_rcvtimeo = 20

abbrev pub so_sndtimeo : ℕ
so_sndtimeo = 21

-- IPPROTO_TCP, TCP_INFO and TCP_ESTABLISHED
abbrev pub ipproto_tcp : ℕ
ipproto_tcp = 6

abbrev pub tcp_info : ℕ
tcp_info = 11

abbrev pub tcp_established : ℕ
tcp_established = 1

unfoldable pub make_socket : ℕ → ℕ → ℕ → Sys ℤ
make_socket af type protocol = do s ← call (socket af type protocol); pure s.ret

-- INADDR_ANY for a null `addr`; else the first address of the host, whose bytes `gethostbyname`
-- gives, and `DIE` if the pointer returned is null.
unfoldable pub make_sockaddr : ℕ → Option (List ℕ) → ℕ → Sys Addr
make_sockaddr af none port = pure (inet af (htons (u16 port)) 0)
make_sockaddr af (some host) port = do
  h ← call (gethostbyname host)
  when is_zero h.ret run exit 1 otherwise pure (inet af (htons (u16 port)) (long_at h.out))

unfoldable pub server : ℕ → Sys ℤ
unfolding make_socket make_sockaddr
server port = do
  fd ← make_socket af_inet sock_stream 0
  when is_minus_one fd run pure (negsuc 0) otherwise (do
    call (setsockopt fd so_reuseaddr (le32 1))
    addr ← make_sockaddr af_inet none port
    b ← call (bind fd addr)
    when is_minus_one b.ret run pure (negsuc 0) otherwise (do
      l ← call (listen fd 5)
      when is_minus_one l.ret run pure (negsuc 0) otherwise pure fd))

unfoldable pub c_connect : List ℕ → ℕ → Sys ℤ
unfolding make_socket make_sockaddr
c_connect host port = do
  fd ← make_socket af_inet sock_stream 0
  when is_minus_one fd run pure (negsuc 0) otherwise (do
    addr ← make_sockaddr af_inet (some host) port
    c ← call (connect fd addr)
    when is_minus_one c.ret run pure (negsuc 0) otherwise pure fd)

-- 1 for a connected socket. The state is the first byte of `struct tcp_info`.
unfoldable pub tcp_connected : ℤ → Sys ℕ
tcp_connected fd = do
  r ← call (getsockopt fd ipproto_tcp tcp_info)
  when is_zero r.ret
      run pure (if get_or r.out 0 0 == tcp_established then 1 else 0)
      otherwise pure 0

-- The value returned and the structure written.
unfoldable pub get_tcp_info : ℤ → Sys (ℤ × List ℕ)
get_tcp_info fd = do r ← call (getsockopt fd ipproto_tcp tcp_info); pure (r.ret, r.out)

unfoldable pub set_broadcast : ℤ → Sys ℤ
set_broadcast fd = do r ← call (setsockopt fd so_broadcast (le32 1)); pure r.ret

-- `struct timeval` with the seconds given, and 0 microseconds, each a `long`.
abbrev pub timeval_bytes : ℕ → List ℕ
timeval_bytes sec = le32 sec ++ replicate 12 0

unfoldable pub set_recv_timeout : ℤ → ℕ → ℕ → Sys ℤ
set_recv_timeout fd sec usec = do
  r ← call (setsockopt fd so_rcvtimeo (timeval_bytes sec))
  pure r.ret

unfoldable pub set_send_timeout : ℤ → ℕ → ℕ → Sys ℤ
set_send_timeout fd sec usec = do
  r ← call (setsockopt fd so_sndtimeo (timeval_bytes sec))
  pure r.ret
