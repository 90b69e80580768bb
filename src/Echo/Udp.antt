-- ===== src/Echo/Udp.antt =====
-- The echo server and client over UDP: src/uecho-server.c and src/uecho-client.c. Who sent the
-- datagram that was received last is a parameter, any function of the calls.
pub mod Answers
pub mod Lines
use socketlab.Base.{
  ℕ, zero, suc, ◌-◌, List, [], ◌∷◌, ◌++◌, Option, none, some, ◌==◌, if◌then◌else◌, length, take,
  set, replicate,
}
use socketlab.Base.Int.{ℤ, is_minus_one, is_zero, to_nat}
use socketlab.Sys.{
  Sys, Call, Addr, bind, fgets, sendto, recvfrom, close, done, pure, exit, fault, call, ◌>>=◌, ◌>>◌,
  when◌run◌otherwise◌, filled,
}
use socketlab.Ft.{c_string}
use socketlab.Net.SockIf.{af_inet}
use socketlab.Net.Common.{make_socket, make_sockaddr}
use socketlab.Echo.{if_over}
use socketlab.Echo.Client.{Talk, is_quit, is_empty_line, is_stored, without_last, printed_before}

-- SOCK_DGRAM
abbrev pub sock_dgram : ℕ
sock_dgram = 2

abbrev pub came_from : (List Call → Addr) → Sys Addr
came_from peer env t = (done (peer t), t)

-- The loop of the server. The byte behind the datagram is set to 0, also behind a full buffer or, when
-- `recvfrom` fails, in front of it.
unfoldable pub udp_loop : ℕ → (List Call → Addr) → ℤ → Sys (Option Unit)
udp_loop zero peer sock = pure none
udp_loop (suc turns) peer sock = do
  r ← call (recvfrom sock 64)
  when is_stored r.ret 64
      run (do
        client_addr ← came_from peer
        call (sendto sock (take (to_nat r.ret) r.out) client_addr)
        udp_loop turns peer sock)
      otherwise fault

unfoldable pub udp_server : ℕ → (List Call → Addr) → Sys (Option Unit)
udp_server turns peer = do
  sock ← make_socket af_inet sock_dgram 0
  serv_addr ← make_sockaddr af_inet none 9000
  b ← call (bind sock serv_addr)
  when is_minus_one b.ret run exit 1 otherwise udp_loop turns peer sock

-- `msg` after `fgets`, which leaves it as it was when there is no line.
abbrev pub after_fgets : ℤ → List ℕ → List ℕ → List ℕ
after_fgets n out msg = if is_zero n then msg else filled (out ++ (0 ∷ [])) msg

-- The loop of the client, with what is in `msg`. It goes on with what `msg` held when no line is left.
unfoldable pub udp_client_loop : ℕ → ℤ → Addr → List ℕ → Talk
udp_client_loop zero sock serv_addr msg = pure none
udp_client_loop (suc turns) sock serv_addr msg = do
  l ← call (fgets 64)
  let msg1 = after_fgets l.ret l.out msg
  let str_len = length (c_string msg1)
  let msg2 = set msg1 (str_len - 1) 0
  when str_len == 0
      run fault
      otherwise (when is_empty_line (c_string msg1)
          run udp_client_loop turns sock serv_addr msg1
          otherwise (when is_quit (c_string msg2) run pure (some []) otherwise (do
            call (sendto sock (take str_len msg2) serv_addr)
            r ← call (recvfrom sock 64)
            when is_stored r.ret 64
                run (do
                  let msg3 = set (filled (take (to_nat r.ret) r.out) msg2) (to_nat r.ret) 0
                  more ← udp_client_loop turns sock serv_addr msg3
                  pure (printed_before (c_string msg3) more))
                otherwise fault)))

-- "127.0.0.1"
abbrev pub loopback : List ℕ
loopback = 49 ∷ 50 ∷ 55 ∷ 46 ∷ 48 ∷ 46 ∷ 48 ∷ 46 ∷ 49 ∷ []

unfoldable pub udp_client : ℕ → Talk
udp_client turns = do
  sock ← make_socket af_inet sock_dgram 0
  serv_addr ← make_sockaddr af_inet (some loopback) 9000
  texts ← udp_client_loop turns sock serv_addr (replicate 64 0)
  if_over texts (do call (close sock); pure texts)
