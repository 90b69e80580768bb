-- ===== src/Echo/Udp/Answers.antt =====
-- The server of src/uecho-server.c answers every datagram to its sender.
use socketlab.Base.{
  ℕ, suc, ◌<◌, ◌≡◌, refl, List, [], ◌∷◌, none, true, false, arith, length, take_all, leb, htons,
}
use socketlab.Base.Int.{ℤ, pos, is_minus_one}
use socketlab.Sys.{Call, Addr, socket, bind, recvfrom, sendto, inet, Env, done}
use socketlab.Net.SockIf.{af_inet}
use socketlab.Net.Common.{make_socket, make_sockaddr}
use socketlab.Echo.Udp.{sock_dgram, udp_loop, udp_server}

module _ (peer : List Call → Addr) (sock : ℤ) where
  -- The calls for these datagrams, latest first.
  abbrev pub answering : List (List ℕ) → List Call → List Call
  answering [] t = t
  answering (d ∷ ds) t =
      answering ds (sendto sock d (peer (recvfrom sock 64 ∷ t)) ∷ recvfrom sock 64 ∷ t)

  -- After the calls `t`, these datagrams arrive, each shorter than the buffer.
  abbrev pub Arrives : Env → List (List ℕ) → List Call → Type 0
  Arrives env [] t = Unit
  Arrives env (d ∷ ds) t =
      ((env t (recvfrom sock 64)).ret ≡ pos (length d))
      × ((env t (recvfrom sock 64)).out ≡ d)
      × (length d < 64)
      × Arrives env ds (sendto sock d (peer (recvfrom sock 64 ∷ t)) ∷ recvfrom sock 64 ∷ t)

  udp_loop-answers :
      (ds : List (List ℕ)) (env : Env) (t : List Call)
      → Arrives env ds t
      → udp_loop (length ds) peer sock env t ≡ (done none, answering ds t)
  unfolding udp_loop
  udp_loop-answers [] env t h = refl
  udp_loop-answers (d ∷ ds) env t (ret, out, short, rest) =
      rw (ret, out, stored, take_all (length d) d (omega arith))
        (udp_loop-answers ds env
          (sendto sock d (peer (recvfrom sock 64 ∷ t)) ∷ recvfrom sock 64 ∷ t) rest)
    where
      stored : leb (suc (length d)) 64 ≡ true
      stored = ground arith

-- The calls before the loop, latest first.
abbrev pub bound : ℤ → List Call → List Call
bound sock t = bind sock (inet af_inet (htons 9000) 0) ∷ socket af_inet sock_dgram 0 ∷ t

-- When the socket is bound and datagrams of fewer than 64 bytes arrive, uecho-server sends each of them
-- back, byte for byte, to the address that it came from, before it receives the next one, and is still
-- there after the last one.
pub udp_server-answers :
    (peer : List Call → Addr) (sock : ℕ) (ds : List (List ℕ)) (env : Env) (t : List Call)
    → (env t (socket af_inet sock_dgram 0)).ret ≡ pos sock
    → is_minus_one
        (env (socket af_inet sock_dgram 0 ∷ t) (bind (pos sock) (inet af_inet (htons 9000) 0))).ret
      ≡ false
    → Arrives peer (pos sock) env ds (bound (pos sock) t)
    → udp_server (length ds) peer env t
      ≡ (done none, answering peer (pos sock) ds (bound (pos sock) t))
unfolding udp_server make_socket make_sockaddr
udp_server-answers peer sock ds env t opened is_bound h =
    rw (opened, is_bound) (udp_loop-answers peer (pos sock) ds env (bound (pos sock) t) h)
