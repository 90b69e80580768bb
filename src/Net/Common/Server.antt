-- ===== src/Net/Common/Server.antt =====
-- What `server`, `c_connect` and the timeouts do on each path.
use socketlab.Base.{ℕ, List, ◌∷◌, ◌≡◌, arith, htons, u16, le32}
use socketlab.Base.Int.{ℤ, pos, negsuc}
use socketlab.Sys.{
  Env, Call, IsPosix, Outcome, done, exited, faulted, socket, bind, listen, setsockopt, inet,
}
use socketlab.Sys.Files.{open_fds}
use socketlab.Net.SockIf.{af_inet}
use socketlab.Net.Common.{sock_stream, so_reuseaddr, server, c_connect}

-- A result of `server`: -1, or a descriptor that is open now, in state `LISTEN`.
abbrev pub Serves : Env → List Call → ℕ → Outcome ℤ × List Call → Type 0
Serves env t port (exited s, u) = ⊥
Serves env t port (faulted, u) = ⊥
Serves env t port (done (negsuc n), u) = n ≡ 0
Serves env t port (done (pos fd), u) =
    (open_fds env u ≡ pos fd ∷ open_fds env t)
    × (u
        ≡ listen (pos fd) 5
          ∷ bind (pos fd) (inet af_inet (htons (u16 port)) 0)
          ∷ setsockopt (pos fd) so_reuseaddr (le32 1)
          ∷ socket af_inet sock_stream 0
          ∷ t)

-- Where the calls report failure by -1 alone, `server` returns -1, or a new socket that it has set
-- to reuse its address, bound to the port and made listen, and that is the one socket more that is
-- open.
server-Serves :
    (port : ℕ) (env : Env) (t : List Call) → IsPosix env → Serves env t port (server port env t)
unfolding server open_fds
server-Serves port env t posix = ground (arith, posix.minus_one t (socket af_inet sock_stream 0))

-- A failure after the socket was opened does not close it.
abbrev pub Leaks : Env → List Call → ℕ → Outcome ℤ × List Call → Type 0
Leaks env t fd (exited s, u) = open_fds env u ≡ pos fd ∷ open_fds env t
Leaks env t fd (faulted, u) = ⊥
Leaks env t fd (done (negsuc n), u) = open_fds env u ≡ pos fd ∷ open_fds env t
Leaks env t fd (done (pos m), u) = m ≡ fd

-- Once the socket is open, `server` and `c_connect` return that socket, or fail with it left open:
-- no error path closes it.
server-Leaks :
    (host : List ℕ) (port fd : ℕ) (env : Env) (t : List Call)
    → (env t (socket af_inet sock_stream 0)).ret ≡ pos fd
    → Leaks env t fd (server port env t) × Leaks env t fd (c_connect host port env t)
unfolding server c_connect open_fds
server-Leaks host port fd env t e = (ground arith, ground arith)
