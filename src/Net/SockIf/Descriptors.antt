-- ===== src/Net/SockIf/Descriptors.antt =====
-- The functions of sock_if.c close the socket that they open, on every path.
use socketlab.Base.{ℕ, List, ◌∷◌, ◌≡◌, refl, arith, Bool, true, false, none, some}
use socketlab.Base.Int.{ℤ, pos, is_neg}
use socketlab.Sys.{Env, Call, Outcome, done, exited, faulted, socket, if_nametoindex, bind}
use socketlab.Sys.Files.{open_fds, KeepsOpen}
use socketlab.Net.SockIf.{
  Fills, itf_addr, get_itf_hwaddr, get_itf_ipaddr, bind_itf, send_frame, af_inet, sock_dgram,
}

-- Where the calls report failure by -1 alone, `get_itf_hwaddr`, `get_itf_ipaddr`, `bind_itf` and
-- `send_frame` return, and leave the same sockets open as they found, whatever else the system
-- answers.
pub sock_if-KeepsOpen :
    (itf frame : List ℕ) (is_null : Bool) (fd : ℤ)
    → KeepsOpen (get_itf_hwaddr itf is_null)
      × KeepsOpen (get_itf_ipaddr itf is_null)
      × KeepsOpen (bind_itf fd itf)
      × KeepsOpen (send_frame itf frame)
unfolding get_itf_hwaddr get_itf_ipaddr bind_itf send_frame open_fds
sock_if-KeepsOpen itf frame true fd = (
  λ env t posix. refl,
  λ env t posix. refl,
  λ env t posix. ground arith,
  λ env t posix. ground arith,
)
sock_if-KeepsOpen itf frame false fd = (
  λ env t posix. ground (arith, posix.minus_one t (socket af_inet sock_dgram 0)),
  λ env t posix. ground (arith, posix.minus_one t (socket af_inet sock_dgram 0)),
  λ env t posix. ground arith,
  λ env t posix. ground arith,
)

-- The value and the bytes that a function returned agree: 0 with bytes, or an error without.
abbrev pub FillsOrFails : Outcome Fills → Type 0
FillsOrFails (done (code, some b)) = code ≡ pos 0
FillsOrFails (done (code, none)) = is_neg code ≡ true
FillsOrFails (exited status) = ⊥
FillsOrFails faulted = ⊥

-- Both address functions return; they return 0 and fill the buffer, or a negative value and leave
-- it as it was.
get_itf-FillsOrFails :
    (itf : List ℕ) (is_null : Bool) (env : Env) (t : List Call)
    → FillsOrFails (get_itf_hwaddr itf is_null env t).0
      × FillsOrFails (get_itf_ipaddr itf is_null env t).0
unfolding get_itf_hwaddr get_itf_ipaddr
get_itf-FillsOrFails itf true env t = (refl, refl)
get_itf-FillsOrFails itf false env t = ground arith

-- `bind_itf` does not notice an interface that does not exist: where `if_nametoindex` answers 0, its
-- error value, it binds the socket to index 0 all the same, and returns what `bind` returns.
bind_itf_unknown :
    (fd : ℤ) (itf : List ℕ) (env : Env) (t : List Call)
    → (env t (if_nametoindex itf)).ret ≡ pos 0
    → bind_itf fd itf env t ≡ (
      done (env (if_nametoindex itf ∷ t) (bind fd (itf_addr (pos 0)))).ret,
      bind fd (itf_addr (pos 0)) ∷ if_nametoindex itf ∷ t,
    )
unfolding bind_itf
bind_itf_unknown fd itf env t e = rw e
