-- ===== src/Netlink/Errors.antt =====
-- How src/nl_get_ipaddr.c leaves its socket.
use socketlab.Base.{
  ℕ, zero, suc, ◌≡◌, refl, ap, ◌∙◌, List, ◌∷◌, Bool, if◌then◌else◌, Bool-cases, inl, inr, true,
  false, arith, replicate, take, ◌==◌,
}
use socketlab.Base.Int.{ℤ, pos, negsuc, is_neg, to_nat, ℤ-cases}
use socketlab.Sys.{
  Call, Addr, socket, bind, close, sendto, recvmsg, getpid, perror, netlink, Env, Outcome, done,
  exited, faulted, pure, then_do, filled,
}
use socketlab.Sys.Files.{open_fds, closed}
use socketlab.Netlink.{
  u16_at, messages, buf_size, receive_dump, listed_before, dump_request, nl_get_ipaddr,
}

-- The run ends with status 1 and no socket more than before; or it returns, and the socket is left open.
abbrev pub Closes : {A : Type 0} → Env → List ℤ → ℤ → Outcome A × List Call → Type 0
Closes env fds sock (done r, u) = open_fds env u ≡ sock ∷ fds
Closes env fds sock (exited s, u) = (s ≡ 1) × (open_fds env u ≡ fds)
Closes env fds sock (faulted, u) = ⊥

then_do-Closes :
    {A B : Type 0} (env : Env) (fds : List ℤ) (sock : ℤ) (r : Outcome A × List Call) (f : A → B)
    → Closes env fds sock r
    → Closes env fds sock (then_do r (λ a. pure (f a)) env)
then_do-Closes env fds sock (done a, u) f h = h
then_do-Closes env fds sock (exited s, u) f h = h
then_do-Closes env fds sock (faulted, u) f h = h

if-Closes :
    {A : Type 0} (env : Env) (fds : List ℤ) (sock : ℤ) (b : Bool) (r r' : Outcome A × List Call)
    → Closes env fds sock r
    → Closes env fds sock r'
    → Closes env fds sock (if b then r else r')
if-Closes env fds sock true r r' h k = h
if-Closes env fds sock false r r' h k = k

module _ (env : Env) (fds : List ℤ) (sock : ℕ) where
  abbrev received : List Call → List ℕ → List ℕ
  received t buf = filled (take buf_size (env t (recvmsg (pos sock) buf_size)).out) buf

  closed_again :
      (t : List Call) → open_fds env t ≡ pos sock ∷ fds → closed (pos sock) (open_fds env t) ≡ fds
  closed_again t h = ap (closed (pos sock)) h ∙ rw same refl
    where
      same : (sock == sock) ≡ true
      same = ground arith

  receive_dump-Closes :
      (turns : ℕ) (buf : List ℕ) (t : List Call)
      → open_fds env t ≡ pos sock ∷ fds
      → Closes env fds (pos sock) (receive_dump turns (pos sock) buf env t)
  unfolding receive_dump open_fds
  receive_dump-Closes zero buf t h = h
  receive_dump-Closes (suc turns) buf t h =
      elim (Bool-cases (is_neg (env t (recvmsg (pos sock) buf_size)).ret)) [
        | inl e ↦ rw e (refl, closed_again t h)
        | inr e ↦ elim (Bool-cases (u16_at 4 (received t buf) == 3)) [
          | inl last ↦ rw (e, last) h
          | inr more ↦
              rw (e, more)
                (then_do-Closes env fds (pos sock)
                  (receive_dump turns (pos sock) (received t buf) env
                    (recvmsg (pos sock) buf_size ∷ t))
                  (listed_before (
                    messages (to_nat (env t (recvmsg (pos sock) buf_size)).ret) (received t buf)
                      (to_nat (env t (recvmsg (pos sock) buf_size)).ret)))
                  (receive_dump-Closes turns (received t buf) (recvmsg (pos sock) buf_size ∷ t) h))
        ]
      ]

  -- Once the socket is open.
  asks-Closes :
      (turns : ℕ) (t : List Call)
      → (env t (socket 16 3 0)).ret ≡ pos sock
      → open_fds env t ≡ fds
      → Closes env fds (pos sock) (nl_get_ipaddr turns env t)
  unfolding nl_get_ipaddr open_fds
  asks-Closes turns t e h = rw e (
      if-Closes env fds (pos sock) (is_neg (env (getpid ∷ opens) (bind (pos sock) own)).ret)
        (exited 1, close (pos sock) ∷ perror ∷ bind (pos sock) own ∷ getpid ∷ opens)
        (if is_neg (env asked (sendto (pos sock) request kernel)).ret
          then (exited 1, close (pos sock) ∷ perror ∷ sendto (pos sock) request kernel ∷ asked)
          else receive_dump turns (pos sock) (replicate buf_size 0) env
              (sendto (pos sock) request kernel ∷ asked))
        (refl, closed_again opens is_open)
        (if-Closes env fds (pos sock) (is_neg (env asked (sendto (pos sock) request kernel)).ret)
          (exited 1, close (pos sock) ∷ perror ∷ sendto (pos sock) request kernel ∷ asked)
          (receive_dump turns (pos sock) (replicate buf_size 0) env
            (sendto (pos sock) request kernel ∷ asked))
          (refl, closed_again opens is_open)
          (receive_dump-Closes turns (replicate buf_size 0)
            (sendto (pos sock) request kernel ∷ asked) is_open)))
    where
      opens : List Call
      opens = socket 16 3 0 ∷ t

      own : Addr
      own = netlink 16 (to_nat (env opens getpid).ret) 0

      kernel : Addr
      kernel = netlink 16 0 0

      asked : List Call
      asked = getpid ∷ bind (pos sock) own ∷ getpid ∷ opens

      request : List ℕ
      request = dump_request (to_nat (env (bind (pos sock) own ∷ getpid ∷ opens) getpid).ret)

      is_open : open_fds env opens ≡ pos sock ∷ fds
      is_open = rw (e, h) refl

no_socket-Closes :
    (turns n : ℕ) (env : Env) (t : List Call)
    → (env t (socket 16 3 0)).ret ≡ negsuc n
    → Closes env (open_fds env t) (negsuc n) (nl_get_ipaddr turns env t)
unfolding nl_get_ipaddr open_fds
no_socket-Closes turns n env t e = rw e (refl, rw e refl)

-- However the calls end: if the program ends by an error, its status is 1 and it has closed the
-- socket that it opened; if it returns, or is still receiving, the socket is open.
pub nl_get_ipaddr-Closes :
    (turns : ℕ) (env : Env) (t : List Call)
    → Closes env (open_fds env t) (env t (socket 16 3 0)).ret (nl_get_ipaddr turns env t)
nl_get_ipaddr-Closes turns env t = elim (ℤ-cases (env t (socket 16 3 0)).ret) [
  | inl (s, e) ↦ rw e (asks-Closes env (open_fds env t) s turns t e refl)
  | inr (s, e) ↦ rw e (no_socket-Closes turns s env t e)
]
