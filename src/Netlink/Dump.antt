-- ===== src/Netlink/Dump.antt =====
-- The run of src/nl_get_ipaddr.c: what it logs of the answer to its request.
use socketlab.Base.{
  ℕ, zero, suc, ◌≤◌, ◌<◌, ◌^◌, ◌≡◌, ◌≢◌, refl, List, [], ◌∷◌, ◌++◌, length, drop, take, take_all,
  concat, map, All, some, false, ◌==◌, arith, replicate,
}
use socketlab.Base.Int.{ℤ, pos, is_neg}
use socketlab.Sys.{Call, socket, bind, sendto, recvmsg, getpid, netlink, Env, done, filled}
use socketlab.Netlink.{u16_at, messages, buf_size, receive_dump, dump_request, nl_get_ipaddr}
use socketlab.Netlink.Message.{Message, Header, type_of, with_header, IsMessage}
use socketlab.Netlink.Datagram.{datagram, lines, messages-lines}

-- A datagram that fits the buffer, whose first message does not end the dump.
abbrev IsDatagram : Header → List Message → Type 0
IsDatagram h [] = ⊥
IsDatagram h (m ∷ ms) =
    (type_of m < 2 ^ 16)
    × (type_of m ≢ 3)
    × All IsMessage (m ∷ ms)
    × (length (datagram h (m ∷ ms)) ≤ buf_size)

-- After the calls `t`, the kernel sends these datagrams, and then one that begins with NLMSG_DONE.
abbrev pub Dumps : Env → ℤ → Header → List (List Message) → List ℕ → List Call → Type 0
Dumps env sock h [] status t =
    let r = env t (recvmsg sock buf_size) in
    (r.ret ≡ pos (length (with_header 3 h status))) × (r.out ≡ with_header 3 h status)
Dumps env sock h (d ∷ ds) status t =
    let r = env t (recvmsg sock buf_size) in
    (r.ret ≡ pos (length (datagram h d)))
    × (r.out ≡ datagram h d)
    × IsDatagram h d
    × Dumps env sock h ds status (recvmsg sock buf_size ∷ t)

abbrev pub receiving : ℤ → List (List Message) → List Call → List Call
receiving sock [] t = recvmsg sock buf_size ∷ t
receiving sock (d ∷ ds) t = receiving sock ds (recvmsg sock buf_size ∷ t)

goes_on :
    (h : Header) (d : List Message) (rest : List ℕ)
    → IsDatagram h d
    → (u16_at 4 (datagram h d ++ rest) == 3) ≡ false
goes_on h [] rest v = absurd v
goes_on h (m ∷ ms) rest (short, other, v, fits) = ground arith

goes_through :
    (h : Header) (d : List Message) (rest : List ℕ)
    → IsDatagram h d
    → messages (length (datagram h d)) (datagram h d ++ rest) (length (datagram h d))
      ≡ some (lines d)
goes_through h [] rest v = absurd v
goes_through h (m ∷ ms) rest (short, other, v, fits) =
    messages-lines (length (datagram h (m ∷ ms))) h (m ∷ ms) rest v (omega arith)

fits_buffer :
    (h : Header) (d : List Message) → IsDatagram h d → take buf_size (datagram h d) ≡ datagram h d
fits_buffer h [] v = absurd v
fits_buffer h (m ∷ ms) (short, other, v, fits) = take_all buf_size (datagram h (m ∷ ms)) fits

receive_dump-lines :
    (turns : ℕ) (sock : ℤ) (h : Header) (ds : List (List Message)) (status buf : List ℕ) (env : Env)
    (t : List Call)
    → Dumps env sock h ds status t
    → length ds < turns
    → receive_dump turns sock buf env t ≡ (done (some (concat (map lines ds))), receiving sock ds t)
unfolding receive_dump
receive_dump-lines zero sock h ds status buf env t v enough = absurd (omega arith)
receive_dump-lines (suc turns) sock h [] status buf env t (ret, out) enough = rw (ret, out) refl
receive_dump-lines (suc turns) sock h (d ∷ ds) status buf env t (ret, out, vd, v) enough =
    rw
      (
        ret,
        out,
        fits_buffer h d vd,
        goes_on h d (drop (length (datagram h d)) buf) vd,
        receive_dump-lines turns sock h ds status (filled (datagram h d) buf) env
            (recvmsg sock buf_size ∷ t) v (omega arith),
        goes_through h d (drop (length (datagram h d)) buf) vd,
      )
      refl

-- The calls before the first `recvmsg`, latest first.
abbrev pub asked : ℤ → ℕ → List Call → List Call
asked sock pid t =
    sendto sock (dump_request pid) (netlink 16 0 0)
    ∷ getpid
    ∷ bind sock (netlink 16 pid 0)
    ∷ getpid
    ∷ socket 16 3 0
    ∷ t

-- The socket is there, the process has a number, and binding and sending succeed.
abbrev pub Asks : Env → ℕ → ℕ → List Call → Type 0
Asks env sock pid t =
    ((env t (socket 16 3 0)).ret ≡ pos sock)
    × ((env (socket 16 3 0 ∷ t) getpid).ret ≡ pos pid)
    × (is_neg (env (getpid ∷ socket 16 3 0 ∷ t) (bind (pos sock) (netlink 16 pid 0))).ret ≡ false)
    × ((env (bind (pos sock) (netlink 16 pid 0) ∷ getpid ∷ socket 16 3 0 ∷ t) getpid).ret ≡ pos pid)
    × (is_neg
          (env (getpid ∷ bind (pos sock) (netlink 16 pid 0) ∷ getpid ∷ socket 16 3 0 ∷ t)
            (sendto (pos sock) (dump_request pid) (netlink 16 0 0))).ret
        ≡ false)

-- When the kernel takes the request for the addresses of all families, and answers it by datagrams of
-- messages and one that begins with NLMSG_DONE, the program ends (with a turn for each datagram and
-- one more). The lines that it logs about addresses are, in order, those of the IFA_ADDRESS and
-- IFA_BROADCAST attributes of all RTM_NEWADDR messages, each with the interface and the family of its
-- message. The socket is not closed.
pub nl_get_ipaddr-lists :
    (turns sock pid : ℕ) (h : Header) (ds : List (List Message)) (status : List ℕ) (env : Env)
    (t : List Call)
    → Asks env sock pid t
    → Dumps env (pos sock) h ds status (asked (pos sock) pid t)
    → length ds < turns
    → nl_get_ipaddr turns env t
      ≡ (done (some (concat (map lines ds))), receiving (pos sock) ds (asked (pos sock) pid t))
unfolding nl_get_ipaddr
nl_get_ipaddr-lists turns sock pid h ds status env t (opened, own, bound, again, sent) v enough =
    rw (opened, own, bound, again, sent)
      (receive_dump-lines turns (pos sock) h ds status (replicate buf_size 0) env
        (asked (pos sock) pid t) v enough)
