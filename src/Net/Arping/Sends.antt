-- ===== src/Net/Arping/Sends.antt =====
-- What the ARP senders send, and that they close their sockets.
use socketlab.Base.{
  ℕ, ◌≡◌, refl, ap, List, [], ◌∷◌, ◌++◌, sym, Bool-cases, some, inl, inr, false, arith, length,
  replicate, take_all, if◌then◌else◌, htons,
}
use socketlab.Base.Int.{ℤ, pos, negsuc, is_zero, is_minus_one, ℤ-cases}
use socketlab.Sys.{Env, Call, IsPosix, done, socket, sendto, if_nametoindex, inet_pton, perror}
use socketlab.Sys.Files.{opened, open_fds, HasOpen, KeepsOpen, >>=-KeepsOpen, then_do-HasOpen}
use socketlab.Netpackets.Arp.{ArpMsg, broadcast_mac, eth_p_arp}
use socketlab.Netpackets.Arp.Wire.{request_bytes, arp_wire}
use socketlab.Net.SockIf.{get_itf_hwaddr, Fills, get_itf_ipaddr, af_packet, sock_raw}
use socketlab.Net.SockIf.Descriptors.{sock_if-KeepsOpen}
use socketlab.Net.Arping.{send_arp_pack, send_from, arping, arping1, arp_addr, send_request}

-- The frame that asks, from `mac` and `ip`, for the MAC of `to_ip`.
abbrev pub request_frame : List ℕ → List ℕ → List ℕ → List ℕ
request_frame mac ip to_ip =
    broadcast_mac ++ (mac ++ (0x08 ∷ 0x06 ∷ (request_bytes mac ip to_ip ++ replicate 18 0)))

-- The calls that `arping` makes before its lookups of the interface.
abbrev pub before_lookups : List ℕ → List ℕ → List Call → List Call
before_lookups itf target t = if_nametoindex itf ∷ inet_pton target ∷ t

send_request_lem :
    (fd index : ℤ) (mac ip to_ip : List ℕ) (env : Env) (v : List Call)
    → length mac ≡ 6
    → length ip ≡ 4
    → length to_ip ≡ 4
    → let send = sendto fd (request_frame mac ip to_ip) (arp_addr index mac) in
      send_request fd index mac ip to_ip env v ≡ (
        if is_minus_one (env v send).ret
        then (done (negsuc 3), perror ∷ send ∷ v)
        else (done (pos 0), send ∷ v))
unfolding send_request
send_request_lem fd index mac ip to_ip env v m i o = rw (arp_wire mac ip to_ip m i o).0

-- When the target is an address and both lookups of the interface succeed, `arping` broadcasts one
-- request from the addresses of the interface for the target, and returns 0, or -4 if it could not be
-- sent.
pub arping_sends :
    (junk_mac junk_ip mac ip to_ip : List ℕ) (fd : ℤ) (itf target : List ℕ) (env : Env)
    (t u v : List Call)
    → length mac ≡ 6
    → length ip ≡ 4
    → length to_ip ≡ 4
    → is_zero (env t (inet_pton target)).ret ≡ false
    → (env t (inet_pton target)).out ≡ to_ip
    → get_itf_hwaddr itf false env (before_lookups itf target t) ≡ (done (pos 0, some mac), u)
    → get_itf_ipaddr itf false env u ≡ (done (pos 0, some ip), v)
    → let index = (env (inet_pton target ∷ t) (if_nametoindex itf)).ret in
      let send = sendto fd (request_frame mac ip to_ip) (arp_addr index mac) in
      arping junk_mac junk_ip fd itf target env t ≡ (
        if is_minus_one (env v send).ret
        then (done (negsuc 3), perror ∷ send ∷ v)
        else (done (pos 0), send ∷ v))
unfolding arping
arping_sends junk_mac junk_ip mac ip to_ip fd itf target env t u v m i o p q hw pr =
    rw (p, q, take_all 4 to_ip (omega arith), hw, pr)
      (send_request_lem fd (env (inet_pton target ∷ t) (if_nametoindex itf)).ret mac ip to_ip env v
        m i o)

send_request-KeepsOpen :
    (fd index : ℤ) (mac ip to_ip : List ℕ) → KeepsOpen (send_request fd index mac ip to_ip)
unfolding send_request open_fds
send_request-KeepsOpen fd index mac ip to_ip env t posix = ground arith

arping-KeepsOpen :
    (junk_mac junk_ip : List ℕ) (fd : ℤ) (itf target : List ℕ)
    → KeepsOpen (arping junk_mac junk_ip fd itf target)
unfolding arping open_fds
arping-KeepsOpen junk_mac junk_ip fd itf target env t posix =
    let lookups = sock_if-KeepsOpen itf [] false fd in
    >>=-KeepsOpen (get_itf_hwaddr itf false) _ lookups.0
      (λ hw.
        >>=-KeepsOpen (get_itf_ipaddr itf false) _ lookups.1
          (λ pr. send_request-KeepsOpen _ _ _ _ _))
      env (before_lookups itf target t) posix

send_from-KeepsOpen :
    (fd index : ℤ) (msg : ArpMsg) (found : Fills) → KeepsOpen (send_from fd index msg found)
unfolding send_from open_fds
send_from-KeepsOpen fd index msg (code, mac) env t posix = ground arith

send_arp_pack-KeepsOpen :
    (fd : ℤ) (itf : List ℕ) (msg : ArpMsg) → KeepsOpen (send_arp_pack fd itf msg)
unfolding send_arp_pack open_fds
send_arp_pack-KeepsOpen fd itf msg env t posix =
    let index = (env t (if_nametoindex itf)).ret in
    elim (Bool-cases (is_zero index)) [
      | inl e ↦ rw e refl
      | inr e ↦ rw e (
          >>=-KeepsOpen (get_itf_hwaddr itf false) (λ found. send_from fd index msg found)
            (sock_if-KeepsOpen itf [] false fd).0 (send_from-KeepsOpen fd index msg) env
            (if_nametoindex itf ∷ t) posix)
    ]

-- The calls of `arping1` with its socket open.
arping1_open :
    (junk_mac junk_ip itf target : List ℕ) (env : Env) (t : List Call) (fd : ℕ)
    → IsPosix env
    → (env t (socket af_packet sock_raw (htons eth_p_arp))).ret ≡ pos fd
    → HasOpen env (open_fds env t) (arping1 junk_mac junk_ip itf target env t)
unfolding arping1 open_fds
arping1_open junk_mac junk_ip itf target env t fd posix e = rw e (
    then_do-HasOpen env (pos fd ∷ open_fds env t) (open_fds env t)
      (arping junk_mac junk_ip (pos fd) itf target env
        (socket af_packet sock_raw (htons eth_p_arp) ∷ t))
      _
      (rw e at (
        arping-KeepsOpen junk_mac junk_ip (pos fd) itf target env
          (socket af_packet sock_raw (htons eth_p_arp) ∷ t) posix))
      (λ code u o. ground arith))

arping1_closed :
    (junk_mac junk_ip itf target : List ℕ) (env : Env) (t : List Call) (n : ℕ)
    → IsPosix env
    → (env t (socket af_packet sock_raw (htons eth_p_arp))).ret ≡ negsuc n
    → HasOpen env (open_fds env t) (arping1 junk_mac junk_ip itf target env t)
unfolding arping1 open_fds
arping1_closed junk_mac junk_ip itf target env t n posix e =
    let s = socket af_packet sock_raw (htons eth_p_arp) in
    rw (e, sym (rw e at (posix.minus_one t s))) (ap (λ ret. opened ret (open_fds env t)) e)

arping1-KeepsOpen :
    (junk_mac junk_ip itf target : List ℕ) → KeepsOpen (arping1 junk_mac junk_ip itf target)
unfolding arping1 open_fds
arping1-KeepsOpen junk_mac junk_ip itf target env t posix =
    elim (ℤ-cases (env t (socket af_packet sock_raw (htons eth_p_arp))).ret) [
      | inl (fd, e) ↦ arping1_open junk_mac junk_ip itf target env t fd posix e
      | inr (n, e) ↦ arping1_closed junk_mac junk_ip itf target env t n posix e
    ]

-- Where the calls report failure by -1 alone, `arping1` returns and leaves the same sockets open
-- as it found: it closes its own on every path. `arping` and `send_arp_pack`, which are given a
-- socket, return too, and leave the sockets alone.
pub arp-KeepsOpen :
    (junk_mac junk_ip : List ℕ) (fd : ℤ) (itf target : List ℕ) (msg : ArpMsg)
    → KeepsOpen (arping1 junk_mac junk_ip itf target)
      × KeepsOpen (arping junk_mac junk_ip fd itf target)
      × KeepsOpen (send_arp_pack fd itf msg)
arp-KeepsOpen junk_mac junk_ip fd itf target msg = (
  arping1-KeepsOpen junk_mac junk_ip itf target,
  arping-KeepsOpen junk_mac junk_ip fd itf target,
  send_arp_pack-KeepsOpen fd itf msg,
)
