-- ===== src/ArpScan/Probe.antt =====
-- What one host is asked, and which answer is taken.
use socketlab.Base.{
  ℕ, zero, suc, ◌≡◌, List, [], Option, none, some, true, ◌==◌, arith, htons, le32, take,
  bytes_eq_sound,
}
use socketlab.Base.Int.{is_minus_one}
use socketlab.Sys.{filled, Call, recvfrom, Env, IsPosix}
use socketlab.Sys.Files.{open_fds}
use socketlab.Sys.Ends.{Ends, then_do-Ends, if-Ends, HasOpen-Ends}
use socketlab.Net.Arping.{arping}
use socketlab.Net.Arping.Sends.{arp-KeepsOpen}
use socketlab.Netpackets.Arp.{ArpMsg, arp_reply, arp_of_bytes}
use socketlab.ArpScan.{Scanner, probe, is_answer, match_ip, match_mac, arp_msg_size, eagain}

-- A reply to this host from the address asked for.
abbrev AnswersFor : Scanner → ℕ → ArpMsg → Type 0
AnswersFor s target_ip msg =
    (msg.opcode ≡ htons arp_reply)
    × (take 4 msg.target_ip ≡ take 4 s.v4)
    × (take 6 msg.target_mac ≡ take 6 s.mac)
    × (take 4 msg.sender_ip ≡ le32 target_ip)

abbrev pub Found : Scanner → ℕ → Option ArpMsg → Type 0
Found s target_ip none = Unit
Found s target_ip (some msg) = AnswersFor s target_ip msg

answer_sound :
    (s : Scanner) (target_ip : ℕ) (msg : ArpMsg)
    → is_answer s.v4 s.mac target_ip msg ≡ true
    → AnswersFor s target_ip msg
unfolding is_answer match_ip match_mac
answer_sound s target_ip msg h = grind (arith, bytes_eq_sound)

arping-Ends :
    (s : Scanner) (target_ip : ℕ) (env : Env) (t : List Call)
    → IsPosix env
    → Ends
        (λ code. Unit)
        (arping s.junk_mac s.junk_ip s.sock_fd s.itf (s.inet_ntoa target_ip) env t)
arping-Ends s target_ip env t posix = HasOpen-Ends env (open_fds env t) _ (
    (arp-KeepsOpen s.junk_mac s.junk_ip s.sock_fd s.itf (s.inet_ntoa target_ip) (arp_of_bytes [])).1
      env t posix)

-- Where the calls report failure by -1 alone, and whatever else the network does, the tries for an address
-- return, without an exit or a fault, and a message that is taken (and printed) is a reply, addressed to
-- the address and the MAC of this host, from the address asked for.
pub probe-Found :
    (s : Scanner) (target_ip tries : ℕ) (old : List ℕ) (env : Env) (t : List Call)
    → IsPosix env
    → Ends (Found s target_ip) (probe s target_ip tries old env t)
unfolding probe
probe-Found s target_ip zero old env t posix = tt
probe-Found s target_ip (suc tries) old env t posix =
    then_do-Ends (λ code. Unit) (Found s target_ip) env _ _ (arping-Ends s target_ip env t posix)
      (λ code u h.
        let r = env u (recvfrom s.sock_fd arp_msg_size) in
        let bytes = filled r.out old in
        let again = λ (v : List Call). probe-Found s target_ip tries bytes env v posix in
        if-Ends (Found s target_ip) (is_minus_one r.ret) _ _
          (λ e. if-Ends (Found s target_ip) (r.errno == eagain) _ _ (λ e'. again _) (λ e'. again _))
          (λ e.
            if-Ends (Found s target_ip) (is_answer s.v4 s.mac target_ip (arp_of_bytes bytes)) _ _
              (λ e'. answer_sound s target_ip (arp_of_bytes bytes) e') (λ e'. again _)))
