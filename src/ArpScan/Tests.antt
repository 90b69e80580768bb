-- ===== src/ArpScan/Tests.antt =====
-- A scan of 192.168.5.4/24, and of a single host, which answers.
use socketlab.Base.{
  htons, bytes_eq, ℕ, ◌-◌, ◌*◌, ◌/◌, ◌^◌, ◌≡◌, refl, List, [], ◌∷◌, ◌++◌, true, none, some, arith,
  htonl, replicate,
}
use socketlab.Base.Int.{pos}
use socketlab.Sys.Ends.{Ends}
use socketlab.Sys.Lan.{lan_ret, lan_out, mac, ip, target}
use socketlab.Sys.{Call, recvfrom, Env, IsPosix, done}
use socketlab.Netpackets.Arp.{arp_of_bytes}
use socketlab.ArpScan.{Scanner, create_mask, host_end, sweep, probe, is_answer, match_ip, match_mac}
use socketlab.Net.Arping.{arping, send_request}
use socketlab.Net.SockIf.{get_itf_hwaddr, get_itf_ipaddr}
use socketlab.ArpScan.Subnet.{addresses, probe_all, sweep_hosts}
use socketlab.ArpScan.Probe.{Found, probe-Found}

abbrev scanner : Scanner
scanner = record {
  inet_ntoa = λ a. target;
  junk_mac = [];
  junk_ip = [];
  sock_fd = pos 3;
  itf = 101 ∷ [];
  v4 = ip;
  mac = mac;
}

-- 192.168.5.4 in host order
abbrev host : ℕ
host = 0xc0a80504

mask_24 : create_mask 24 ≡ some 0xffffff00
unfolding create_mask
mask_24 = refl

mask_0 : create_mask 0 ≡ none
unfolding create_mask
mask_0 = refl

sweep_hosts_example :
    (m : ℕ) × (create_mask 24 ≡ some m)
    × (host_end (htonl m) ≡ 2 ^ 8 - 1)
    × (sweep scanner (htonl host) (htonl m) (host_end (htonl m) - 1) 1
        ≡ probe_all scanner (addresses (host / 2 ^ 8 * 2 ^ 8) (2 ^ 8 - 2) 1))
sweep_hosts_example = sweep_hosts 24 8 scanner host (omega arith) refl (omega arith)

-- The network, with a host at 10.0.0.9 that answers the request: an Ethernet header, an ARP reply and
-- the padding.
abbrev answer : List ℕ
answer =
    mac
    ++ (2 ∷ 0 ∷ 0 ∷ 0 ∷ 0 ∷ 9 ∷ [])
    ++ (8 ∷ 6 ∷ 0 ∷ 1 ∷ 8 ∷ 0 ∷ 6 ∷ 4 ∷ 0 ∷ 2 ∷ [])
    ++ (2 ∷ 0 ∷ 0 ∷ 0 ∷ 0 ∷ 9 ∷ [])
    ++ target
    ++ mac
    ++ ip
    ++ replicate 18 0

abbrev answering_ret : Call → ℕ
answering_ret (recvfrom fd n) = 60
answering_ret c = lan_ret c

abbrev answering_out : Call → List ℕ
answering_out (recvfrom fd n) = answer
answering_out c = lan_out c

abbrev answering : Env
answering t c = record { ret = pos (answering_ret c); out = answering_out c; errno = 0 }

answering-IsPosix : IsPosix answering
answering-IsPosix = record { minus_one = λ t c. refl }

answer_found : is_answer ip mac 0x0900000a (arp_of_bytes answer) ≡ true
unfolding is_answer match_ip match_mac arp_of_bytes bytes_eq htons
answer_found = refl

probe_run :
    (probe scanner 0x0900000a 3 (replicate 60 0) answering []).0 ≡ done (some (arp_of_bytes answer))
unfolding probe arping get_itf_hwaddr get_itf_ipaddr send_request is_answer arp_of_bytes htons
    match_ip bytes_eq match_mac
probe_run = refl

probe-Found_example :
    Ends (Found scanner 0x0900000a) (probe scanner 0x0900000a 3 (replicate 60 0) answering [])
probe-Found_example =
    probe-Found scanner 0x0900000a 3 (replicate 60 0) answering [] answering-IsPosix
