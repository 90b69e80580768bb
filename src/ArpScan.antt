-- ===== src/ArpScan.antt =====
-- src/arp_scan.c: asks each host of a subnet for its MAC. The conversions of the C library between
-- addresses and texts are parameters.
pub mod Subnet
pub mod Probe
mod Tests
use socketlab.Base.{
  ℕ, zero, suc, ◌+◌, ◌-◌, ◌^◌, List, [], ◌∷◌, ◌++◌, Option, none, some, Bool, false, ◌==◌, ltb,
  ◌&&◌, if◌then◌else◌, bit_and, bit_or, u32, htons, htonl, le32, length, take, drop, replicate,
  bytes_eq,
}
use mathlib.Core.Option
use socketlab.Base.Int.{ℤ, pos, is_minus_one}
use socketlab.Sys.{
  Sys, Call, socket, close, recvfrom, perror, pure, exit, fault, call, ◌>>=◌, ◌>>◌,
  when◌run◌otherwise◌, filled,
}
use socketlab.Netpackets.Arp.{ArpMsg, arp_of_bytes, arp_reply, eth_p_arp}
use socketlab.Net.SockIf.{af_packet, sock_raw, get_itf_hwaddr, get_itf_ipaddr, bind_itf}
use socketlab.Net.Arping.{arping}
use socketlab.Net.Common.{set_recv_timeout}

-- `sizeof(arp_msg_t)` and EAGAIN
abbrev pub arp_msg_size : ℕ
arp_msg_size = 60

abbrev pub eagain : ℕ
eagain = 11

-- `n` is a `uint32_t`, and `none` a shift by 32 bits or more, which C does not define.
unfoldable pub create_mask : ℕ → Option ℕ
create_mask n =
    let shift = u32 (32 + 2 ^ 32 - n) in
    if ltb shift 32 then some (2 ^ 32 - 1 - (2 ^ shift - 1)) else none

unfoldable pub match_ip : List ℕ → List ℕ → Bool
match_ip ip1 ip2 = bytes_eq (take 4 ip1) (take 4 ip2)

unfoldable pub match_mac : List ℕ → List ℕ → Bool
match_mac mac1 mac2 = bytes_eq (take 6 mac1) (take 6 mac2)

-- The test of a message: a reply, to this host, from the target.
unfoldable pub is_answer : List ℕ → List ℕ → ℕ → ArpMsg → Bool
is_answer v4 mac target_ip msg =
    (msg.opcode == htons arp_reply)
    && (match_ip msg.target_ip v4
        && (match_mac msg.target_mac mac && match_ip msg.sender_ip (le32 target_ip)))

-- The address `i` of a subnet, in network order, as `src_ip` and `mask` are.
unfoldable pub target : ℕ → ℕ → ℕ → ℕ
target src_ip subnet_mask i = bit_or (bit_and src_ip subnet_mask) (htonl i)

-- `htonl(host_num)`, where the loop ends.
unfoldable pub host_end : ℕ → ℕ
host_end subnet_mask = htonl (2 ^ 32 - 1 - subnet_mask)

-- What a program of this kind has: a socket, an interface and its addresses.
pub record Scanner : Type 0 where
  pub inet_ntoa : ℕ → List ℕ
  pub junk_mac : List ℕ
  pub junk_ip : List ℕ
  pub sock_fd : ℤ
  pub itf : List ℕ
  pub v4 : List ℕ
  pub mac : List ℕ

-- The loop over the tries. `old` are the bytes of `arp_msg`; the result is the message whose sender is
-- printed, if any.
unfoldable pub probe : Scanner → ℕ → ℕ → List ℕ → Sys (Option ArpMsg)
probe s target_ip zero old = pure none
probe s target_ip (suc tries) old = do
  arping s.junk_mac s.junk_ip s.sock_fd s.itf (s.inet_ntoa target_ip)
  r ← call (recvfrom s.sock_fd arp_msg_size)
  let bytes = filled r.out old
  when is_minus_one r.ret
      run (when r.errno == eagain
          run probe s target_ip tries bytes
          otherwise (do call perror; probe s target_ip tries bytes))
      otherwise (when is_answer s.v4 s.mac target_ip (arp_of_bytes bytes)
          run pure (some (arp_of_bytes bytes))
          otherwise probe s target_ip tries bytes)

-- The loop over the hosts, with its turns counted: from `i`, `turns` of them. The results are those of
-- `probe`, in order.
unfoldable pub sweep : Scanner → ℕ → ℕ → ℕ → ℕ → Sys (List (Option ArpMsg))
sweep s src_ip subnet_mask zero i = pure []
sweep s src_ip subnet_mask (suc turns) i = do
  found ← probe s (target src_ip subnet_mask i) 3 (replicate arp_msg_size 0)
  others ← sweep s src_ip subnet_mask turns (suc i)
  pure (found ∷ others)

-- The part of `main` behind the conversions, with the subnet mask in network order.
unfoldable pub scan : Scanner → ℕ → ℕ → Sys (List (Option ArpMsg))
scan s src_ip subnet_mask = do
  b ← bind_itf s.sock_fd s.itf
  when is_minus_one b run exit 1 otherwise (do
    t ← set_recv_timeout s.sock_fd 3 0
    when is_minus_one t run (do call perror; pure (pos 0)) otherwise pure t
    found ← sweep s src_ip subnet_mask (host_end subnet_mask - 1) 1
    call (close s.sock_fd)
    pure found)

-- `main` with its arguments: the interface, the address (as `inet_aton` stores it) and the length of
-- the prefix. A lookup that fails leaves zeros.
unfoldable pub arp_scan :
    (ℕ → List ℕ) → List ℕ → List ℕ → List ℕ → ℕ → ℕ → Sys (List (Option ArpMsg))
arp_scan inet_ntoa junk_mac junk_ip itf src_ip mask_num = do
  s ← call (socket af_packet sock_raw (htons eth_p_arp))
  (ip_code, v4) ← get_itf_ipaddr itf false
  (mac_code, mac) ← get_itf_hwaddr itf false
  elim (create_mask mask_num) [
    | none ↦ fault
    | some m ↦
        scan
          (record {
            inet_ntoa = inet_ntoa;
            junk_mac = junk_mac;
            junk_ip = junk_ip;
            sock_fd = s.ret;
            itf = itf;
            v4 = Option.get_or v4 (replicate 4 0);
            mac = Option.get_or mac (replicate 6 0);
          })
          src_ip (htonl m)
  ]
