-- ===== src/Ping.antt =====
-- src/send_icmp_echo.c: ping. The log and the prints are left out, and so are `mean`, `m2` and
-- `mdev_rtt`, which are `double`.
pub mod Stats
pub mod Rtt
pub mod Wire
pub mod Reply
mod Tests
use socketlab.Base.{
  ℕ, zero, suc, ◌+◌, ◌-◌, ◌*◌, ◌/◌, ◌%◌, ◌^◌, List, [], ◌∷◌, ◌++◌, Option, none, some, Bool, ◌==◌,
  ◌&&◌, ltb, if◌then◌else◌, htons, u16, u64, drop, length, bit_and,
}
use socketlab.Base.Int.{ℤ, pos, negsuc, is_neg, is_minus_one, is_zero, bits32, to_nat}
use socketlab.Sys.{
  Sys, Addr, Call, socket, sendto, recvfrom, poll, getpid, pure, exit, fault, call, ◌>>=◌, ◌>>◌,
  when◌run◌otherwise◌,
}
use socketlab.Netpackets.Checksum.{icmp_checksum}
use socketlab.Netpackets.Icmp.{
  IcmpHdr, IcmpEcho, PingPacket, ping_bytes, ping_of_bytes, ping_packet_size,
}
use socketlab.Netpackets.Ipv4.{Ipv4Hdr, ipv4_of_bytes, ipv4_ntohs}
use socketlab.Net.SockIf.{af_inet, sock_raw}
use socketlab.Net.Common.{make_sockaddr}
use socketlab.Clock.{get_timestamp_us}
use socketlab.Util.Round.{u64_min, u64_max}

-- ICMP_TYPE_ECHO_REQUEST, ICMP_TYPE_ECHO_REPLY and IPPROTO_ICMP
abbrev pub icmp_type_echo_request : ℕ
icmp_type_echo_request = 8

abbrev pub icmp_type_echo_reply : ℕ
icmp_type_echo_reply = 0

abbrev pub ipproto_icmp : ℕ
ipproto_icmp = 1

-- MAGIC_STR
abbrev pub magic_str : List ℕ
magic_str =
    48 ∷ 49 ∷ 50 ∷ 51 ∷ 52 ∷ 53 ∷ 54 ∷ 55 ∷ 56 ∷ 57 ∷ 97 ∷ 98 ∷ 99 ∷ 100 ∷ 101 ∷ 102 ∷ 65 ∷ 66 ∷ []

-- `enum error_code`
abbrev pub recv_success : ℤ
recv_success = pos 0

abbrev pub recv_timeout : ℤ
recv_timeout = negsuc 0

abbrev pub recv_error : ℤ
recv_error = negsuc 1

abbrev pub recv_bad_packet : ℤ
recv_bad_packet = negsuc 2

-- EAGAIN and EWOULDBLOCK
abbrev pub eagain : ℕ
eagain = 11

-- `recv_data_t`, without the address of the sender, which is only printed.
pub record RecvData : Type 0 where
  pub timestamp : ℕ
  pub ipv4_hdr : Ipv4Hdr
  pub icmp : PingPacket

-- `struct ping_stats`; `rtt_count` is `rtt_stats.c`.
pub record PingStats : Type 0 where
  pub sent : ℕ
  pub recv : ℕ
  pub lost : ℕ
  pub min_rtt : ℕ
  pub max_rtt : ℕ
  pub total_rtt : ℕ
  pub rtt_count : ℕ

-- `rtt_stats`, with the count of `update_rtt_stats`.
unfoldable pub rtt_stats : ℕ → PingStats → PingStats
rtt_stats rtt s =
    let first = if s.min_rtt == 0 then rtt else s.min_rtt in
    record s {
      total_rtt = u64 (s.total_rtt + rtt);
      min_rtt = u64_min first rtt;
      max_rtt = u64_max s.max_rtt rtt;
      rtt_count = u64 (s.rtt_count + 1);
    }

-- The request of `send_icmp_echo` before its checksum is computed.
unfoldable pub bare_request : ℕ → ℕ → PingPacket
bare_request pid seq = record {
  hdr = record { type = icmp_type_echo_request; code = 0; checksum = 0 };
  echo = record { identifier = htons (u16 (bit_and pid 0xffff)); sequence = htons (u16 seq) };
  payload = magic_str;
}

-- The request with its checksum; `none` is a read past it.
unfoldable pub echo_request : ℕ → ℕ → Option PingPacket
echo_request pid seq =
    let p = bare_request pid seq in
    elim (icmp_checksum (ping_bytes p) ping_packet_size) [
      | none ↦ none
      | some sum ↦ some (record p { hdr = record p.hdr { checksum = htons sum } })
    ]

-- The end of `send_icmp_echo`: the packet, if there is one, is sent.
unfoldable pub send_packet : ℤ → Addr → Option PingPacket → Sys ℤ
send_packet sock addr none = fault
send_packet sock addr (some packet) = do r ← call (sendto sock (ping_bytes packet) addr); pure r.ret

unfoldable pub send_icmp_echo : ℤ → List ℕ → ℕ → Sys ℤ
send_icmp_echo sock ip seq = do
  addr ← make_sockaddr af_inet (some ip) 0
  pid ← call getpid
  send_packet sock addr (echo_request (bits32 pid.ret) seq)

-- `sizeof(buf)`
abbrev pub buf_size : ℕ
buf_size = 512

-- What `recv_icmp_echo` stores, from all 512 bytes of `buf`.
unfoldable pub read_reply : List ℕ → RecvData → RecvData
read_reply buf d =
    let ip = ipv4_ntohs (ipv4_of_bytes buf) in
    let p = ping_of_bytes (drop (ip.ihl * 4) buf) in
    record d {
      ipv4_hdr = ip;
      icmp = record p {
        hdr = record p.hdr { checksum = htons p.hdr.checksum };
        echo = record { identifier = htons p.echo.identifier; sequence = htons p.echo.sequence };
      };
    }

-- `junk` is what `buf`, which is not initialised, holds. The value returned, and `*d` afterwards.
unfoldable pub recv_icmp_echo : List ℕ → ℤ → RecvData → Sys (ℤ × RecvData)
recv_icmp_echo junk sock d = do
  r ← call (poll sock 1000)
  when is_minus_one r.ret
      run pure (recv_error, d)
      otherwise (when is_zero r.ret run pure (recv_timeout, d) otherwise (do
        m ← call (recvfrom sock buf_size)
        t ← get_timestamp_us
        let at_t : RecvData = record d { timestamp = t }
        when is_neg m.ret
            run pure (if m.errno == eagain then recv_timeout else recv_error, at_t)
            otherwise (when ltb (to_nat m.ret) 8
                run pure (recv_bad_packet, at_t)
                otherwise pure
                    (recv_success, read_reply (m.out ++ drop (length m.out) junk) at_t))))

-- What a turn of the loop of `ping` counts, for the result of `recv_icmp_echo` and the start time.
unfoldable pub count_reply : ℕ → ℤ → RecvData → PingStats → PingStats
count_reply start code d s =
    let rtt = u64 (d.timestamp + 2 ^ 64 - start) in
    if is_zero code
    then (let t : PingStats = record s { recv = u64 (s.recv + 1) } in
        if (d.icmp.hdr.type == icmp_type_echo_reply) && (d.icmp.hdr.code == 0)
        then rtt_stats rtt t
        else record t { lost = u64 (t.lost + 1) })
    else s

unfoldable pub ping_turn :
    List ℕ → ℤ → List ℕ → ℕ → PingStats × RecvData → Sys (PingStats × RecvData)
ping_turn junk sock ip seq (s, d) = do
  start ← get_timestamp_us
  send_icmp_echo sock ip seq
  (code, e) ← recv_icmp_echo junk sock d
  pure (count_reply start code e (record s { sent = u64 (s.sent + 1) }), e)

-- The turns `i`, `i + 1`, ... of the loop, `n` of them.
unfoldable pub ping_loop :
    List ℕ → ℤ → List ℕ → ℕ → ℕ → PingStats × RecvData → Sys (PingStats × RecvData)
ping_loop junk sock ip i zero s = pure s
ping_loop junk sock ip i (suc n) s = do
  t ← ping_turn junk sock ip (i + 1) s
  ping_loop junk sock ip (i + 1) n t

-- `ping`, from statistics and a `recv_data` that are not initialised; it returns 0, and the
-- statistics are what it leaves. `n` is an `int`, and a negative count gives no turns.
unfoldable pub ping : List ℕ → RecvData → List ℕ → ℤ → PingStats → Sys PingStats
ping junk d ip n s = do
  fd ← call (socket af_inet sock_raw ipproto_icmp)
  when is_neg fd.ret
      run exit 1
      otherwise (do (t, e) ← ping_loop junk fd.ret ip 0 (to_nat n) (s, d); pure t)
