-- ===== src/Ping/Tests.antt =====
-- ping of a host that answers.
use socketlab.Base.{ℕ, ◌/◌, ◌%◌, ◌≡◌, refl, [], ◌∷◌, ◌++◌, some, arith, replicate}
use socketlab.Base.Int.{pos}
use socketlab.Sys.{Env, gethostbyname, poll, recvfrom}
use socketlab.Sys.Lan.{target}
use socketlab.Sys.Ends.{Ends}
use socketlab.Netpackets.Checksum.{icmp_checksum}
use socketlab.Netpackets.Icmp.{PingPacket, ping_bytes, ping_packet_size}
use socketlab.Netpackets.Ipv4.{Ipv4Hdr}
use socketlab.Ping.{PingStats, RecvData, ping, read_reply, echo_request, magic_str}
use socketlab.Ping.Stats.{Counts, ping-Counts}
use socketlab.Ping.Rtt.{after, Summary, after-Summary}
use socketlab.Ping.Wire.{behind, echo_request-checks}
use socketlab.Ping.Reply.{wire_header, wire_echo, read_reply_lem}

abbrev blank : PingStats
blank = record {
  sent = 0;
  recv = 0;
  lost = 0;
  min_rtt = 0;
  max_rtt = 0;
  total_rtt = 0;
  rtt_count = 0;
}

abbrev hdr : Ipv4Hdr
hdr = record {
  ihl = 6;
  version = 4;
  tos = 0;
  tot_len = 0x3200;
  id = 7;
  frag = 0;
  ttl = 63;
  protocol = 1;
  checksum = 0x1234;
  src_addr = 0x0900000a;
  dst_addr = 0x0100000a;
}

abbrev reply : PingPacket
reply = record {
  hdr = record { type = 0; code = 0; checksum = 0x2211 };
  echo = record { identifier = 0xd204; sequence = 0x0100 };
  payload = magic_str;
}

abbrev some_data : RecvData
some_data = record { timestamp = 5; ipv4_hdr = hdr; icmp = reply }

echo_request-checks_example :
    (p : PingPacket) × (c : ℕ) × (echo_request 1234 1 ≡ some p)
    × (ping_bytes p ≡ 8 ∷ 0 ∷ (c / 256 ∷ c % 256 ∷ behind 1234 1))
    × (icmp_checksum (ping_bytes p) ping_packet_size ≡ some 0)
echo_request-checks_example = echo_request-checks 1234 1

read_reply_lem_example :
    read_reply
      (wire_header hdr ++ (replicate 4 1 ++ (wire_echo reply ++ replicate 462 0)))
      some_data
    ≡ record some_data { ipv4_hdr = hdr; icmp = reply }
read_reply_lem_example =
    read_reply_lem (replicate 4 1) (replicate 462 0) some_data (omega arith) (omega arith) refl

-- The host is found, and every request is answered, by the reply above.
abbrev answering : Env
answering t (gethostbyname host) = record { ret = pos 1; out = target; errno = 0 }
answering t (poll fd timeout) = record { ret = pos 1; out = []; errno = 0 }
answering t (recvfrom fd n) = record {
  ret = pos 50;
  out = wire_header hdr ++ (replicate 4 1 ++ wire_echo reply);
  errno = 0;
}
answering t c = record { ret = pos 3; out = []; errno = 0 }

ping-Counts_example :
    Ends
      (λ (r : PingStats). Counts 3 r)
      (ping (replicate 512 0) some_data target (pos 3) blank answering [])
ping-Counts_example =
    ping-Counts (replicate 512 0) some_data target (pos 3) blank answering [] (omega arith) refl
      (λ t. refl) (omega arith)

after-Summary_example : Summary (40 ∷ 20 ∷ 30 ∷ []) (after blank (40 ∷ 20 ∷ 30 ∷ []))
after-Summary_example =
    after-Summary 40 (20 ∷ 30 ∷ []) blank (omega arith) (omega arith) (omega arith) (omega arith)
