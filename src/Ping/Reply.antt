-- ===== src/Ping/Reply.antt =====
-- The answer to ping, as `recv_icmp_echo` of src/send_icmp_echo.c reads it.
use socketlab.Base.{
  ℕ, ◌+◌, ◌*◌, ◌^◌, ◌<◌, ◌≡◌, refl, sym, ap₂, ◌∙◌, List, ◌∷◌, ◌++◌, arith, length, length-append,
  drop, take, htons, htons_invol, htons-lt, be16, le16, le32, append_assoc, drop-append,
  take-append,
}
use mathlib.Core.Path.{subst}
use socketlab.Netpackets.Icmp.{PingPacket, ping_bytes, ping_of_bytes}
use socketlab.Netpackets.Ipv4.{Ipv4Hdr, ipv4_hdr_size, ipv4_bytes, ipv4_of_bytes, ipv4_ntohs}
use socketlab.Netpackets.Ipv4.Layout.{IsHdr, ipv4_of_bytes-ipv4_bytes}
use socketlab.Ping.{RecvData, read_reply}

-- Every field of the packet is in its width.
pub record IsPing (p : PingPacket) : Type 0 where
  pub type_fits : p.hdr.type < 256
  pub code_fits : p.hdr.code < 256
  pub checksum_fits : p.hdr.checksum < 2 ^ 16
  pub identifier_fits : p.echo.identifier < 2 ^ 16
  pub sequence_fits : p.echo.sequence < 2 ^ 16
  pub payload_fits : length p.payload ≡ 18

ping_of_bytes-ping_bytes :
    {p : PingPacket} (rest : List ℕ) → IsPing p → ping_of_bytes (ping_bytes p ++ rest) ≡ p
unfolding ping_of_bytes
ping_of_bytes-ping_bytes {p} rest w = ground (
  arith,
  subst (λ n. take n (p.payload ++ rest) ≡ p.payload) w.payload_fits (take-append p.payload rest),
)

-- What is stored for a header and a packet in memory.
abbrev received : Ipv4Hdr → PingPacket → RecvData → RecvData
received h p d = record d {
  ipv4_hdr = ipv4_ntohs h;
  icmp = record p {
    hdr = record p.hdr { checksum = htons p.hdr.checksum };
    echo = record { identifier = htons p.echo.identifier; sequence = htons p.echo.sequence };
  };
}

read_reply_at :
    (h : Ipv4Hdr) (p : PingPacket) (buf : List ℕ) (d : RecvData)
    → ipv4_of_bytes buf ≡ h
    → ping_of_bytes (drop (h.ihl * 4) buf) ≡ p
    → read_reply buf d ≡ received h p d
unfolding read_reply ipv4_ntohs
read_reply_at h p buf d e f = rw (e, f) refl

skip_header :
    (head options rest : List ℕ) (n : ℕ)
    → length options + length head ≡ n
    → drop n (head ++ (options ++ rest)) ≡ rest
skip_header head options rest n e = rw (← append_assoc head options rest) (
    subst (λ k. drop k ((head ++ options) ++ rest) ≡ rest) whole
      (drop-append (head ++ options) rest))
  where
    whole : length (head ++ options) ≡ n
    whole = omega (arith, length-append head options)

-- From a buffer with an IPv4 header, as many bytes of options as its length says, and an echo packet.
read_reply-received :
    {h : Ipv4Hdr} {p : PingPacket} (options rest : List ℕ) (d : RecvData)
    → IsHdr h
    → IsPing p
    → length options + ipv4_hdr_size ≡ h.ihl * 4
    → read_reply (ipv4_bytes h ++ (options ++ (ping_bytes p ++ rest))) d ≡ received h p d
read_reply-received {h} {p} options rest d v w e =
    read_reply_at h p (ipv4_bytes h ++ (options ++ (ping_bytes p ++ rest))) d
      (ipv4_of_bytes-ipv4_bytes (options ++ (ping_bytes p ++ rest)) v)
      (subst (λ q. ping_of_bytes q ≡ p)
        (sym (skip_header (ipv4_bytes h) options (ping_bytes p ++ rest) (h.ihl * 4) e))
        (ping_of_bytes-ping_bytes rest w))

-- A header and a packet on the wire, whose records have the numbers that stand there; `frag` and the
-- addresses are the numbers that the host reads. Lengths, identifications, checksums and the sequence
-- number are in network byte order.
abbrev pub wire_header : Ipv4Hdr → List ℕ
wire_header h =
    (h.version * 16 + h.ihl)
    ∷ h.tos
    ∷ (be16 h.tot_len
        ++ (be16 h.id
            ++ (le16 h.frag
                ++ (h.ttl
                    ∷ h.protocol
                    ∷ (be16 h.checksum ++ (le32 h.src_addr ++ le32 h.dst_addr))))))

abbrev pub wire_echo : PingPacket → List ℕ
wire_echo p =
    p.hdr.type
    ∷ p.hdr.code
    ∷ (be16 p.hdr.checksum ++ (be16 p.echo.identifier ++ (be16 p.echo.sequence ++ p.payload)))

-- The header and the packet that memory holds then.
stored_header : Ipv4Hdr → Ipv4Hdr
stored_header h = record h {
  tot_len = htons h.tot_len;
  id = htons h.id;
  checksum = htons h.checksum;
}

stored_echo : PingPacket → PingPacket
stored_echo p = record p {
  hdr = record p.hdr { checksum = htons p.hdr.checksum };
  echo = record { identifier = htons p.echo.identifier; sequence = htons p.echo.sequence };
}

stored_header-IsHdr : {h : Ipv4Hdr} → IsHdr h → IsHdr (stored_header h)
unfolding stored_header
stored_header-IsHdr {h} v = ground (arith, htons-lt h.tot_len, htons-lt h.id, htons-lt h.checksum)

stored_echo-IsPing : {p : PingPacket} → IsPing p → IsPing (stored_echo p)
unfolding stored_echo
stored_echo-IsPing {p} w =
    ground (arith, htons-lt p.hdr.checksum, htons-lt p.echo.identifier, htons-lt p.echo.sequence)

wire_header-stored : {h : Ipv4Hdr} → IsHdr h → wire_header h ≡ ipv4_bytes (stored_header h)
unfolding stored_header htons
wire_header-stored {h} v = ground arith

wire_echo-stored : {p : PingPacket} → IsPing p → wire_echo p ≡ ping_bytes (stored_echo p)
unfolding stored_echo htons
wire_echo-stored {p} w = ground arith

received-stored :
    {h : Ipv4Hdr} {p : PingPacket} (d : RecvData)
    → IsHdr h
    → IsPing p
    → received (stored_header h) (stored_echo p) d ≡ record d { ipv4_hdr = h; icmp = p }
unfolding stored_header stored_echo ipv4_ntohs
received-stored {h} {p} d v w = ground (
  arith,
  htons_invol h.tot_len,
  htons_invol h.id,
  htons_invol h.checksum,
  htons_invol p.hdr.checksum,
  htons_invol p.echo.identifier,
  htons_invol p.echo.sequence,
)

-- From a buffer with an IPv4 header, as many bytes of options as its length says, and an echo packet,
-- all fields in their widths, `recv_icmp_echo` takes exactly these fields, and leaves the time stamp.
-- The total length, the identification and the checksum of the header, and the checksum, the identifier
-- and the sequence number of the packet, which are in network byte order in the buffer, become the
-- numbers they stand for. `frag` and the addresses stay as the host reads their bytes.
pub read_reply_lem :
    {h : Ipv4Hdr} {p : PingPacket} (options rest : List ℕ) (d : RecvData)
    → IsHdr h
    → IsPing p
    → length options + ipv4_hdr_size ≡ h.ihl * 4
    → read_reply (wire_header h ++ (options ++ (wire_echo p ++ rest))) d
      ≡ record d { ipv4_hdr = h; icmp = p }
unfolding stored_header
read_reply_lem {h} {p} options rest d v w e =
    ap₂ (λ x y. read_reply (x ++ (options ++ (y ++ rest))) d) (wire_header-stored v)
      (wire_echo-stored w)
    ∙ read_reply-received options rest d (stored_header-IsHdr v) (stored_echo-IsPing w) e
    ∙ received-stored d v w
