-- ===== src/Senders/Header.antt =====
-- The header of send_ipv4 is accepted by a receiver, and the program closes its sockets.
use socketlab.Base.{
  ℕ, ◌^◌, ◌<◌, ◌≡◌, refl, List, [], ◌∷◌, ◌++◌, replicate, false, Option, some, arith, htons,
}
use socketlab.Netpackets.Checksum.{ipv4_checksum, add_words}
use socketlab.Netpackets.Ipv4.{Ipv4Hdr, ipv4_hdr_size, ipv4_bytes, long_at}
use socketlab.Netpackets.Ipv4.Layout.{IsHdr}
use socketlab.Netpackets.Ipv4.Valid.{Accepted, header_checksum, stored_be}
use mathlib.Core.Option
use socketlab.Base.Int.{pos, bits32}
use socketlab.Sys.{getpid}
use socketlab.Sys.Files.{open_fds, KeepsOpen, >>=-KeepsOpen}
use socketlab.Net.SockIf.{send_frame, get_itf_ipaddr, get_itf_hwaddr}
use socketlab.Net.SockIf.Descriptors.{sock_if-KeepsOpen}
use socketlab.Netpackets.Ether.{ether_bytes, pack_ether_hdr}
use socketlab.Senders.{
  send_ip4, send_ipv4, itf, dst_mac, dst_ip, payload, eth_type_ipv4, plain_ip4_hdr, config_ip4_hdr,
}

plain-IsHdr :
    (frag pid hdr_len data_len src dst : ℕ)
    → src < 2 ^ 32
    → dst < 2 ^ 32
    → IsHdr (plain_ip4_hdr frag pid hdr_len data_len src dst)
unfolding plain_ip4_hdr htons
plain-IsHdr frag pid hdr_len data_len src dst s d = omega arith

-- For addresses of 32 bits `config_ip4_hdr` fills the header so that a receiver accepts its
-- checksum, whatever the field `frag` held and whatever the lengths and the process id are.
config_ip4_hdr-Accepted :
    (frag pid hdr_len data_len src dst : ℕ)
    → src < 2 ^ 32
    → dst < 2 ^ 32
    → (h : Ipv4Hdr) × (config_ip4_hdr frag pid hdr_len data_len src dst ≡ some h) × Accepted h
unfolding config_ip4_hdr
config_ip4_hdr-Accepted frag pid hdr_len data_len src dst s d =
    let v = plain-IsHdr frag pid hdr_len data_len src dst s d in
    let (c, e, fits) = header_checksum v in
    (
      record (plain_ip4_hdr frag pid hdr_len data_len src dst) { checksum = htons c },
      rw (e, config_ip4_hdr) refl,
      stored_be c v fits e,
    )

send_ip4-KeepsOpen :
    (mac : List ℕ) {o : Option Ipv4Hdr} (h : Ipv4Hdr) → o ≡ some h → KeepsOpen (send_ip4 mac o)
unfolding send_ip4
send_ip4-KeepsOpen mac h e = rw e (
    >>=-KeepsOpen
      (send_frame itf
        (ether_bytes (pack_ether_hdr dst_mac mac eth_type_ipv4) ++ (ipv4_bytes h ++ payload)))
      _
      (sock_if-KeepsOpen itf
        (ether_bytes (pack_ether_hdr dst_mac mac eth_type_ipv4) ++ (ipv4_bytes h ++ payload)) false
        (pos 0)).3
      (λ r env t posix. ground arith))

checksum_some : (h : Ipv4Hdr) → (c : ℕ) × (ipv4_checksum (ipv4_bytes h) ipv4_hdr_size ≡ some c)
unfolding ipv4_checksum add_words
checksum_some h = (_, refl)

config_some :
    (frag pid hdr_len data_len src dst : ℕ)
    → (h : Ipv4Hdr) × (config_ip4_hdr frag pid hdr_len data_len src dst ≡ some h)
unfolding config_ip4_hdr
config_some frag pid hdr_len data_len src dst =
    let (c, e) = checksum_some (plain_ip4_hdr frag pid hdr_len data_len src dst) in
    (
      record (plain_ip4_hdr frag pid hdr_len data_len src dst) { checksum = htons c },
      rw (e, config_ip4_hdr) refl,
    )

-- Where the calls report failure by -1 alone, `send_ipv4` returns, without an access outside an
-- object, and has closed its sockets, whatever else the system answers.
send_ipv4-KeepsOpen : KeepsOpen send_ipv4
unfolding send_ipv4 open_fds
send_ipv4-KeepsOpen =
    let lookups = sock_if-KeepsOpen itf [] false (pos 0) in
    >>=-KeepsOpen (get_itf_ipaddr itf false) _ lookups.1 (λ found.
      >>=-KeepsOpen (get_itf_hwaddr itf false) _ lookups.0 (λ mac env t posix.
        let src = long_at (Option.get_or found.1 (replicate 4 0)) in
        let (h, e) = config_some 0 (bits32 (env t getpid).ret) ipv4_hdr_size 26 src dst_ip in
        send_ip4-KeepsOpen (Option.get_or mac.1 (replicate 6 0)) h e env (getpid ∷ t) posix))
