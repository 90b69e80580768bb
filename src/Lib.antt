-- ===== src/Lib.antt =====
-- socketlab: raw-socket tools for Linux, and the library lib/netpackets that they are built on.
--
-- The parts, and the files that model them:
--
-- - Base: bytes, 8- to 64-bit words, byte order, arrays of bytes, Booleans. A value of w bits is a
--   natural number, and its wrap-around is written out.
-- - Netpackets/PacketBuff: lib/netpackets/src/packet_buff.c. `alloc`, `reset`, `push`, `pop`,
--   `size_of` and `len_of` are `pktb_alloc`, `pktb_reset`, `pktb_push`, `pktb_pop`, `pktb_size` and
--   `pktb_data_len`. Pointers are 64-bit numbers. Spec is the buffer as a byte string with a limit.
-- - Netpackets/Checksum: `ipv4_checksum` of lib/netpackets/src/ipv4.c and `icmp_checksum` of
--   src/send_icmp_echo.c, which share their text.
-- - Netpackets/Ether, Vlan, Ipv4, Arp, Icmp: the packed structures of
--   lib/netpackets/include/netpackets and the functions of ether.c, vlan.c, ipv4.c and arp.c that
--   fill them. A record holds the numbers that the little-endian host reads in the fields, and
--   `ether_bytes`, `ipv4_bytes`, ... give the memory of the structure, which is what is sent.
-- - Sys: calls of the operating system. A run is a function of the environment `Env`, which answers a
--   call from the calls made before, and keeps the list of its calls, latest first. Sys/Files reads
--   off that list which descriptors are open.
-- - Net/SockIf: lib/netpackets/src/sock_if.c. Net/Arping: the senders of arp.c and ether.c, under the
--   names that they have there. Net/Common: include/common.c.
-- - Util: include/util.c and lib/netpackets/src/helper.c: Round has the functions on numbers, Text
--   `start_with` and `end_with`, Mac `mac_aton` and `mac_ntoa`, Itf the lookups of an
--   interface, Dump `hexdump`, Exec `os_exec`. Clock: its timestamps.
-- - Senders: src/send_ipv4.c, and in Vlan src/send_vlan.c, in Ether
--   src/send_ether.c. ArpPing: src/arping.c. ArpScan: src/arp_scan.c; `probe`, `sweep`
--   and `scan` are the loops and the rest of its `main`.
-- - Echo: src/echo-server.c, src/mp-echo-server.c, src/select-echo-server.c, src/epoll-echo-server.c;
--   Client src/echo-client.c, and Udp src/uecho-server.c and src/uecho-client.c.
-- - Ft: src/ft. Server has `response_ls` and its kin, and `turn`, a turn of `session`; Client the
--   `cmd_` functions. Ft itself has what both share, and Stored and Sent read off a run what was
--   stored in a file and sent through a socket; Upload, Download and Listing have both sides
--   together, and Put and Get their parts. Minish: include/minish.c.
-- - Log: lib/simple_log/simple_log.c and its sink; a stream is a number, and the files that are open
--   are part of the state. Lines has the dump of bytes. Calc: the calculator of src/op-server.c, with the message of
--   src/op-client.c, whose `main` is in Client. There what `read` returns is a list of parts;
--   Calc/Server has `main` as a run.
-- - Crc16: src/crc16.cpp. Division and Reflected have the references: division of polynomials, and
--   the code bit by bit.
-- - Netlink: src/nl_get_ipaddr.c. Of its log there are the lines about addresses. Its Message builds
--   the messages that the kernel sends.
-- - Itfs: src/get_itfs.c.
-- - Ping: src/send_icmp_echo.c. `recv_data` and the statistics are explicit state, and the buffer
--   that is not initialised is a parameter.
--
-- The tools call SockIf and Arping, which build their frames by the functions of Netpackets; a packet
-- buffer gives the space of a frame that `send_frame` of SockIf sends.
--
-- Every model is a total function: the loops are structural in the bytes or in the count that they
-- go through, but for that of `round_two`, which has fuel `x`, and its `x` gets smaller in every
-- turn; for the walk over netlink messages and attributes, where the bytes that are left are enough
-- turns; and for those of Ft, Echo, Minish, Netlink, Util/Exec and Calc/Server that last as long as
-- the peer, a file or a child does: they are given a number of turns, and one for each part suffices.
-- An access outside an object is `none`, or a fault of a run.
--
-- Not modelled: what the tools print and most of what they log, Windows, the other C++ sources, and the programs that only show a
-- system call. `free`, `malloc`, the system and the C library are parameters, or calls of Sys.
pub mod ArpPing
pub mod ArpScan
pub mod Base
pub mod Calc
pub mod Clock
pub mod Crc16
pub mod Echo
pub mod Ft
pub mod Itfs
pub mod Log
pub mod Minish
pub mod Net
pub mod Netlink
pub mod Netpackets
pub mod Ping
pub mod Senders
pub mod Sys
pub mod Util
