-- ===== src/Net.antt =====
-- Sockets: lib/netpackets/src/sock_if.c, the senders of arp.c and ether.c, and include/common.c.
pub mod SockIf
pub mod Common
pub mod Arping
