-- ===== src/Netpackets.antt =====
-- lib/netpackets: packet buffers, the layouts of the packets, checksums, and raw sockets.
pub mod PacketBuff
pub mod Checksum
pub mod Ether
pub mod Vlan
pub mod Ipv4
pub mod Arp
pub mod Icmp
