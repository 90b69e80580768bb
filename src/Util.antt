-- ===== src/Util.antt =====
-- include/util.c and the address texts of lib/netpackets/src/helper.c.
pub mod Round
pub mod Text
pub mod Mac
pub mod Itf
pub mod Dump
pub mod Exec
mod Tests
