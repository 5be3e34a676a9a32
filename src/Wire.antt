-- ===== src/Wire.antt =====
-- libsponge/tcp_helpers and libsponge/util: the formats of packets on the wire.
pub mod Parser
pub mod Bits
pub mod Checksum
pub mod TcpHeader
pub mod TcpSegment
pub mod Ipv4Header
pub mod Ipv4Datagram
pub mod Ethernet
pub mod Arp
mod Tests
