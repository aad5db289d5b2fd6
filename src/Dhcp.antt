-- ===== src/Dhcp.antt =====
-- dhcp/dhcp.go: the ProxyDHCP server.
pub mod Packet
pub mod Options
pub mod Parse
pub mod Offer
pub mod Interface
pub mod Socket
pub mod Serve
