-- ===== src/Dhcp/Packet.antt =====
-- dhcp/dhcp.go: `DHCPPacket` and `DhcpMagic`.
use pixiecore.Prelude.{[], ◌∷◌, Bytes}

-- A server address that is not yet set is empty, as a nil `net.IP` is.
pub record DhcpPacket : Type 0 where
  pub tid : Bytes
  pub mac : Bytes
  pub guid : Bytes
  pub server_ip : Bytes

-- `DhcpMagic`
abbrev pub dhcp_magic : Bytes
dhcp_magic = 99 ∷ 130 ∷ 83 ∷ 99 ∷ []
