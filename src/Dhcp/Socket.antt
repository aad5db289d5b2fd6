-- ===== src/Dhcp/Socket.antt =====
-- dhcp/dhcp.go and pxe/pxe.go: what a server sees of its socket, one datagram at a time.
use pixiecore.Prelude.{ℕ, Bytes}

-- `net.UDPAddr`
pub record UdpAddr : Type 0 where
  pub ip : Bytes
  pub port : ℕ

-- One return of `l.ReadFrom`: an error, or the interface, the sender and the datagram.
pub data Received : Type 0 where
  read_failed : Received
  received : ℕ → UdpAddr → Bytes → Received

-- How one round of a loop ends; `E` are the errors of the parser. The MAC address is logged.
pub data Effect (E : Type 0) : Type 0 where
  log_read_error : Effect E
  not_parsed : E → Effect E
  not_approved no_address : Bytes → Effect E
  write : ℕ → UdpAddr → Bytes → Effect E
  crash : Effect E
