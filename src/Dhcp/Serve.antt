-- ===== src/Dhcp/Serve.antt =====
-- dhcp/dhcp.go: the loop of `ServeProxyDHCP`. A round leaves nothing for the next: it reads the bytes
-- that its own `ReadFrom` has put into the buffer of 1024 bytes.
pub mod Offers
use pixiecore.Dhcp.Interface.{Iface, InterfaceError, interface_ip}
use pixiecore.Dhcp.Offer.{offer_dhcp}
use pixiecore.Dhcp.Packet.{DhcpPacket}
use pixiecore.Dhcp.Parse.{DhcpError, parse_dhcp}
use pixiecore.Dhcp.Socket.{
  UdpAddr, Received, read_failed, received, Effect, log_read_error, not_parsed, not_approved,
  no_address, write, crash,
}
use pixiecore.Prelude.{ℕ, List, [], ◌∷◌, Bytes, take, replicate, Result, ok, err, fault}

-- `req.ServerIP = ip`
abbrev pub from_server : DhcpPacket → Bytes → DhcpPacket
from_server p ip = record p { server_ip = ip }

-- `udpAddr.IP = net.IPv4bcast`, in its form of 4 bytes
abbrev pub broadcast : UdpAddr → UdpAddr
broadcast addr = record addr { ip = replicate 4 255 }

-- `should_boot` is `booter.ShouldBoot`.
module _ {B E : Type 0} (should_boot : Bytes → Result B (Unit {0}))
    (interface_by_index : ℕ → Result E (Iface E)) where
  unfoldable pub offer_from :
      ℕ → UdpAddr → DhcpPacket → Result (InterfaceError E) Bytes → Effect DhcpError
  offer_from i addr p (ok ip) = write i (broadcast addr) (offer_dhcp (from_server p ip))
  offer_from i addr p (err e) = no_address p.mac
  offer_from i addr p fault = crash

  -- what follows the call of `ShouldBoot`
  unfoldable pub offer_if : ℕ → UdpAddr → DhcpPacket → Result B (Unit {0}) → Effect DhcpError
  unfolding offer_from
  offer_if i addr p (ok u) = offer_from i addr p (interface_ip interface_by_index i)
  offer_if i addr p (err e) = not_approved p.mac
  offer_if i addr p fault = crash

  unfoldable pub answer_dhcp : ℕ → UdpAddr → Result DhcpError DhcpPacket → Effect DhcpError
  unfolding offer_if
  answer_dhcp i addr (ok p) = offer_if i addr p (should_boot p.mac)
  answer_dhcp i addr (err e) = not_parsed e
  answer_dhcp i addr fault = crash

  -- one round
  unfoldable pub serve_dhcp : Received → Effect DhcpError
  unfolding answer_dhcp
  serve_dhcp read_failed = log_read_error
  serve_dhcp (received i addr d) = answer_dhcp i addr (parse_dhcp (take 1024 d))

  -- `ServeProxyDHCP`, over what arrives
  unfoldable pub serve_proxy_dhcp : List Received → List (Effect DhcpError)
  unfolding serve_dhcp
  serve_proxy_dhcp [] = []
  serve_proxy_dhcp (r ∷ rs) = serve_dhcp r ∷ serve_proxy_dhcp rs
