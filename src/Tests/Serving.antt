-- ===== src/Tests/Serving.antt =====
-- dhcp/dhcp.go: an interface, and rounds of the ProxyDHCP server on it.
use pixiecore.Dhcp.Interface.Answers.{Answers, interface_ip-Answers}
use pixiecore.Dhcp.Interface.{
  IfaceAddr, ip_net, other_addr, Iface, to4, is_global, is_link_local, is_loopback, first_addr,
  choose_addr, from_os, interface_ip,
}
use pixiecore.Dhcp.Offer.{offer_dhcp}
use pixiecore.Dhcp.Options.{dhcp_option, walk}
use pixiecore.Dhcp.Parse.{parse_dhcp, check_option, parse_guid}
use pixiecore.Dhcp.Serve.Offers.{IsServed, serve_dhcp-write_iff}
use pixiecore.Dhcp.Serve.{from_server, offer_from, offer_if, answer_dhcp, serve_dhcp}
use pixiecore.Dhcp.Socket.{UdpAddr, received, write, not_approved}
use pixiecore.Prelude.{
  ℕ, ◌==◌, if◌then◌else◌, List, [], ◌∷◌, ◌++◌, ◌≡◌, ◌↔◌, refl, Bytes, codes, zeros, slice, index,
  uint16, equal, Result, ok, err,
}
use pixiecore.Tests.Discovery.{a_mac, an_ip, discover, discovered}

-- a loopback, a link-local and a global address, the last in IPv6 form
abbrev three_addresses : List IfaceAddr
three_addresses =
    ip_net (127 ∷ 0 ∷ 0 ∷ 1 ∷ [])
    ∷ other_addr
    ∷ ip_net (169 ∷ 254 ∷ 3 ∷ 4 ∷ [])
    ∷ ip_net (zeros 10 ++ (255 ∷ 255 ∷ an_ip))
    ∷ []

-- one interface, number 2; the system's error is its text
abbrev pub interfaces : ℕ → Result Bytes (Iface Bytes)
interfaces i =
    if i == 2
    then ok (record { name = codes "eth0"; addrs = ok three_addresses })
    else err (codes "no such interface")

runs_interface : interface_ip interfaces 2 ≡ ok an_ip
unfolding interface_ip from_os choose_addr first_addr to4 is_global is_link_local is_loopback equal
runs_interface = refl

interface_ip-Answers_example : Answers interfaces 2 (interface_ip interfaces 2)
interface_ip-Answers_example = interface_ip-Answers interfaces 2

abbrev pub client : UdpAddr
client = record { ip = zeros 4; port = 68 }

abbrev pub everywhere : UdpAddr
everywhere = record { ip = 255 ∷ 255 ∷ 255 ∷ 255 ∷ []; port = 68 }

abbrev pub offered_packet : Bytes
offered_packet = offer_dhcp (from_server discovered an_ip)

-- The verdict of a booter for every machine.
abbrev pub accepts : Bytes → Result Bytes (Unit {0})
accepts mac = ok tt

abbrev refuses : Bytes → Result Bytes (Unit {0})
refuses mac = err (codes "no")

pub runs_serve :
    serve_dhcp accepts interfaces (received 2 client (discover 6))
    ≡ write 2 everywhere offered_packet
unfolding serve_dhcp answer_dhcp offer_if offer_from interface_ip from_os choose_addr first_addr to4
    is_global is_link_local is_loopback equal parse_dhcp check_option parse_guid walk dhcp_option
    slice index uint16
runs_serve = refl

runs_refusal : serve_dhcp refuses interfaces (received 2 client (discover 6)) ≡ not_approved a_mac
unfolding serve_dhcp answer_dhcp offer_if equal parse_dhcp check_option parse_guid walk dhcp_option
    slice index uint16
runs_refusal = refl

serve_dhcp-write_iff_example :
    (serve_dhcp accepts interfaces (received 2 client (discover 6))
      ≡ write 2 everywhere offered_packet)
    ↔ IsServed accepts interfaces 2 client (discover 6) 2 everywhere offered_packet
serve_dhcp-write_iff_example =
    serve_dhcp-write_iff accepts interfaces 2 client (discover 6) 2 everywhere offered_packet
