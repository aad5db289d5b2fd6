-- ===== src/Tests/Discovery.antt =====
-- dhcp/dhcp.go: a discovery and its offer.
use pixiecore.Dhcp.Offer.Layout.{IsOffer, offer_dhcp-IsOffer}
use pixiecore.Dhcp.Offer.{offer_dhcp}
use pixiecore.Dhcp.Options.{dhcp_option, walk}
use pixiecore.Dhcp.Packet.{DhcpPacket, dhcp_magic}
use pixiecore.Dhcp.Parse.Accepts.{IsDiscover, parse_dhcp_iff}
use pixiecore.Dhcp.Parse.{parse_dhcp, check_option, parse_guid}
use pixiecore.Prelude.{
  ℕ, [], ◌∷◌, ◌++◌, ◌≡◌, ◌↔◌, refl, arith, Bytes, codes, zeros, slice, index, uint16, equal, ok,
}

abbrev a_guid : Bytes
a_guid = codes "0123456789abcdef"

abbrev pub a_mac : Bytes
a_mac = 0x52 ∷ 0x54 ∷ 0 ∷ 1 ∷ 2 ∷ 3 ∷ []

-- a discovery of a PXE client, with `hlen` for its address length
abbrev pub discover : ℕ → Bytes
discover hlen =
    (1 ∷ 1 ∷ hlen ∷ 0 ∷ 9 ∷ 8 ∷ 7 ∷ 6 ∷ [])
    ++ (zeros 20
        ++ (a_mac
            ++ (zeros 202 ++ (dhcp_magic ++ (53 ∷ 1 ∷ 1 ∷ 97 ∷ 17 ∷ 0 ∷ (a_guid ++ (255 ∷ [])))))))

abbrev pub discovered : DhcpPacket
discovered = record { tid = 9 ∷ 8 ∷ 7 ∷ 6 ∷ []; mac = a_mac; guid = a_guid; server_ip = [] }

-- An address length of 20 is accepted with hardware type 1, and the six first bytes are the address.
runs_discover :
    (parse_dhcp (discover 6) ≡ ok discovered) × (parse_dhcp (discover 20) ≡ ok discovered)
unfolding parse_dhcp check_option parse_guid walk dhcp_option slice index uint16 equal
runs_discover = (refl, refl)

abbrev served_from : Bytes → DhcpPacket
served_from ip = record discovered { server_ip = ip }

abbrev pub an_ip : Bytes
an_ip = 192 ∷ 168 ∷ 0 ∷ 1 ∷ []

parse_dhcp_iff_example :
    (parse_dhcp (discover 6) ≡ ok discovered) ↔ IsDiscover (discover 6) discovered
parse_dhcp_iff_example = parse_dhcp_iff (discover 6) discovered

offer_dhcp-IsOffer_example : IsOffer (served_from an_ip) (offer_dhcp (served_from an_ip))
offer_dhcp-IsOffer_example = offer_dhcp-IsOffer (served_from an_ip) (omega arith)
