-- ===== src/Dhcp/Offer/Layout.antt =====
-- dhcp/dhcp.go: an offer is a well-formed DHCP packet.
use pixiecore.Dhcp.Offer.{offer_header, vendor_options, offer_dhcp}
use pixiecore.Dhcp.Options.Walk.{IsOptions, stop, option}
use pixiecore.Dhcp.Packet.{DhcpPacket, dhcp_magic}
use pixiecore.Prelude.{
  ℕ, ◌%◌, List, [], ◌∷◌, ◌++◌, ◌≡◌, ◌≢◌, refl, sym, ap, arith, Bytes, codes, length, length-append,
  zeros,
}

-- A packet whose fields have the lengths that the server gives them.
pub record IsSized (p : DhcpPacket) : Type 0 where
  pub tid_size : length p.tid ≡ 4
  pub mac_size : length p.mac ≡ 6
  pub guid_size : length p.guid ≡ 16
  pub ip_size : length p.server_ip ≡ 4

-- A BOOTP reply on Ethernet that asks for broadcast: opcode 2, hardware type 1, address length 6,
-- the transaction id, flags 0x8000, the client's, the server's and the other addresses, the
-- hardware address, and no server name and boot file but what `names` holds.
abbrev pub reply_header : Bytes → Bytes → Bytes → Bytes → Bytes → Bytes
reply_header tid client server mac names =
    (2 ∷ 1 ∷ 6 ∷ 0 ∷ [])
    ++ (tid
        ++ ((0 ∷ 0 ∷ 0x80 ∷ 0 ∷ 0 ∷ 0 ∷ 0 ∷ 0 ∷ [])
            ++ (client ++ (server ++ ((0 ∷ 0 ∷ 0 ∷ 0 ∷ []) ++ (mac ++ names))))))

offer_header_lem :
    (tid mac : Bytes)
    → length tid ≡ 4
    → length mac ≡ 6
    → offer_header tid mac ≡ reply_header tid (zeros 4) (zeros 4) mac (zeros 202)
unfolding offer_header
offer_header_lem (a ∷ b ∷ c ∷ d ∷ []) (e ∷ f ∷ g ∷ h ∷ i ∷ j ∷ []) _ _ = refl
offer_header_lem tid mac t m = absurd (omega arith)

-- The options of an offer: DHCPOFFER, the server, the vendor class, the client's UUID, and the
-- vendor options.
abbrev pub offered : DhcpPacket → List (ℕ × Bytes)
offered p =
    (53, 2 ∷ [])
    ∷ (54, p.server_ip)
    ∷ (60, codes "PXEClient")
    ∷ (97, 0 ∷ p.guid)
    ∷ (43, vendor_options p.server_ip)
    ∷ []

-- The vendor options: no broadcast or multicast discovery, one boot server of type 0x8000 at the
-- server's address, one menu entry for it, and a prompt that does not wait.
abbrev pub vendor_offered : Bytes → List (ℕ × Bytes)
vendor_offered ip =
    (6, 3 ∷ [])
    ∷ (8, 0x80 ∷ 0 ∷ 1 ∷ ip)
    ∷ (9, 0x80 ∷ 0 ∷ 9 ∷ codes "Pixiecore")
    ∷ (10, 0 ∷ codes "Pixiecore")
    ∷ []

-- `b` is an offer to the client of `p`, from its server address.
pub record IsOffer (p : DhcpPacket) (b : Bytes) : Type 0 where
  pub options : Bytes
  pub layout :
      b ≡ reply_header p.tid (zeros 4) (zeros 4) p.mac (zeros 202) ++ (dhcp_magic ++ options)
  pub holds : IsOptions (offered p) options
  pub vendor_holds : IsOptions (vendor_offered p.server_ip) (vendor_options p.server_ip)

pub tlv :
    {os : List (ℕ × Bytes)} (t n : ℕ) (v rest : Bytes)
    → n ≡ length v
    → t ≢ 255
    → IsOptions os rest
    → IsOptions ((t, v) ∷ os) (t ∷ n ∷ (v ++ rest))
tlv t n v rest e ne o = option rest (ap (λ (m : ℕ). t ∷ m ∷ (v ++ rest)) e) ne o

vendor_options-IsOptions :
    (ip : Bytes) → length ip ≡ 4 → IsOptions (vendor_offered ip) (vendor_options ip)
unfolding vendor_options
vendor_options-IsOptions ip h = tlv 6 1 (3 ∷ []) _ refl (omega arith) (
    tlv 8 7 (0x80 ∷ 0 ∷ 1 ∷ ip) _ (omega arith) (omega arith) (
      tlv 9 12 (0x80 ∷ 0 ∷ 9 ∷ codes "Pixiecore") _ refl (omega arith)
        (tlv 10 10 (0 ∷ codes "Pixiecore") _ refl (omega arith) (stop tt))))

length-vendor_options : (ip : Bytes) → length ip ≡ 4 → length (vendor_options ip) ≡ 39
unfolding vendor_options
length-vendor_options ip h = omega (
  arith,
  length-append {0} ip (
      (9 ∷ 12 ∷ 0x80 ∷ 0x00 ∷ 9 ∷ [])
      ++ (codes "Pixiecore" ++ ((10 ∷ 10 ∷ 0 ∷ []) ++ (codes "Pixiecore" ++ (255 ∷ []))))),
)

-- An offer for a packet whose fields have their lengths is a DHCP reply that echoes the client's
-- transaction id and hardware address. A reader of its options finds the message type OFFER, the
-- server's address, the class PXEClient, the client's UUID and, whole, the vendor options, and
-- in these the four PXE options. The length byte of the vendor options does not overflow.
pub offer_dhcp-IsOffer : (p : DhcpPacket) → IsSized p → IsOffer p (offer_dhcp p)
unfolding offer_dhcp
offer_dhcp-IsOffer p h = record {
  options = _;
  layout = rw (offer_header_lem p.tid p.mac h.tid_size h.mac_size);
  holds = tlv 53 1 (2 ∷ []) _ refl (omega arith) (
      tlv 54 4 p.server_ip _ (sym h.ip_size) (omega arith) (
        tlv 60 9 (codes "PXEClient") _ refl (omega arith) (
          tlv 97 17 (0 ∷ p.guid) _ (omega (arith, h.guid_size)) (omega arith) (
            tlv 43 (length (vendor_options p.server_ip) % 256) (vendor_options p.server_ip)
              (255 ∷ []) (omega (arith, length-vendor_options p.server_ip h.ip_size)) (omega arith)
              (stop tt)))));
  vendor_holds = vendor_options-IsOptions p.server_ip h.ip_size;
}
