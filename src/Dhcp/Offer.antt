-- ===== src/Dhcp/Offer.antt =====
-- dhcp/dhcp.go: `OfferDHCP`. A write to a `bytes.Buffer` appends.
pub mod Layout
use pixiecore.Dhcp.Packet.{DhcpPacket, dhcp_magic}
use pixiecore.Prelude.{ℕ, ◌%◌, [], ◌∷◌, ◌++◌, Bytes, codes, length, copy, store, zeros}

-- the fixed part of the reply, before `copy` puts the client's values in
unfoldable pub bootp_reply : Bytes
unfolding copy
bootp_reply = store (store (store (store (zeros 236) 0 2) 1 1) 2 6) 10 0x80

unfoldable pub offer_header : Bytes → Bytes → Bytes
unfolding copy bootp_reply
offer_header tid mac = copy (copy bootp_reply 4 tid) 28 mac

-- the PXE vendor options, the buffer `pxe`
unfoldable pub vendor_options : Bytes → Bytes
vendor_options ip =
    (6 ∷ 1 ∷ 3 ∷ [])
    ++ ((8 ∷ 7 ∷ 0x80 ∷ 0x00 ∷ 1 ∷ [])
        ++ (ip
            ++ ((9 ∷ 12 ∷ 0x80 ∷ 0x00 ∷ 9 ∷ [])
                ++ (codes "Pixiecore"
                    ++ ((10 ∷ 10 ∷ 0 ∷ []) ++ (codes "Pixiecore" ++ (255 ∷ [])))))))

-- `OfferDHCP`
unfoldable pub offer_dhcp : DhcpPacket → Bytes
offer_dhcp p =
    let pxe = vendor_options p.server_ip in
    offer_header p.tid p.mac
    ++ (dhcp_magic
        ++ ((53 ∷ 1 ∷ 2 ∷ [])
            ++ ((54 ∷ 4 ∷ [])
                ++ (p.server_ip
                    ++ ((60 ∷ 9 ∷ [])
                        ++ (codes "PXEClient"
                            ++ ((97 ∷ 17 ∷ 0 ∷ [])
                                ++ (p.guid
                                    ++ ((43 ∷ (length pxe % 256) ∷ [])
                                        ++ (pxe ++ (255 ∷ [])))))))))))
