-- ===== src/Pxe/Reply.antt =====
-- pxe/pxe.go: `ReplyPXE`. A write to a `bytes.Buffer` appends.
pub mod Layout
use pixiecore.Dhcp.Packet.{dhcp_magic}
use pixiecore.Pxe.Parse.{PxePacket}
use pixiecore.Prelude.{ℕ, ◌%◌, [], ◌∷◌, ◌++◌, Bytes, codes, length, copy, store, zeros}

-- the fixed part
unfoldable pub reply_bootp : Bytes → Bytes → Bytes → Bytes → Bytes
unfolding copy
reply_bootp tid client server mac =
    let b₀ = store (store (store (store (zeros 236) 0 2) 1 1) 2 6) 10 0x80 in
    let b₁ = copy (copy b₀ 4 tid) 16 client in
    copy (copy (copy b₁ 20 server) 28 mac) 108 (codes "boot")

-- `ReplyPXE`
unfoldable pub reply_pxe : PxePacket → Bytes
reply_pxe p =
    reply_bootp p.tid p.client_ip p.server_ip p.mac
    ++ (dhcp_magic
        ++ ((53 ∷ 1 ∷ 5 ∷ [])
            ++ ((54 ∷ 4 ∷ [])
                ++ (p.server_ip
                    ++ ((60 ∷ 9 ∷ [])
                        ++ (codes "PXEClient"
                            ++ ((97 ∷ 17 ∷ 0 ∷ [])
                                ++ (p.guid
                                    ++ ((43 ∷ 7 ∷ 71 ∷ 4 ∷ [])
                                        ++ (p.boot_type
                                            ++ ((255 ∷ [])
                                                ++ ((210 ∷ (length p.http_server % 256) ∷ [])
                                                    ++ (p.http_server
                                                        ++ ((211 ∷ 4 ∷ 0 ∷ 0 ∷ 0 ∷ 5 ∷ [])
                                                            ++ (255 ∷ [])))))))))))))))
