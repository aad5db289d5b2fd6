-- ===== src/Tests/Booting.antt =====
-- pxe/pxe.go: a boot request and its reply.
use pixiecore.Dhcp.Options.{dhcp_option, walk}
use pixiecore.Dhcp.Packet.{dhcp_magic}
use pixiecore.Dhcp.Parse.{parse_guid}
use pixiecore.Tests.Discovery.{a_mac}
use pixiecore.Prelude.{
  ℕ, [], ◌∷◌, ◌++◌, ◌≡◌, ◌↔◌, refl, arith, Bytes, codes, zeros, slice, index, equal, ok,
}
use pixiecore.Pxe.Parse.Accepts.{IsBootRequest, parse_pxe_iff}
use pixiecore.Pxe.Parse.{PxePacket, parse_pxe, check_option, find_boot_type}
use pixiecore.Pxe.Reply.Layout.{IsReply, reply_pxe-IsReply, reply_pxe-not_IsReply}
use pixiecore.Pxe.Reply.{reply_pxe}

abbrev a_guid : Bytes
a_guid = codes "0123456789abcdef"

-- a boot request whose vendor options select `boot_type`, of `n` bytes
abbrev pub boot_request : ℕ → Bytes → Bytes
boot_request n boot_type =
    (zeros 28 ++ (a_mac ++ zeros 202))
    ++ (dhcp_magic ++ (43 ∷ n ∷ (boot_type ++ (97 ∷ 17 ∷ 0 ∷ (a_guid ++ (255 ∷ []))))))

abbrev pub requested : Bytes → Bytes → PxePacket
requested ip boot_type = record {
  dhcp = record { tid = zeros 4; mac = a_mac; guid = a_guid; server_ip = ip };
  client_ip = zeros 4;
  boot_type = boot_type;
  http_server = [];
}

-- A boot type of 2 bytes is accepted as well as one of 4.
runs_request :
    (parse_pxe (boot_request 6 (71 ∷ 4 ∷ 128 ∷ 0 ∷ 0 ∷ 0 ∷ []))
      ≡ ok (requested [] (128 ∷ 0 ∷ 0 ∷ 0 ∷ [])))
    × (parse_pxe (boot_request 4 (71 ∷ 2 ∷ 128 ∷ 0 ∷ [])) ≡ ok (requested [] (128 ∷ 0 ∷ [])))
unfolding parse_pxe check_option find_boot_type parse_guid walk dhcp_option slice index equal
runs_request = (refl, refl)

abbrev an_ip : Bytes
an_ip = 192 ∷ 168 ∷ 0 ∷ 1 ∷ []

reply_pxe-IsReply_example :
    IsReply
      (requested an_ip (128 ∷ 0 ∷ 0 ∷ 0 ∷ []))
      (reply_pxe (requested an_ip (128 ∷ 0 ∷ 0 ∷ 0 ∷ [])))
reply_pxe-IsReply_example =
    reply_pxe-IsReply (requested an_ip (128 ∷ 0 ∷ 0 ∷ 0 ∷ [])) (omega arith) refl

reply_pxe-not_IsReply_example :
    ¬ IsReply (requested an_ip (128 ∷ 0 ∷ [])) (reply_pxe (requested an_ip (128 ∷ 0 ∷ [])))
reply_pxe-not_IsReply_example =
    reply_pxe-not_IsReply (requested an_ip (128 ∷ 0 ∷ [])) (omega arith) (omega arith)

parse_pxe_iff_example :
    (parse_pxe (boot_request 4 (71 ∷ 2 ∷ 128 ∷ 0 ∷ [])) ≡ ok (requested [] (128 ∷ 0 ∷ [])))
    ↔ IsBootRequest (boot_request 4 (71 ∷ 2 ∷ 128 ∷ 0 ∷ [])) (requested [] (128 ∷ 0 ∷ []))
parse_pxe_iff_example =
    parse_pxe_iff (boot_request 4 (71 ∷ 2 ∷ 128 ∷ 0 ∷ [])) (requested [] (128 ∷ 0 ∷ []))
