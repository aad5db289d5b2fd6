-- ===== src/Tests/Chaining.antt =====
-- pxe/pxe.go: rounds of the PXE boot server.
use pixiecore.Dhcp.Interface.{
  to4, is_global, is_link_local, is_loopback, first_addr, choose_addr, from_os, interface_ip,
}
use pixiecore.Dhcp.Options.{dhcp_option, walk}
use pixiecore.Dhcp.Parse.{parse_guid}
use pixiecore.Dhcp.Socket.{received, write}
use pixiecore.Prelude.{pos, [], ◌∷◌, ◌≡◌, ◌↔◌, refl, Bytes, codes, take, slice, index, equal}
use pixiecore.Pxe.Parse.Accepts.{IsBootRequest, parse_pxe_iff}
use pixiecore.Pxe.Parse.{parse_pxe, check_option, find_boot_type}
use pixiecore.Pxe.Reply.{reply_pxe}
use pixiecore.Pxe.Serve.Replies.{IsServed, serve_request-write_iff}
use pixiecore.Pxe.Serve.{pointed_at, http_url, reply_from, answer_pxe, serve_request}
use pixiecore.Strconv.{itoa, int_text, digits_onto}
use pixiecore.Tests.Booting.{boot_request, requested}
use pixiecore.Tests.Discovery.{an_ip}
use pixiecore.Tests.Serving.{interfaces, client}

abbrev pub select : Bytes
select = boot_request 6 (71 ∷ 4 ∷ 128 ∷ 0 ∷ 0 ∷ 0 ∷ [])

runs_url : http_url an_ip (pos 70) ≡ codes "http://192.168.0.1:70/"
unfolding int_text itoa digits_onto
runs_url = refl

abbrev pub replied_packet : Bytes
replied_packet =
    reply_pxe (pointed_at (requested [] (128 ∷ 0 ∷ 0 ∷ 0 ∷ [])) an_ip (http_url an_ip (pos 70)))

pub runs_chain :
    serve_request (pos 70) interfaces (received 2 client select) ≡ write 2 client replied_packet
unfolding serve_request answer_pxe reply_from interface_ip from_os choose_addr first_addr to4
    is_global is_link_local is_loopback equal parse_pxe check_option find_boot_type parse_guid walk
    dhcp_option slice index
runs_chain = refl

serve_request-write_iff_example :
    (serve_request (pos 70) interfaces (received 2 client select) ≡ write 2 client replied_packet)
    ↔ IsServed (pos 70) interfaces 2 client select 2 client replied_packet
serve_request-write_iff_example =
    serve_request-write_iff (pos 70) interfaces 2 client select 2 client replied_packet

pub select-IsBootRequest : IsBootRequest (take 1024 select) (requested [] (128 ∷ 0 ∷ 0 ∷ 0 ∷ []))
unfolding parse_pxe check_option find_boot_type parse_guid walk dhcp_option slice index equal
select-IsBootRequest =
    (parse_pxe_iff (take 1024 select) (requested [] (128 ∷ 0 ∷ 0 ∷ 0 ∷ []))).0 refl
