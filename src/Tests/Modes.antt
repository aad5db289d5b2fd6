-- ===== src/Tests/Modes.antt =====
-- pixiecore/pixiecore.go with dhcp/dhcp.go and pxe/pxe.go: flags, and a whole boot for a static booter.
use mathlib.Core.Path.{subst}
use pixiecore.Api.Plans.{Plan, IsBooter}
use pixiecore.Api.Static.Booting.{as_booter, static_plan, static-IsBooter}
use pixiecore.Api.Static.{static_booter}
use pixiecore.Api.{Content, Booter}
use pixiecore.Chain.Reply.{IsChained, serve_request-IsChained}
use pixiecore.Chain.{BootsFor, serve_dhcp-BootsFor}
use pixiecore.Dhcp.Packet.{DhcpPacket}
use pixiecore.Dhcp.Parse.Accepts.{IsDiscover}
use pixiecore.Tests.Booting.{requested}
use pixiecore.Tests.Chaining.{select, select-IsBootRequest, replied_packet, runs_chain}
use pixiecore.Cli.{Flags, Picked, local, pick_booter, kernel_with_api}
use pixiecore.Strings.{split}
use pixiecore.Tests.Discovery.{discover}
use pixiecore.Tests.Serving.{interfaces, client, everywhere, offered_packet, runs_serve}
use pixiecore.Prelude.{
  pos, take, true, [], ◌∷◌, ◌≡◌, refl, sym, ap, arith, Bytes, codes, Lacks, Result, ok, err,
}

abbrev pub static_flags : Flags
static_flags = record {
  api_server = [];
  kernel_file = codes "/k";
  initrd_file = codes "/a,/b";
  kernel_cmdline = codes "quiet";
}

abbrev pub a_static : Picked
a_static = local (static_booter (codes "/k") (codes "/a" ∷ codes "/b" ∷ []) (codes "quiet"))

runs_pick :
    (pick_booter {E = Bytes} static_flags [] ≡ ([], ok a_static))
    × (pick_booter {E = Bytes} (record static_flags { api_server = codes "http://api" }) []
        ≡ ([], err kernel_with_api))
unfolding pick_booter split
runs_pick = (refl, refl)

abbrev pub disk : Bytes → Result Bytes Content
disk path = ok (record { bytes = path; complete = true })

abbrev Wanted : Bytes → Plan Bytes → Type 0
Wanted mac p = p ≡ static_plan disk (λ id. id) (codes "/k") (codes "/a" ∷ []) (codes "quiet")

Wanted-Lacks : (mac : Bytes) (p : Plan Bytes) → Wanted mac p → Lacks b'\n' p.cmdline
Wanted-Lacks mac p e =
    let plain : Lacks b'\n' (codes "quiet") = omega arith in
    subst (Lacks b'\n') (ap (λ (q : Plan Bytes). q.cmdline) (sym e)) plain

abbrev a_booter : Booter (Unit {0}) Bytes
a_booter = as_booter disk (λ id. id) (static_booter (codes "/k") (codes "/a" ∷ []) (codes "quiet"))

a_booter_keeps : IsBooter a_booter (λ s. Unit {0}) Wanted
a_booter_keeps =
    static-IsBooter disk (λ id. id) (codes "/k") (codes "/a" ∷ []) (codes "quiet") (omega arith)

serve_dhcp-BootsFor_example :
    (packet : DhcpPacket) × IsDiscover (take 1024 (discover 6)) packet
    × BootsFor a_booter Wanted [] tt tt packet.mac
serve_dhcp-BootsFor_example =
    serve_dhcp-BootsFor a_booter (λ s. Unit {0}) Wanted a_booter_keeps Wanted-Lacks interfaces [] tt
      tt 2 client (discover 6) 2 everywhere offered_packet tt (omega arith) runs_serve

serve_request-IsChained_example :
    IsChained a_booter Wanted interfaces
      (pos 70)
      []
      tt
      tt
      2
      (requested [] (128 ∷ 0 ∷ 0 ∷ 0 ∷ []))
      replied_packet
serve_request-IsChained_example =
    serve_request-IsChained a_booter (λ s. Unit {0}) Wanted interfaces (pos 70) [] tt tt 2 client
      select 2 client replied_packet (requested [] (128 ∷ 0 ∷ 0 ∷ 0 ∷ [])) a_booter_keeps
      Wanted-Lacks tt (omega arith) select-IsBootRequest refl refl runs_chain
