-- ===== src/Tests/Started.antt =====
-- pixiecore/pixiecore.go: what `main` starts for the flags of a test, and a machine that boots from it.
use mathlib.Core.Path.{subst}
use pixiecore.Api.Remote.Links.Issuing.{Ready, Wanted}
use pixiecore.Api.Remote.Links.{remote_as_booter}
use pixiecore.Api.Remote.Specs.{IsAnswer}
use pixiecore.Api.Remote.{Answer, remote_booter}
use pixiecore.Tests.Remote.{
  marking, marking-IsSecretBox, a_remote, an_answer, client_get, web_get, json_decode, url_valid,
  an_answer-IsAnswer, some_random,
}
use pixiecore.Api.Static.Booting.{as_booter}
use pixiecore.Cli.Start.Booted.{
  flag_booter, flag_plan, IsBooted, start-IsBooted, start-IsBooted_remote,
}
use pixiecore.Strings.{ends_with}
use pixiecore.Cli.Start.{
  Ports, Servers, usage, no_asset, serving, servers, with_ldlinux, with_pxelinux, with_booter,
  start,
}
use pixiecore.Cli.{Flags, local, remote, picked_remote, pick_booter, no_mode}
use pixiecore.Strings.{split}
use pixiecore.Tests.Booting.{requested}
use pixiecore.Tests.Chaining.{select, select-IsBootRequest, replied_packet, runs_chain}
use pixiecore.Tests.Modes.{static_flags, a_static, disk}
use pixiecore.Tests.Serving.{interfaces, client}
use pixiecore.Tests.Transfers.{ten, of_eight, late, runs_late}
use pixiecore.Tftp.Transfer.{transfer}
use pixiecore.Tests.Discovery.{a_mac}
use pixiecore.Prelude.{
  pos, suc, ◌*◌, ◌≤◌, All, Lacks, IsBytes, length, zeros, ok-injective, true, false, [], ◌∷◌, ◌≡◌,
  refl, arith, Bytes, codes, equal, if◌then◌else◌, Result, ok, err,
}

abbrev asset : Bytes → Result Bytes Bytes
asset name =
    if equal name (codes "lpxelinux.0")
    then ok ten
    else if equal name (codes "ldlinux.c32")
    then ok (codes "ldlinux")
    else err (codes "no asset")

abbrev pub ports : Ports
ports = record { dhcp = pos 67; pxe = pos 4011; tftp = pos 69; http = pos 70; debug = false }

abbrev pub started : Servers
started = servers ports a_static ten (codes "ldlinux")

abbrev no_flags : Flags
no_flags = record { api_server = []; kernel_file = []; initrd_file = []; kernel_cmdline = [] }

runs_start :
    ((start {E = Bytes} asset ports static_flags []).1 ≡ serving started)
    × ((start {E = Bytes} asset ports no_flags []).1 ≡ usage no_mode)
    × ((start {E = Bytes} (λ name. err name) ports static_flags []).1
        ≡ no_asset (codes "lpxelinux.0"))
unfolding start with_booter with_pxelinux with_ldlinux pick_booter split equal
runs_start = (refl, refl, refl)

start-IsBooted_example :
    (started.http.booter ≡ local (flag_booter static_flags))
    × IsBooted asset started
        (as_booter disk (λ id. id) (flag_booter static_flags))
        (λ mac q. q ≡ flag_plan disk (λ id. id) static_flags)
        interfaces
        tt
        tt
        2
        (requested [] (128 ∷ 0 ∷ 0 ∷ 0 ∷ []))
        replied_packet
        of_eight
        (transfer true started.tftp.handler of_eight late).writes
unfolding servers split
start-IsBooted_example =
    start-IsBooted asset ports started interfaces 2 client select 2 client replied_packet
      (requested [] (128 ∷ 0 ∷ 0 ∷ 0 ∷ [])) true of_eight late (omega arith) select-IsBootRequest
      refl runs_chain runs_late static_flags [] disk (λ id. id) (runs_start.0)
      (record { no_api = refl; kernel = λ e. cc; initrds = λ e. cc }) (omega arith) (omega arith)

abbrev api_flags : Flags
api_flags = record no_flags { api_server = codes "http://api" }

abbrev pub api_started : Servers
api_started = servers ports (remote a_remote) ten (codes "ldlinux")

abbrev random : Bytes
random = zeros 104

runs_start_remote : (start {E = Bytes} asset ports api_flags random).1 ≡ serving api_started
unfolding start with_booter with_pxelinux with_ldlinux pick_booter picked_remote remote_booter equal
    ends_with
runs_start_remote = refl

-- The sample server has the same answer for every machine.
the_answer :
    (mac : Bytes) (r : Answer)
    → IsAnswer client_get json_decode url_valid a_remote mac r
    → an_answer ≡ r
the_answer mac r h = ok-injective h.json

some_random-Ready : Ready marking client_get web_get json_decode url_valid a_remote some_random
some_random-Ready = (
  omega arith,
  λ mac r h.
      subst (λ (a : Answer). All IsBytes (a.kernel ∷ a.initrd) × (24 * suc (length a.initrd) ≤ 72))
        (the_answer mac r h) (omega arith),
)

start-IsBooted_remote_example :
    (api_started.http.booter ≡ remote a_remote)
    × IsBooted asset api_started
        (remote_as_booter marking client_get web_get json_decode url_valid a_remote)
        (Wanted marking client_get web_get json_decode url_valid a_remote)
        interfaces
        some_random
        []
        2
        (requested [] (128 ∷ 0 ∷ 0 ∷ 0 ∷ []))
        replied_packet
        of_eight
        (transfer true api_started.tftp.handler of_eight late).writes
unfolding servers ends_with
start-IsBooted_remote_example =
    start-IsBooted_remote asset ports api_started interfaces 2 client select 2 client replied_packet
      (requested [] (128 ∷ 0 ∷ 0 ∷ 0 ∷ [])) true of_eight late (omega arith) select-IsBootRequest
      refl runs_chain runs_late api_flags random some_random [] marking client_get web_get
      json_decode url_valid an_answer runs_start_remote
      (record { api = λ e. cc; no_kernel = refl; no_initrds = refl; no_cmdline = refl })
      (omega arith) marking-IsSecretBox some_random-Ready (an_answer-IsAnswer a_mac)
      (λ mac r h. subst (λ (a : Answer). Lacks b'\n' a.cmdline) (the_answer mac r h) (omega arith))
