-- ===== src/Tests/Running.antt =====
-- The running process: runs of it, and a whole boot.
use mathlib.Core.Path.{subst}
use pixiecore.Api.Plans.{Plan}
use pixiecore.Api.Remote.Links.Issuing.{issued}
use pixiecore.Api.Remote.{RemoteError}
use pixiecore.Api.Static.Booting.{as_booter, static_plan, static-IsBooter}
use pixiecore.Api.Static.{static_booter}
use pixiecore.Dhcp.Interface.{
  to4, is_global, is_link_local, is_loopback, first_addr, choose_addr, from_os, interface_ip,
}
use pixiecore.Dhcp.Options.{dhcp_option, walk}
use pixiecore.Dhcp.Parse.Accepts.{parse_dhcp_iff}
use pixiecore.Dhcp.Parse.{parse_dhcp, check_option, parse_guid}
use pixiecore.Http.Config.{plain_text, config_text, link_spec}
use pixiecore.Http.Files.Boots.{config_path}
use pixiecore.Http.{answered}
use pixiecore.Cli.Start.{servers}
use pixiecore.System.Booting.{HasBooted, Reach-HasBooted}
use pixiecore.System.Exchange.{Client, IsClient}
use pixiecore.System.Lifting.{with_random-IsBooter}
use pixiecore.System.Randomness.{signed_apart}
use pixiecore.System.Survival.{IsCalm, IsUp, Reach-IsUp}
use pixiecore.System.{
  World, Process, launched, responded, open_proxy_dhcp, or_exit, http_step, http, Reach, here,
  later,
}
use pixiecore.Tests.Booting.{requested}
use pixiecore.Tests.Chaining.{select, select-IsBootRequest}
use pixiecore.Tests.Discovery.{a_mac, an_ip, discover, discovered}
use pixiecore.Tests.Remote.{
  marking, a_remote, an_answer, client_get, web_get, json_decode, url_valid, an_answer-IsAnswer,
  some_random,
}
use pixiecore.Tests.Serving.{interfaces, client}
use pixiecore.Tests.Started.{ports, started, api_started}
use pixiecore.Tests.Modes.{a_static}
use pixiecore.Tests.Transfers.{ten, of_eight}
use pixiecore.Tftp.Packet.{nul_str}
use pixiecore.Strconv.{atoi}
use pixiecore.Tftp.Request.Accepts.{parse_rrq_iff}
use pixiecore.Tftp.Request.{parse_rrq}
use pixiecore.Prelude.{
  ℕ, ◌*◌, ◌≤◌, true, [], ◌∷◌, ◌++◌, ◌≡◌, refl, sym, arith, Bytes, Lacks, codes, take, drop, slice,
  index, uint16, equal, ok,
}

abbrev a_world : World Bytes
a_world = record {
  interface_by_index = interfaces;
  os_open = λ path. ok (record { bytes = path; complete = true });
  no_file = λ id. RemoteError.transport id;
  box = marking;
  client_get = client_get;
  web_get = web_get;
  json_decode = json_decode;
  url_valid = url_valid;
  text = λ addr e. codes "bad request";
}

abbrev first : Process
first = launched some_random

-- The ProxyDHCP server listens, and reads a discovery.
abbrev listening : Process
listening =
    or_exit {E = Bytes} (open_proxy_dhcp (ok tt) (ok tt)) (record first { dhcp_open = true }) first

abbrev up : Process
up = record first { dhcp_open = true; pxe_open = true; tftp_open = true; http_open = true }

interfaces-IsCalm : IsCalm interfaces
interfaces-IsCalm = record { finds = λ i h. ground arith; lists = λ i iface found h. ground arith }

Reach-IsUp_example : IsUp (http_step a_world started (codes "/x") up)
Reach-IsUp_example =
    Reach-IsUp a_world started interfaces-IsCalm (λ c h. ground arith)
      (refl, refl, refl, refl, refl) (later here (http (codes "/x") refl refl))

-- The second request is for a path that no handler serves.
signed_apart_example :
    ((http_step a_world api_started (config_path a_mac) up).history
      ≡ responded (config_path a_mac) (
          answered 200 plain_text
            (config_text (link_spec (issued marking a_remote some_random an_answer))))
        ∷ [])
    × (n : ℕ) × (24 * 2 ≤ n)
    × ((http_step a_world api_started
          (codes "/x")
          (http_step a_world api_started (config_path a_mac) up)).random
        ≡ drop n some_random)
unfolding http_step servers
signed_apart_example =
    signed_apart a_world api_started up a_remote an_answer a_mac refl (an_answer-IsAnswer a_mac)
      (omega arith) (omega arith) refl (later here (http (codes "/x") refl refl))

abbrev a_client : Client
a_client = record {
  iface = 2;
  from = client;
  discovery = discover 6;
  request = select;
  read =
      0
      ∷ 1
      ∷ (codes "boot"
          ++ (0 ∷ (codes "octet" ++ (0 ∷ (codes "blksize" ++ (0 ∷ (codes "8" ++ (0 ∷ []))))))));
}

a_client-IsClient :
    IsClient a_world a_client discovered (requested [] (128 ∷ 0 ∷ 0 ∷ 0 ∷ [])) of_eight an_ip
unfolding parse_dhcp check_option parse_guid walk dhcp_option slice index uint16 equal parse_rrq
    atoi nul_str interface_ip from_os choose_addr first_addr to4 is_global is_link_local is_loopback
a_client-IsClient = record {
  discovers = (parse_dhcp_iff (take 1024 (discover 6)) discovered).0 refl;
  requests = select-IsBootRequest;
  reads = (parse_rrq_iff (take 512 a_client.read) of_eight).0 refl;
  reachable = refl;
  four = refl;
  same_machine = refl;
}

abbrev Meant : Bytes → Plan (RemoteError Bytes) → Type 0
Meant mac q =
    q
    ≡ static_plan a_world.os_open a_world.no_file (codes "/k") (codes "/a" ∷ codes "/b" ∷ [])
        (codes "quiet")

Meant-Lacks : (mac : Bytes) (q : Plan (RemoteError Bytes)) → Meant mac q → Lacks b'\n' q.cmdline
Meant-Lacks mac q e =
    let plain : Lacks b'\n' (codes "quiet") = omega arith in
    subst (λ (x : Plan (RemoteError Bytes)). Lacks b'\n' x.cmdline) (sym e) plain

Reach-HasBooted_example :
    (q : Process) × Reach a_world started up q
    × IsUp q
    × HasBooted a_world ports a_static ten
        (codes "ldlinux")
        a_client
        discovered
        (requested [] (128 ∷ 0 ∷ 0 ∷ 0 ∷ []))
        of_eight
        an_ip
        a_client-IsClient
        Meant
        up
        q
Reach-HasBooted_example =
    Reach-HasBooted a_world ports a_static ten (codes "ldlinux") a_client discovered
      (requested [] (128 ∷ 0 ∷ 0 ∷ 0 ∷ [])) of_eight an_ip a_client-IsClient (λ random. Unit {0})
      Meant 1 2 up
      (with_random-IsBooter
        (as_booter a_world.os_open a_world.no_file
          (static_booter (codes "/k") (codes "/a" ∷ codes "/b" ∷ []) (codes "quiet")))
        Meant
        (static-IsBooter a_world.os_open a_world.no_file (codes "/k") (codes "/a" ∷ codes "/b" ∷ [])
          (codes "quiet") (omega arith)))
      Meant-Lacks refl (omega arith) refl (omega arith) (omega arith) (refl, refl, refl, refl, refl)
      tt
