-- ===== src/Chain.antt =====
-- dhcp/dhcp.go, http/http.go and api/api.go together: from the offer to the boot, for any booter that
-- keeps the promise of its interface.
pub mod Reply
use mathlib.Core.Path.{subst}
use pixiecore.Api.Plans.{Plan, IsBooter}
use pixiecore.Api.{Booter}
use pixiecore.Dhcp.Interface.{Iface}
use pixiecore.Dhcp.Packet.{DhcpPacket}
use pixiecore.Dhcp.Parse.Accepts.{IsDiscover}
use pixiecore.Dhcp.Serve.Offers.{serve_dhcp-write_iff}
use pixiecore.Dhcp.Serve.{serve_dhcp}
use pixiecore.Dhcp.Socket.{UdpAddr, received, write}
use pixiecore.HardwareAddr.{sized}
use pixiecore.Http.Config.{plain_text}
use pixiecore.Http.Files.Boots.{config_path, Boots, serve_http-Boots}
use pixiecore.Http.Files.{serve_http}
use pixiecore.Http.{answered}
use pixiecore.Api.Remote.Links.Signing.{All-cut}
use pixiecore.Prelude.{
  ◌≤◌, ℕ, ◌<◌, some, ◌≡◌, refl, sym, ap, arith, Bytes, IsBytes, Lacks, length, length-take,
  length-drop, take, drop, Result, ok,
}

-- 6 of the bytes read into a buffer, behind the 28th.
pub mac-IsBytes : (d : Bytes) → IsBytes d → IsBytes (take 6 (drop 28 (take 1024 d)))
mac-IsBytes d h =
    let cut = (All-cut (λ c. c < 256) 1024 d h).0 in
    let behind = (All-cut (λ c. c < 256) 28 (take 1024 d) cut).1 in
    (All-cut (λ c. c < 256) 6 (drop 28 (take 1024 d)) behind).0

pub mac-sized :
    (b : Bytes) → 240 ≤ length b → sized (some (take 6 (drop 28 b))) ≡ some (take 6 (drop 28 b))
mac-sized b long =
    let six : length (take 6 (drop 28 b)) ≡ 6 =
      omega (arith, length-take 6 (drop 28 b), length-drop 28 b) in
    rw six

-- The machine `mac` boots in the states `s` and `t`: it has a plan that was wanted for it, and gets a
-- configuration that boots it.
pub record BootsFor {S E : Type 0} (b : Booter S E) (Wanted : Bytes → Plan E → Type 0)
    (ldlinux : Bytes) (s t : S) (mac : Bytes) : Type 0 where
  pub plan : Plan E
  pub wanted : Wanted mac plan
  pub body : Bytes
  pub after : S
  pub config : serve_http b ldlinux s (config_path mac) ≡ (after, answered 200 plain_text body)
  pub boots : Boots b ldlinux t body plan

-- A booter that keeps its promise: what its interface says, and plain command lines.
module _ {S E : Type 0} (b : Booter S E) (Ready : S → Type 0) (Wanted : Bytes → Plan E → Type 0)
    (keeps : IsBooter b Ready Wanted)
    (plain : (mac : Bytes) (p : Plan E) → Wanted mac p → Lacks b'\n' p.cmdline) where
  pub approved-BootsFor :
      (ldlinux : Bytes) (s t : S) (mac : Bytes)
      → Ready s
      → IsBytes mac
      → sized (some mac) ≡ some mac
      → b.should_boot mac ≡ ok tt
      → BootsFor b Wanted ldlinux s t mac
  approved-BootsFor ldlinux s t mac ready bytes size approved =
      let (spec, s', p, made, issued, wanted) = keeps.issues s mac ready approved in
      let (body, config, boots) =
        serve_http-Boots b ldlinux s t mac spec p bytes size made issued (plain mac p wanted) in
      record { plan = p; wanted = wanted; body = body; after = s'; config = config; boots = boots }

  -- A machine that the ProxyDHCP server makes an offer to boots what its booter wants for it: the path
  -- that pxelinux makes of its address gives a configuration whose links fetch the files of that
  -- plan, in order. The booter keeps its promise and is ready, and no command line that it wants has
  -- a line break.
  pub serve_dhcp-BootsFor :
      {N : Type 0} (interface_by_index : ℕ → Result N (Iface N)) (ldlinux : Bytes) (s t : S) (i : ℕ)
      (addr : UdpAddr) (d : Bytes) (j : ℕ) (to : UdpAddr) (pkt : Bytes)
      → Ready s
      → IsBytes d
      → serve_dhcp b.should_boot interface_by_index (received i addr d) ≡ write j to pkt
      → (packet : DhcpPacket) × IsDiscover (take 1024 d) packet
        × BootsFor b Wanted ldlinux s t packet.mac
  serve_dhcp-BootsFor interface_by_index ldlinux s t i addr d j to pkt ready bytes h =
      let o = (serve_dhcp-write_iff b.should_boot interface_by_index i addr d j to pkt).0 h in
      (
        o.packet,
        o.discover,
        approved-BootsFor ldlinux s t o.packet.mac ready
            (subst IsBytes (sym o.discover.mac) (mac-IsBytes d bytes))
            (subst (λ m. sized (some m) ≡ some m) (sym o.discover.mac)
              (mac-sized (take 1024 d) o.discover.long))
            o.approved,
      )
