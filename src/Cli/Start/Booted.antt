-- ===== src/Cli/Start/Booted.antt =====
-- pixiecore/pixiecore.go: what the servers that `main` starts do together for a machine.
use mathlib.Core.Path.{subst}
use pixiecore.Api.Plans.{Plan, IsBooter}
use pixiecore.Api.Remote.Links.Issuing.{Ready, Wanted, remote-IsBooter}
use pixiecore.Api.Remote.Links.Signing.{IsSecretBox, All-cut}
use pixiecore.Api.Remote.Links.{SecretBox, remote_should_boot, remote_as_booter}
use pixiecore.Api.Remote.Specs.{IsAnswer, get_spec_iff}
use pixiecore.Api.Remote.{Get, Answer, RemoteError, RemoteBooter, with_slash}
use pixiecore.Api.Static.Booting.{as_booter, static_plan, static-IsBooter}
use pixiecore.Api.Static.{StaticBooter, static_booter}
use pixiecore.Api.{Content, Booter}
use pixiecore.Chain.Reply.{IsChained, serve_request-IsChained}
use pixiecore.Cli.Picking.{IsApiMode, IsStaticMode, Picks}
use pixiecore.Cli.Start.Started.{IsStarted, start_iff}
use pixiecore.Cli.Start.{Ports, Servers, serving, servers, start}
use pixiecore.Cli.{Flags, Picked, local, remote}
use pixiecore.Dhcp.Interface.{Iface}
use pixiecore.Dhcp.Socket.{UdpAddr, received, write}
use pixiecore.Pxe.Parse.Accepts.{IsBootRequest}
use pixiecore.Pxe.Parse.{PxePacket}
use pixiecore.Pxe.Serve.{serve_request}
use pixiecore.Strings.{split}
use pixiecore.Tftp.Request.{Rrq}
use pixiecore.Tftp.Send.{Event}
use pixiecore.Tftp.Transfer.Whole.{opened-injective, Served, transfer-Served}
use pixiecore.Tftp.Transfer.{Stream, complete, blob, transfer}
use pixiecore.Prelude.{
  ◌++◌, inl, inr, List, ℕ, ◌^◌, ◌<◌, Bool, ◌≡◌, refl, sym, ap, ◌∙◌, Bytes, IsBytes, Lacks, codes,
  length, take, Result, ok,
}

-- What static mode makes of the flags: a booter, and the plan for every machine.
abbrev pub flag_booter : Flags → StaticBooter
flag_booter f = static_booter f.kernel_file (split b',' f.initrd_file) f.kernel_cmdline

module _ {O : Type 0} (os_open : Bytes → Result O Content) (no_file : Bytes → O) where
  abbrev pub flag_plan : Flags → Plan O
  flag_plan f =
      static_plan os_open no_file f.kernel_file (split b',' f.initrd_file) f.kernel_cmdline

  plan-Lacks :
      (f : Flags)
      → Lacks b'\n' f.kernel_cmdline
      → (q : Plan O) → q ≡ flag_plan f
      → Lacks b'\n' q.cmdline
  plan-Lacks f plain q e = subst (λ (r : Plan O). Lacks b'\n' r.cmdline) (sym e) plain

static_of :
    (f : Flags) (random : Bytes) (b : Picked)
    → IsStaticMode f
    → Picks f random b
    → b ≡ local (flag_booter f)
static_of f random b mode (inl (_, e)) = e
static_of f random b mode (inr (api, _, _)) = absurd (api.api mode.no_api)

-- What API mode makes of the flags: a booter with a key of 32 random bytes.
abbrev pub flag_remote : Flags → Bytes → RemoteBooter
flag_remote f random = record {
  url_prefix = with_slash f.api_server ++ codes "v1";
  key = take 32 random;
}

remote_of :
    (f : Flags) (random : Bytes) (b : Picked)
    → IsApiMode f
    → Picks f random b
    → b ≡ remote (flag_remote f random)
remote_of f random b mode (inl (here, e)) = absurd (mode.api here.no_api)
remote_of f random b mode (inr (_, _, e)) = e

-- A machine has the asset `lpxelinux.0` by TFTP, in the datagrams `ws`, and the reply `pkt` leads from
-- there to the HTTP server, which has the asset `ldlinux.c32` and boots what was wanted: the
-- configuration is made in the state `u`, and its links are followed in `v`.
pub record IsBooted {A N S E : Type 0} (asset : Bytes → Result A Bytes) (s : Servers)
    (b : Booter S E) (Meant : Bytes → Plan E → Type 0) (interface_by_index : ℕ → Result N (Iface N))
    (u v : S) (i : ℕ) (packet : PxePacket) (pkt : Bytes) (req : Rrq) (ws : List Bytes)
    : Type 0 where
  pub pxelinux : Bytes
  pub has_pxelinux : asset (codes "lpxelinux.0") ≡ ok pxelinux
  pub served : Served req.block_size pxelinux ws
  pub has_ldlinux : asset (codes "ldlinux.c32") ≡ ok s.http.ldlinux
  pub chained : IsChained b Meant interface_by_index s.http.port s.http.ldlinux u v i packet pkt

pub blob-Served :
    (image : Bytes) (dialed : Bool) (req : Rrq) (es : List Event)
    → (transfer dialed (blob image) req es).outcome ≡ complete
    → Served req.block_size image (transfer dialed (blob image) req es).writes
blob-Served image dialed req es h =
    let (st, e, _, served) = transfer-Served dialed (blob image) req es h in
    let same : st.content ≡ image =
      unfold blob in ap (λ (t : Stream). t.content) (opened-injective (sym e)) in
    subst (λ c. Served req.block_size c (transfer dialed (blob image) req es).writes) same served

-- A machine whose boot request was answered and whose transfer completes.
module _ {A N : Type 0} (asset : Bytes → Result A Bytes) (p : Ports) (s : Servers)
    (interface_by_index : ℕ → Result N (Iface N)) (i : ℕ) (addr : UdpAddr) (d : Bytes) (j : ℕ)
    (to : UdpAddr) (pkt : Bytes) (packet : PxePacket) (dialed : Bool) (req : Rrq) (es : List Event)
    (bytes : IsBytes d) (is : IsBootRequest (take 1024 d) packet)
    (four : length packet.boot_type ≡ 4)
    (answered : serve_request s.pxe.http_port interface_by_index (received i addr d)
      ≡ write j to pkt)
    (done : (transfer dialed s.tftp.handler req es).outcome ≡ complete) where
  -- For any booter that keeps its promise and is ready, and wants no command line with a line break.
  started-IsBooted :
      {S E : Type 0} (picked : Picked) (b : Booter S E) (Able : S → Type 0)
      (Meant : Bytes → Plan E → Type 0) (u v : S)
      → IsStarted asset p picked s
      → IsBooter b Able Meant
      → ((mac : Bytes) (q : Plan E) → Meant mac q → Lacks b'\n' q.cmdline)
      → Able u
      → b.should_boot packet.mac ≡ ok tt
      → IsBooted asset s b Meant interface_by_index u v i packet pkt req
          (transfer dialed s.tftp.handler req es).writes
  unfolding servers blob
  started-IsBooted picked b Able Meant u v it keeps plain able approved =
      let handler_is : s.tftp.handler ≡ blob it.pxelinux =
        ap (λ (t : Servers). t.tftp.handler) it.started in
      let port_is : s.pxe.http_port ≡ s.http.port =
        ap (λ (t : Servers). t.pxe.http_port) it.started
        ∙ sym (ap (λ (t : Servers). t.http.port) it.started) in
      let ldlinux_is : s.http.ldlinux ≡ it.ldlinux =
        ap (λ (t : Servers). t.http.ldlinux) it.started in
      record {
        pxelinux = it.pxelinux;
        has_pxelinux = it.has_pxelinux;
        served =
            subst
              (λ handler. Served req.block_size it.pxelinux (transfer dialed handler req es).writes)
              (sym handler_is)
              (blob-Served it.pxelinux dialed req es (
                subst (λ handler. (transfer dialed handler req es).outcome ≡ complete) handler_is
                  done));
        has_ldlinux = it.has_ldlinux ∙ ap ok (sym ldlinux_is);
        chained =
            serve_request-IsChained b Able Meant interface_by_index s.http.port s.http.ldlinux u v i
              addr d j to pkt packet keeps plain able bytes is four approved
              (subst
                (λ port. serve_request port interface_by_index (received i addr d) ≡ write j to pkt)
                port_is answered);
      }

  -- In static mode, the servers that `main` starts work together: a machine whose boot request, with a
  -- boot type of 4 bytes, the PXE server answers and whose TFTP transfer completes has got the whole
  -- embedded pxelinux, and its reply leads to the HTTP server, with the embedded ldlinux, where it
  -- boots the kernel and the initrds of the flags. There are fewer than 2^63 initrds, and no line
  -- break in the command line.
  pub start-IsBooted :
      {E O : Type 0} (f : Flags) (random : Bytes) (os_open : Bytes → Result O Content)
      (no_file : Bytes → O)
      → (start {E = E} asset p f random).1 ≡ serving s
      → IsStaticMode f
      → length (split b',' f.initrd_file) < 2 ^ 63
      → Lacks b'\n' f.kernel_cmdline
      → (s.http.booter ≡ local (flag_booter f))
        × IsBooted asset s
            (as_booter os_open no_file (flag_booter f))
            (λ mac q. q ≡ flag_plan os_open no_file f)
            interface_by_index
            tt
            tt
            i
            packet
            pkt
            req
            (transfer dialed s.tftp.handler req es).writes
  unfolding servers
  start-IsBooted f random os_open no_file h mode few plain =
      let (picked, picks, it) = (start_iff asset p s f random).0 h in
      (
        ap (λ (t : Servers). t.http.booter) it.started ∙ static_of f random picked mode picks,
        started-IsBooted picked (as_booter os_open no_file (flag_booter f)) (λ u. Unit {0})
            (λ mac q. q ≡ flag_plan os_open no_file f) tt tt it
            (static-IsBooter os_open no_file f.kernel_file (split b',' f.initrd_file)
              f.kernel_cmdline few)
            (λ mac. plan-Lacks os_open no_file f plain) tt refl,
      )

  -- In API mode, a machine with an answer of the API server, which the PXE server answers, with a boot
  -- type of 4 bytes, and whose transfer completes has got the whole embedded pxelinux, and its
  -- reply leads to the HTTP server, where it boots what the URLs of an answer name. Secretbox keeps its
  -- laws, there is enough randomness for any answer, and no answer has a line break in its command
  -- line.
  pub start-IsBooted_remote :
      {E : Type 0} (f : Flags) (random u v : Bytes) (box : SecretBox)
      (client_get web_get : Bytes → Get E) (json_decode : Content → Result E Answer)
      (url_valid : Bytes → Bool) (r : Answer)
      → (start {E = E} asset p f random).1 ≡ serving s
      → IsApiMode f
      → IsBytes random
      → IsSecretBox box
      → Ready box client_get web_get json_decode url_valid (flag_remote f random) u
      → IsAnswer client_get json_decode url_valid (flag_remote f random) packet.mac r
      → ((mac : Bytes) (a : Answer)
          → IsAnswer client_get json_decode url_valid (flag_remote f random) mac a
          → Lacks b'\n' a.cmdline)
      → (s.http.booter ≡ remote (flag_remote f random))
        × IsBooted asset s
            (remote_as_booter box client_get web_get json_decode url_valid (flag_remote f random))
            (Wanted box client_get web_get json_decode url_valid (flag_remote f random))
            interface_by_index
            u
            v
            i
            packet
            pkt
            req
            (transfer dialed s.tftp.handler req es).writes
  unfolding servers
  start-IsBooted_remote {E = E} f random u v box client_get web_get json_decode url_valid r h mode
        rb laws ready answer plain =
      let (picked, picks, it) = (start_iff asset p s f random).0 h in
      let b = flag_remote f random in
      (
        ap (λ (t : Servers). t.http.booter) it.started ∙ remote_of f random picked mode picks,
        started-IsBooted picked (remote_as_booter box client_get web_get json_decode url_valid b)
            (Ready box client_get web_get json_decode url_valid b)
            (Wanted box client_get web_get json_decode url_valid b) u v it
            (remote-IsBooter box client_get web_get json_decode url_valid b laws
              (All-cut (λ c. c < 256) 32 random rb).0)
            (λ mac q (a, found, e).
              subst (λ (x : Plan (RemoteError E)). Lacks b'\n' x.cmdline) (sym e)
                (plain mac a found))
            ready
            (unfold remote_should_boot in
              rw ((get_spec_iff client_get json_decode url_valid b packet.mac r).1 answer)),
      )
