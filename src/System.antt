-- ===== src/System.antt =====
-- The running process: what `main` of pixiecore/pixiecore.go starts, with the start-up of each server
-- (dhcp/dhcp.go, pxe/pxe.go, tftp/tftp.go, http/http.go), interleaved in any order. A round of a
-- loop, a transfer and an HTTP handler are one step each.
pub mod Asked
pub mod Sound
pub mod Survival
pub mod Spending
pub mod Randomness
pub mod Exchange
pub mod Booting
pub mod Lifting
use pixiecore.Api.Remote.Links.{SecretBox, remote_as_booter}
use pixiecore.Api.Remote.{Get, Answer, RemoteError, read_random}
use pixiecore.Api.Static.Booting.{as_booter}
use pixiecore.Api.{BootSpec, Content, Booter}
use pixiecore.Cli.Start.{Servers}
use pixiecore.Cli.{Picked, remote, local}
use pixiecore.Dhcp.Interface.{Iface}
use pixiecore.Dhcp.Parse.{DhcpError}
use pixiecore.Dhcp.Serve.{serve_dhcp}
use pixiecore.Dhcp.Socket.{
  UdpAddr, Received, Effect, log_read_error, not_parsed, not_approved, no_address, write,
}
use pixiecore.Http.Files.{serve_http}
use pixiecore.Http.{Response}
use pixiecore.Pxe.Parse.{PxeError}
use pixiecore.Pxe.Serve.{serve_request}
use pixiecore.Tftp.Request.{Rrq, RrqError}
use pixiecore.Tftp.Send.{Event}
use pixiecore.Tftp.Serve.{Arrival, Action, log_error, reply, start, serve_one}
use pixiecore.Tftp.Transfer.{Transfer, transfer}
use pixiecore.Prelude.{
  ℕ, Bool, true, false, List, [], ◌∷◌, ◌++◌, Option, none, some, ◌≡◌, Bytes, Result, ok, err, fault,
  ◌>>=◌, ◌>>◌,
}

-- What the process is given by its system, with errors `E`.
pub record World (E : Type 0) : Type 0 where
  pub interface_by_index : ℕ → Result E (Iface E)
  pub os_open : Bytes → Result (RemoteError E) Content
  pub no_file : Bytes → RemoteError E
  pub box : SecretBox
  pub client_get : Bytes → Get E
  pub web_get : Bytes → Get E
  pub json_decode : Content → Result E Answer
  pub url_valid : Bytes → Bool
  pub text : UdpAddr → RrqError → Bytes

-- A booter that leaves the source of randomness alone.
abbrev pub with_random : {E : Type 0} → Booter (Unit {0}) E → Booter Bytes E
with_random b = record {
  should_boot = b.should_boot;
  boot_spec = λ random mac. (random, (b.boot_spec tt mac).1);
  file = b.file;
}

-- The methods of the booter that was picked.
abbrev pub booter_of : {E : Type 0} → World E → Picked → Booter Bytes (RemoteError E)
booter_of w (remote b) = remote_as_booter w.box w.client_get w.web_get w.json_decode w.url_valid b
booter_of w (local b) = with_random (as_booter w.os_open w.no_file b)

-- `ServeProxyDHCP`, up to its loop: what `net.ListenPacket` and `SetControlMessage` return
unfoldable pub open_proxy_dhcp :
    {E : Type 0} → Result E (Unit {0}) → Result E (Unit {0}) → Result E (Unit {0})
open_proxy_dhcp listened set = do listened; set

-- `ServePXE`, up to its loop
unfoldable pub open_pxe :
    {E : Type 0} → Result E (Unit {0}) → Result E (Unit {0}) → Result E (Unit {0})
open_pxe listened set = do listened; set

-- `ListenAndServe` of tftp, up to the loop of `Serve`
unfoldable pub listen_and_serve : {E : Type 0} → Result E (Unit {0}) → Result E (Unit {0})
listen_and_serve listened = do listened; ok tt

pub data HttpError (E : Type 0) : Type 0 where
  no_signing_key : HttpError E
  not_listening : E → HttpError E

unfoldable pub with_signing_key :
    {E : Type 0} → Result E (Unit {0}) → Option Bytes → Result (HttpError E) (Unit {0})
with_signing_key listened none = err no_signing_key
with_signing_key (ok u) (some key) = ok tt
with_signing_key (err e) (some key) = err (not_listening e)
with_signing_key fault (some key) = fault

-- `ServeHTTP`, up to the loop of `http.ListenAndServe`; the state is the source of randomness
unfoldable pub open_http :
    {E : Type 0} → Result E (Unit {0}) → Bytes → Bytes × Result (HttpError E) (Unit {0})
unfolding with_signing_key
open_http listened random =
    let (random', key) = read_random 32 random in (random', with_signing_key listened key)

-- What has happened: what a round read and did, a transfer that has ended, and a response to a path.
pub data Happened : Type 0 where
  dhcp_round : Received → Effect DhcpError → Happened
  pxe_round : Received → Effect PxeError → Happened
  tftp_round : Arrival UdpAddr → Action UdpAddr → Happened
  transferred : UdpAddr → Rrq → Transfer → Happened
  responded : Bytes → Response → Happened

-- The servers that listen, whether the process has ended, what is left of the randomness, the
-- transfers that have been started, and what has happened, the last first.
pub record Process : Type 0 where
  pub dhcp_open : Bool
  pub pxe_open : Bool
  pub tftp_open : Bool
  pub http_open : Bool
  pub exited : Bool
  pub random : Bytes
  pub transfers : List (UdpAddr × Rrq)
  pub history : List Happened

-- The process when `main` has started the servers.
abbrev pub launched : Bytes → Process
launched random = record {
  dhcp_open = false;
  pxe_open = false;
  tftp_open = false;
  http_open = false;
  exited = false;
  random = random;
  transfers = [];
  history = [];
}

-- `log.Fatalln` ends the process when a server returns an error, and a panic ends it too.
unfoldable pub or_exit : {E : Type 0} → Result E (Unit {0}) → Process → Process → Process
or_exit (ok u) opened p = opened
or_exit (err e) opened p = record p { exited = true }
or_exit fault opened p = record p { exited = true }

abbrev pub happens : Happened → Process → Process
happens h p = record p { history = h ∷ p.history }

-- A panic in a round ends the process.
abbrev pub after_effect : {E : Type 0} → Effect E → Process → Process
after_effect Effect.crash p = record p { exited = true }
after_effect log_read_error p = p
after_effect (not_parsed e) p = p
after_effect (not_approved mac) p = p
after_effect (no_address mac) p = p
after_effect (write i addr packet) p = p

-- `go transfer(addr, req, handler)`
abbrev pub spawn : Action UdpAddr → Process → Process
spawn (start addr req) p = record p { transfers = (addr, req) ∷ p.transfers }
spawn log_error p = p
spawn (reply addr packet) p = p
spawn Action.crash p = record p { exited = true }

module _ {E : Type 0} (w : World E) (s : Servers) where
  unfoldable pub dhcp_step : Received → Process → Process
  dhcp_step r p =
      let booter = booter_of w s.dhcp.booter in
      let effect = serve_dhcp booter.should_boot w.interface_by_index r in
      after_effect effect (happens (dhcp_round r effect) p)

  unfoldable pub pxe_step : Received → Process → Process
  pxe_step r p =
      let effect = serve_request s.pxe.http_port w.interface_by_index r in
      after_effect effect (happens (pxe_round r effect) p)

  unfoldable pub tftp_step : Arrival UdpAddr → Process → Process
  tftp_step a p = let action = serve_one w.text a in spawn action (happens (tftp_round a action) p)

  unfoldable pub transfer_step :
      List (UdpAddr × Rrq)
      → UdpAddr
      → Rrq
      → List (UdpAddr × Rrq)
      → Bool
      → List Event
      → Process
      → Process
  transfer_step before addr req after dialed es p =
      happens (transferred addr req (transfer dialed s.tftp.handler req es))
        (record p { transfers = before ++ after })

  unfoldable pub http_step : Bytes → Process → Process
  http_step path p =
      let (random', response) =
        serve_http (booter_of w s.http.booter) s.http.ldlinux p.random path in
      happens (responded path response) (record p { random = random' })

  unfoldable pub http_start : Result E (Unit {0}) → Process → Process
  unfolding open_http or_exit
  http_start listened p =
      let (random', opened) = open_http listened p.random in
      let p' = record p { random = random' } in or_exit opened (record p' { http_open = true }) p'

  -- One step of the process. What a socket, a client and the system do is left open.
  pub data Step (p : Process) : Process → Type 0 where
    start_dhcp :
        (listened set : Result E (Unit {0}))
        → p.exited ≡ false
        → p.dhcp_open ≡ false
        → Step p (or_exit (open_proxy_dhcp listened set) (record p { dhcp_open = true }) p)
    start_pxe :
        (listened set : Result E (Unit {0}))
        → p.exited ≡ false
        → p.pxe_open ≡ false
        → Step p (or_exit (open_pxe listened set) (record p { pxe_open = true }) p)
    start_tftp :
        (listened : Result E (Unit {0}))
        → p.exited ≡ false
        → p.tftp_open ≡ false
        → Step p (or_exit (listen_and_serve listened) (record p { tftp_open = true }) p)
    start_http :
        (listened : Result E (Unit {0}))
        → p.exited ≡ false
        → p.http_open ≡ false
        → Step p (http_start listened p)
    dhcp : (r : Received) → p.exited ≡ false → p.dhcp_open ≡ true → Step p (dhcp_step r p)
    pxe : (r : Received) → p.exited ≡ false → p.pxe_open ≡ true → Step p (pxe_step r p)
    tftp : (a : Arrival UdpAddr) → p.exited ≡ false → p.tftp_open ≡ true → Step p (tftp_step a p)
    finish :
        (before : List (UdpAddr × Rrq)) (addr : UdpAddr) (req : Rrq) (after : List (UdpAddr × Rrq))
        (dialed : Bool) (es : List Event)
        → p.exited ≡ false
        → p.transfers ≡ before ++ ((addr, req) ∷ after)
        → Step p (transfer_step before addr req after dialed es p)
    http : (path : Bytes) → p.exited ≡ false → p.http_open ≡ true → Step p (http_step path p)

  -- The runs of the process.
  pub data Reach (p : Process) : Process → Type 0 where
    here : Reach p p
    later : {q r : Process} → Reach p q → Step q r → Reach p r
