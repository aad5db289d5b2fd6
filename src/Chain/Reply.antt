-- ===== src/Chain/Reply.antt =====
-- pxe/pxe.go and http/http.go together: the URL of a reply leads to the HTTP server's configuration.
use mathlib.Core.Path.{subst}
use pixiecore.Api.Plans.{Plan, IsBooter}
use pixiecore.Api.{Booter}
use pixiecore.Chain.{mac-IsBytes, mac-sized, BootsFor, approved-BootsFor}
use pixiecore.Dhcp.Interface.{Iface, interface_ip}
use pixiecore.Dhcp.Socket.{UdpAddr, received, write}
use pixiecore.HardwareAddr.{sized, mac_text}
use pixiecore.Http.Config.Reading.{cut, cut-append}
use pixiecore.Http.Files.Boots.{config_path}
use pixiecore.Pxe.Parse.Accepts.{IsBootRequest}
use pixiecore.Pxe.Parse.{PxePacket}
use pixiecore.Pxe.Reply.Layout.{IsReply, answered_with}
use pixiecore.Pxe.Serve.Replies.{serve_request-IsReply}
use pixiecore.Pxe.Serve.{ip_text, http_url, serve_request}
use pixiecore.Strconv.RoundTrip.{IsDigit, itoa-IsDigit}
use pixiecore.Strconv.{itoa, int_text}
use pixiecore.Strings.Splitting.{after_prefix-append}
use pixiecore.Strings.{after_prefix}
use pixiecore.Prelude.{
  ℕ, ℤ, pos, negsuc, suc, [], ◌∷◌, ◌++◌, Option, none, some, ◌≡◌, ◌≢◌, sym, ap, ◌∙◌, arith,
  append_assoc, Bytes, IsBytes, All-append, All-map, Lacks, codes, length, take, drop, Result, ok,
}

-- What pxelinux makes of the path prefix that it was given.
abbrev pub config_url : Bytes → Bytes → Bytes
config_url prefix mac = prefix ++ (codes "pxelinux.cfg/01-" ++ mac_text b'-' mac)

abbrev pub host_and_path : Option (Bytes × Bytes) → Option (Bytes × Bytes)
host_and_path none = none
host_and_path (some (host, rest)) = some (host, b'/' ∷ rest)

abbrev pub behind_scheme : Option Bytes → Option (Bytes × Bytes)
behind_scheme none = none
behind_scheme (some rest) = host_and_path (cut b'/' rest)

-- The host with its port, and the path of an HTTP URL.
pub split_url : Bytes → Option (Bytes × Bytes)
split_url u = behind_scheme (after_prefix (codes "http://") u)

itoa-Lacks : (n : ℕ) → Lacks b'/' (itoa n)
itoa-Lacks n = All-map (itoa n) (λ c (d : IsDigit c). omega (arith, d.0)) (itoa-IsDigit n)

int_text-Lacks : (n : ℤ) → Lacks b'/' (int_text n)
unfolding int_text
int_text-Lacks (pos n) = itoa-Lacks n
int_text-Lacks (negsuc n) = (omega arith, itoa-Lacks (suc n))

ip_text-Lacks : (ip : Bytes) → Lacks b'/' (ip_text ip)
ip_text-Lacks [] = tt
ip_text-Lacks (x ∷ []) = itoa-Lacks x
ip_text-Lacks (x ∷ y ∷ ip) =
    All-append (λ c. c ≢ b'/') (itoa x) (b'.' ∷ ip_text (y ∷ ip)) (itoa-Lacks x)
      (omega arith, ip_text-Lacks (y ∷ ip))

split_url-append :
    (host rest : Bytes)
    → Lacks b'/' host
    → split_url (codes "http://" ++ (host ++ (b'/' ∷ rest))) ≡ some (host, b'/' ∷ rest)
unfolding split_url
split_url-append host rest h =
    rw (after_prefix-append (codes "http://") (host ++ (b'/' ∷ rest)), cut-append b'/' host rest h)

pub config_url-split :
    (ip mac : Bytes) (port : ℤ)
    → split_url (config_url (http_url ip port) mac)
      ≡ some (ip_text ip ++ (b':' ∷ int_text port), config_path mac)
config_url-split ip mac port =
    let rest = codes "pxelinux.cfg/01-" ++ mac_text b'-' mac in
    let joined : ip_text ip ++ (b':' ∷ (int_text port ++ (b'/' ∷ []))) ++ rest
        ≡ (ip_text ip ++ (b':' ∷ int_text port)) ++ (b'/' ∷ rest) =
      append_assoc (ip_text ip) (b':' ∷ (int_text port ++ (b'/' ∷ []))) rest
      ∙ ap (λ (t : Bytes). ip_text ip ++ (b':' ∷ t)) (append_assoc (int_text port) (b'/' ∷ []) rest)
      ∙ sym (append_assoc (ip_text ip) (b':' ∷ int_text port) (b'/' ∷ rest)) in
    ap (λ (t : Bytes). split_url (codes "http://" ++ t)) joined
    ∙ split_url-append (ip_text ip ++ (b':' ∷ int_text port)) rest (
        All-append (λ c. c ≢ b'/') (ip_text ip) (b':' ∷ int_text port) (ip_text-Lacks ip)
          (omega arith, int_text-Lacks port))

-- The client of the request `p`, to which the server wrote `pkt`, boots: it reads in the packet the URL
-- of an HTTP server on the address that the packet comes from, that URL leads it to the path of its
-- configuration there, and it boots what was wanted for it.
pub record IsChained {S E N : Type 0} (b : Booter S E) (Wanted : Bytes → Plan E → Type 0)
    (interface_by_index : ℕ → Result N (Iface N)) (http_port : ℤ) (ldlinux : Bytes) (s t : S)
    (i : ℕ) (p : PxePacket) (pkt : Bytes) : Type 0 where
  pub server : Bytes
  pub reachable : interface_ip interface_by_index i ≡ ok server
  pub url : Bytes
  pub reply : IsReply (answered_with p server url) pkt
  pub leads :
      split_url (config_url url p.mac)
      ≡ some (ip_text server ++ (b':' ∷ int_text http_port), config_path p.mac)
  pub boots : BootsFor b Wanted ldlinux s t p.mac

-- A machine that the PXE server answers, with a boot type of 4 bytes, is pointed at the configuration that
-- boots what its booter wants for it, if the booter approves of it, keeps its promise and is ready,
-- and wants no command line with a line break.
pub serve_request-IsChained :
    {S E N : Type 0} (b : Booter S E) (Ready : S → Type 0) (Wanted : Bytes → Plan E → Type 0)
    (interface_by_index : ℕ → Result N (Iface N)) (http_port : ℤ) (ldlinux : Bytes) (s t : S)
    (i : ℕ) (addr : UdpAddr) (d : Bytes) (j : ℕ) (to : UdpAddr) (pkt : Bytes) (p : PxePacket)
    → IsBooter b Ready Wanted
    → ((mac : Bytes) (q : Plan E) → Wanted mac q → Lacks b'\n' q.cmdline)
    → Ready s
    → IsBytes d
    → IsBootRequest (take 1024 d) p
    → length p.boot_type ≡ 4
    → b.should_boot p.mac ≡ ok tt
    → serve_request http_port interface_by_index (received i addr d) ≡ write j to pkt
    → IsChained b Wanted interface_by_index http_port ldlinux s t i p pkt
serve_request-IsChained b Ready Wanted interface_by_index http_port ldlinux s t i addr d j to pkt p
      keeps plain ready bytes is four approved h =
    let (server, reachable, reply) =
      serve_request-IsReply http_port interface_by_index i addr d j to pkt p is four h in
    let mac_is : take 6 (drop 28 (take 1024 d)) ≡ p.mac =
      ap (λ (q : PxePacket). q.mac) (sym is.fields) in
    record {
      server = server;
      reachable = reachable;
      url = http_url server http_port;
      reply = reply;
      leads = config_url-split server p.mac http_port;
      boots =
          approved-BootsFor b Ready Wanted keeps plain ldlinux s t p.mac ready
            (subst IsBytes mac_is (mac-IsBytes d bytes))
            (subst (λ m. sized (some m) ≡ some m) mac_is (mac-sized (take 1024 d) is.long))
            approved;
    }
