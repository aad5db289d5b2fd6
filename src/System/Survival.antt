-- ===== src/System/Survival.antt =====
-- The running process: nothing that a client sends ends it.
use mathlib.Core.Path.{subst}
use pixiecore.Api.Remote.Safety.{remote_should_boot-ne-fault}
use pixiecore.Api.{Content}
use pixiecore.Cli.Start.{Servers}
use pixiecore.Cli.{Picked, local, remote}
use pixiecore.Dhcp.Interface.Answers.{interface_ip-Answers, Answers}
use pixiecore.Dhcp.Interface.{Iface, InterfaceError, interface_ip}
use pixiecore.Dhcp.Packet.{DhcpPacket}
use pixiecore.Dhcp.Parse.Safety.{parse_dhcp-ne-fault}
use pixiecore.Dhcp.Parse.{DhcpError}
use pixiecore.Dhcp.Serve.{offer_from, offer_if, answer_dhcp, serve_dhcp}
use pixiecore.Dhcp.Socket.{
  UdpAddr, Received, read_failed, received, Effect, log_read_error, not_parsed, not_approved,
  no_address, write,
}
use pixiecore.Pxe.Parse.Safety.{parse_pxe-ne-fault}
use pixiecore.Pxe.Parse.{PxeError, PxePacket, parse_pxe}
use pixiecore.Pxe.Serve.{reply_from, answer_pxe, serve_request}
use pixiecore.System.{
  World, booter_of, Process, after_effect, spawn, dhcp_step, pxe_step, tftp_step, transfer_step,
  http_step, Step, start_dhcp, start_pxe, start_tftp, start_http, dhcp, pxe, tftp, finish, http,
  Reach, here, later,
}
use pixiecore.Tftp.Request.{Rrq, RrqError}
use pixiecore.Tftp.Serve.Replies.{Answered, serve_one-Answered}
use pixiecore.Tftp.Serve.{Arrival, arrived, Action, log_error, reply, start, serve_one}
use pixiecore.Prelude.{
  ℕ, ℤ, Bool, true, false, ◌≡◌, ◌≢◌, inl, inr, refl, sym, ◌∙◌, Bytes, take, Result, ok, err, fault,
}

-- The system does not panic when it looks up an interface or lists its addresses.
pub record IsCalm {E : Type 0} (interface_by_index : ℕ → Result E (Iface E)) : Type 0 where
  pub finds : (i : ℕ) → interface_by_index i ≢ fault
  pub lists : (i : ℕ) (iface : Iface E) → interface_by_index i ≡ ok iface → iface.addrs ≢ fault

-- All four servers listen, and the process has not ended.
abbrev pub IsUp : Process → Type 0
IsUp p =
    (p.dhcp_open ≡ true)
    × (p.pxe_open ≡ true)
    × (p.tftp_open ≡ true)
    × (p.http_open ≡ true)
    × (p.exited ≡ false)

true-ne-false : ◌≢◌ {A = Bool} true false
true-ne-false h = cc

after_effect-IsUp :
    {F : Type 0} (e : Effect F) (p : Process) → e ≢ Effect.crash → IsUp p → IsUp (after_effect e p)
after_effect-IsUp Effect.crash p ne up = absurd (ne refl)
after_effect-IsUp log_read_error p ne up = up
after_effect-IsUp (not_parsed e) p ne up = up
after_effect-IsUp (not_approved mac) p ne up = up
after_effect-IsUp (no_address mac) p ne up = up
after_effect-IsUp (write i addr packet) p ne up = up

spawn-IsUp :
    (action : Action UdpAddr) (p : Process) → action ≢ Action.crash → IsUp p → IsUp (spawn action p)
spawn-IsUp Action.crash p ne up = absurd (ne refl)
spawn-IsUp (start addr req) p ne up = up
spawn-IsUp log_error p ne up = up
spawn-IsUp (reply addr packet) p ne up = up

module _ {E : Type 0} (interface_by_index : ℕ → Result E (Iface E))
    (calm : IsCalm interface_by_index) where
  interface_ip-ne-fault : (i : ℕ) → interface_ip interface_by_index i ≢ fault
  interface_ip-ne-fault i h =
      elim (subst (Answers interface_by_index i) h (interface_ip-Answers interface_by_index i)) [
        | inl e ↦ calm.finds i e
        | inr (iface, found, e) ↦ calm.lists i iface found e
      ]

  offer_from-ne-crash :
      {B : Type 0} (should_boot : Bytes → Result B (Unit {0})) (i : ℕ) (addr : UdpAddr)
      (p : DhcpPacket) (r : Result (InterfaceError E) Bytes)
      → r ≢ fault
      → offer_from should_boot interface_by_index i addr p r ≢ Effect.crash
  unfolding offer_from
  offer_from-ne-crash should_boot i addr p (ok ip) ne h = cc
  offer_from-ne-crash should_boot i addr p (err e) ne h = cc
  offer_from-ne-crash should_boot i addr p fault ne h = ne refl

  offer_if-ne-crash :
      {B : Type 0} (should_boot : Bytes → Result B (Unit {0})) (i : ℕ) (addr : UdpAddr)
      (p : DhcpPacket) (v : Result B (Unit {0}))
      → v ≢ fault
      → offer_if should_boot interface_by_index i addr p v ≢ Effect.crash
  unfolding offer_if
  offer_if-ne-crash should_boot i addr p (ok u) ne h =
      offer_from-ne-crash should_boot i addr p _ (interface_ip-ne-fault i) h
  offer_if-ne-crash should_boot i addr p (err e) ne h = cc
  offer_if-ne-crash should_boot i addr p fault ne h = ne refl

  answer_dhcp-ne-crash :
      {B : Type 0} (should_boot : Bytes → Result B (Unit {0})) (i : ℕ) (addr : UdpAddr)
      (r : Result DhcpError DhcpPacket)
      → ((mac : Bytes) → should_boot mac ≢ fault)
      → r ≢ fault
      → answer_dhcp should_boot interface_by_index i addr r ≢ Effect.crash
  unfolding answer_dhcp
  answer_dhcp-ne-crash should_boot i addr (ok p) safe ne h =
      offer_if-ne-crash should_boot i addr p _ (safe p.mac) h
  answer_dhcp-ne-crash should_boot i addr (err e) safe ne h = cc
  answer_dhcp-ne-crash should_boot i addr fault safe ne h = ne refl

  serve_dhcp-ne-crash :
      {B : Type 0} (should_boot : Bytes → Result B (Unit {0})) (r : Received)
      → ((mac : Bytes) → should_boot mac ≢ fault)
      → serve_dhcp should_boot interface_by_index r ≢ Effect.crash
  unfolding serve_dhcp
  serve_dhcp-ne-crash should_boot read_failed safe h = cc
  serve_dhcp-ne-crash should_boot (received i addr d) safe h =
      answer_dhcp-ne-crash should_boot i addr _ safe (parse_dhcp-ne-fault (take 1024 d)) h

  serve_request-ne-crash :
      (port : ℤ) (r : Received) → serve_request port interface_by_index r ≢ Effect.crash
  unfolding serve_request
  serve_request-ne-crash port read_failed h = cc
  serve_request-ne-crash port (received i addr d) h =
      parsed (parse_pxe (take 1024 d)) (parse_pxe-ne-fault (take 1024 d)) h
    where
      addressed :
          (p : PxePacket) (r : Result (InterfaceError E) Bytes)
          → r ≢ fault
          → reply_from port interface_by_index i addr p r ≢ Effect.crash
      addressed p (ok ip) ne h = cc
      addressed p (err e) ne h = cc
      addressed p fault ne h = ne refl

      parsed :
          (r : Result PxeError PxePacket)
          → r ≢ fault
          → answer_pxe port interface_by_index i addr r ≢ Effect.crash
      parsed (ok p) ne h = addressed p _ (interface_ip-ne-fault i) h
      parsed (err e) ne h = cc
      parsed fault ne h = ne refl

crash-ne-start :
    (addr : UdpAddr) (req : Rrq) → ◌≢◌ {A = Action UdpAddr} Action.crash (start addr req)
crash-ne-start addr req h = cc

crash-ne-reply :
    (addr : UdpAddr) (packet : Bytes) → ◌≢◌ {A = Action UdpAddr} Action.crash (reply addr packet)
crash-ne-reply addr packet h = cc

serve_one-ne-crash :
    (text : UdpAddr → RrqError → Bytes) (a : Arrival UdpAddr) → serve_one text a ≢ Action.crash
unfolding Answered serve_one
serve_one-ne-crash text Arrival.read_failed h = cc
serve_one-ne-crash text (arrived addr d) h = elim (serve_one-Answered text addr d) [
  | inl (req, _, e) ↦ crash-ne-start addr req (sym h ∙ e)
  | inr (_, x, e) ↦ crash-ne-reply addr _ (sym h ∙ e)
]

-- Asked whether a machine is to boot, neither booter panics if the decoder does not.
should_boot-ne-fault :
    {E : Type 0} (w : World E) (picked : Picked) (mac : Bytes)
    → ((c : Content) → w.json_decode c ≢ fault)
    → (booter_of w picked).should_boot mac ≢ fault
should_boot-ne-fault w (local b) mac decodes = λ h. cc
should_boot-ne-fault w (remote b) mac decodes =
    remote_should_boot-ne-fault w.box w.client_get w.web_get w.json_decode w.url_valid decodes b mac

module _ {E : Type 0} (w : World E) (s : Servers) (calm : IsCalm w.interface_by_index)
    (decodes : (c : Content) → w.json_decode c ≢ fault) where
  Step-IsUp : {p q : Process} → Step w s p q → IsUp p → IsUp q
  unfolding dhcp_step pxe_step tftp_step transfer_step http_step
  Step-IsUp (start_dhcp listened set _ closed) up = absurd (true-ne-false (sym up.0 ∙ closed))
  Step-IsUp (start_pxe listened set _ closed) up = absurd (true-ne-false (sym up.1 ∙ closed))
  Step-IsUp (start_tftp listened _ closed) up = absurd (true-ne-false (sym up.2 ∙ closed))
  Step-IsUp (start_http listened _ closed) up = absurd (true-ne-false (sym up.3 ∙ closed))
  Step-IsUp {p} (dhcp r _ _) up =
      let should_boot = (booter_of w s.dhcp.booter).should_boot in
      after_effect-IsUp (serve_dhcp should_boot w.interface_by_index r) _
        (serve_dhcp-ne-crash w.interface_by_index calm should_boot r
          (λ mac. should_boot-ne-fault w s.dhcp.booter mac decodes))
        up
  Step-IsUp {p} (pxe r _ _) up =
      after_effect-IsUp (serve_request s.pxe.http_port w.interface_by_index r) _
        (serve_request-ne-crash w.interface_by_index calm s.pxe.http_port r) up
  Step-IsUp {p} (tftp a _ _) up = spawn-IsUp (serve_one w.text a) _ (serve_one-ne-crash w.text a) up
  Step-IsUp {p} (finish running addr req rest dialed es _ e) up = up
  Step-IsUp {p} (http path _ _) up = up

  -- Once all four servers of the process listen, they go on listening and the process does not end,
  -- whatever clients send, in whatever order, if the system does not panic when it is asked for an
  -- interface, nor the JSON decoder on an answer.
  pub Reach-IsUp : {p q : Process} → IsUp p → Reach w s p q → IsUp q
  Reach-IsUp up here = up
  Reach-IsUp up (later run step) = Step-IsUp step (Reach-IsUp up run)
