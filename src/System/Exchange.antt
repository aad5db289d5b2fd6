-- ===== src/System/Exchange.antt =====
-- The running process: what each server does for a machine that boots.
use mathlib.Core.Path.{subst}
use pixiecore.Cli.Start.{Ports, Servers, servers}
use pixiecore.Cli.{Picked}
use pixiecore.Dhcp.Interface.{interface_ip}
use pixiecore.Dhcp.Offer.{offer_dhcp}
use pixiecore.Dhcp.Packet.{DhcpPacket}
use pixiecore.Dhcp.Parse.Accepts.{IsDiscover}
use pixiecore.Cli.Start.Booted.{blob-Served}
use pixiecore.Dhcp.Serve.Offers
use pixiecore.Dhcp.Serve.Offers.{serve_dhcp-write_iff, served-IsOffer}
use pixiecore.Dhcp.Serve.{from_server, broadcast}
use pixiecore.Dhcp.Socket.{UdpAddr, Received, received, Effect, write}
use pixiecore.Pxe.Parse.Accepts.{IsBootRequest}
use pixiecore.Pxe.Parse.{PxeError, PxePacket}
use pixiecore.Dhcp.Parse.{DhcpError}
use pixiecore.Pxe.Reply.{reply_pxe}
use pixiecore.Pxe.Serve.Replies
use pixiecore.Pxe.Serve.Replies.{serve_request-write_iff, served-IsReply}
use pixiecore.Pxe.Serve.{pointed_at, http_url}
use pixiecore.System.Survival.{IsUp}
use pixiecore.System.{
  World, booter_of, Happened, dhcp_round, pxe_round, tftp_round, transferred, Process, happens,
  after_effect, spawn, dhcp_step, pxe_step, tftp_step, transfer_step, Step, dhcp, pxe, tftp, finish,
}
use pixiecore.Tftp.Request.Accepts.{IsRequest, parse_rrq_iff}
use pixiecore.Tftp.Request.{Rrq, RrqError}
use pixiecore.Tftp.Serve.{Arrival, arrived, start, answer, serve_one}
use pixiecore.Tftp.Transfer.Cooperative.{blocks}
use pixiecore.Tftp.Transfer.Outcomes.{cooperative, oacks, transfer_part-complete}
use pixiecore.Tftp.Transfer.Whole.{Served, block_size_of}
use pixiecore.Tftp.Transfer.{Stream, complete, Transfer, blob}
use pixiecore.Prelude.{
  ℕ, suc, ◌+◌, ◌*◌, ◌≤◌, ◌<◌, true, [], ◌∷◌, ◌++◌, none, ◌≡◌, refl, ap, Bytes, length, take, Result,
  ok,
}

-- What a machine sends: a discovery and a boot request by one interface, and a read request.
pub record Client : Type 0 where
  pub iface : ℕ
  pub from : UdpAddr
  pub discovery : Bytes
  pub request : Bytes
  pub read : Bytes

-- The datagrams are well formed and of one machine, the boot type has 4 bytes, and the interface has an
-- address to answer from.
pub record IsClient {E : Type 0} (w : World E) (c : Client) (packet : DhcpPacket)
    (asked : PxePacket) (req : Rrq) (server : Bytes) : Type 0 where
  pub discovers : IsDiscover (take 1024 c.discovery) packet
  pub requests : IsBootRequest (take 1024 c.request) asked
  pub reads : IsRequest (take 512 c.read) req
  pub reachable : interface_ip w.interface_by_index c.iface ≡ ok server
  pub four : length asked.boot_type ≡ 4
  pub same_machine : asked.mac ≡ packet.mac

module _ {E : Type 0} (w : World E) (ports : Ports) (picked : Picked) (pxelinux ldlinux : Bytes)
    (c : Client) (packet : DhcpPacket) (asked : PxePacket) (req : Rrq) (server : Bytes)
    (is : IsClient w c packet asked req server) where
  abbrev pub s : Servers
  s = servers ports picked pxelinux ldlinux

  abbrev pub offered : Happened
  offered =
      dhcp_round (received c.iface c.from c.discovery)
        (write c.iface (broadcast c.from) (offer_dhcp (from_server packet server)))

  abbrev pub replied : Happened
  replied =
      pxe_round (received c.iface c.from c.request)
        (write c.iface c.from (reply_pxe (pointed_at asked server (http_url server ports.http))))

  abbrev pub begun : Happened
  begun = tftp_round (arrived c.from c.read) (start c.from req)

  abbrev pub offer_served :
      (booter_of w picked).should_boot packet.mac ≡ ok tt
      → Offers.IsServed
          (booter_of w picked).should_boot
          w.interface_by_index
          c.iface
          c.from
          c.discovery
          c.iface
          (broadcast c.from)
          (offer_dhcp (from_server packet server))
  offer_served approved = record {
    packet = packet;
    server = server;
    discover = is.discovers;
    approved = approved;
    reachable = is.reachable;
    same_interface = refl;
    destination = refl;
    offer = refl;
  }

  abbrev pub reply_bytes : Bytes
  reply_bytes = reply_pxe (pointed_at asked server (http_url server ports.http))

  abbrev pub reply_served :
      Replies.IsServed ports.http w.interface_by_index c.iface c.from c.request c.iface c.from
        reply_bytes
  reply_served = record {
    packet = asked;
    server = server;
    request = is.requests;
    reachable = is.reachable;
    same_interface = refl;
    destination = refl;
    reply = refl;
  }

  pub offer-Step :
      (p : Process)
      → IsUp p
      → (booter_of w picked).should_boot packet.mac ≡ ok tt
      → Step w s p (happens offered p)
  unfolding servers dhcp_step
  offer-Step p up approved =
      let written =
        (serve_dhcp-write_iff (booter_of w picked).should_boot w.interface_by_index c.iface c.from
            c.discovery c.iface (broadcast c.from) (offer_dhcp (from_server packet server))).1
          (offer_served approved) in
      subst (Step w s p)
        (ap
          (λ (e : Effect DhcpError).
            after_effect e (happens (dhcp_round (received c.iface c.from c.discovery) e) p))
          written)
        (dhcp (received c.iface c.from c.discovery) up.4 up.0)

  pub reply-Step : (p : Process) → IsUp p → Step w s p (happens replied p)
  unfolding servers pxe_step
  reply-Step p up =
      let read : Received = received c.iface c.from c.request in
      let written =
        (serve_request-write_iff ports.http w.interface_by_index c.iface c.from c.request c.iface
            c.from reply_bytes).1
          reply_served in
      subst (Step w s p)
        (ap (λ (e : Effect PxeError). after_effect e (happens (pxe_round read e) p)) written)
        (pxe read up.4 up.1)

  pub begin-Step :
      (p : Process)
      → IsUp p
      → Step w s p (happens begun (record p { transfers = (c.from, req) ∷ p.transfers }))
  unfolding servers tftp_step serve_one answer
  begin-Step p up =
      let read : Arrival UdpAddr = arrived c.from c.read in
      subst (Step w s p)
        (ap
          (λ (r : Result RrqError Rrq).
            let action = answer w.text c.from r in
            spawn action (happens (tftp_round read action) p))
          ((parse_rrq_iff (take 512 c.read) req).1 is.reads))
        (tftp read up.4 up.2)

  -- The ended transfer of a file of `k` blocks and a part of a block.
  abbrev pub ended : ℕ → Happened
  ended k = transferred c.from req (record {
    outcome = complete;
    rest = [];
    writes = oacks req.block_size ++ blocks (suc k) (block_size_of req.block_size) 1 pxelinux;
  })

  pub end-Step :
      (k r : ℕ) (p : Process)
      → length pxelinux ≡ k * block_size_of req.block_size + r
      → 1 ≤ r
      → r < block_size_of req.block_size
      → IsUp p
      → Step w s (record p { transfers = (c.from, req) ∷ p.transfers }) (happens (ended k) p)
  unfolding servers transfer_step
  end-Step k r p len pos lt up =
      let es = cooperative req.block_size (suc k) ++ [] in
      let st : Stream = record { content = pxelinux; ending = none } in
      let q : Process = record p { transfers = (c.from, req) ∷ p.transfers } in
      subst (Step w s q)
        (ap (λ (t : Transfer). happens (transferred c.from req t) p)
          (transfer_part-complete (blob pxelinux) req [] st k (unfold blob in refl) refl r len pos
            lt))
        (finish [] c.from req p.transfers true es up.4 refl)

  pub ended-Served :
      (k r : ℕ)
      → length pxelinux ≡ k * block_size_of req.block_size + r
      → 1 ≤ r
      → r < block_size_of req.block_size
      → Served req.block_size pxelinux
          (oacks req.block_size ++ blocks (suc k) (block_size_of req.block_size) 1 pxelinux)
  ended-Served k r len pos lt =
      let es = cooperative req.block_size (suc k) ++ [] in
      let st : Stream = record { content = pxelinux; ending = none } in
      let done =
        transfer_part-complete (blob pxelinux) req [] st k (unfold blob in refl) refl r len pos
          lt in
      subst (λ (t : Transfer). Served req.block_size pxelinux t.writes) done
        (blob-Served pxelinux true req es (ap (λ (t : Transfer). t.outcome) done))
