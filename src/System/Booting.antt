-- ===== src/System/Booting.antt =====
-- The running process: a machine can boot from it, whatever has happened before.
use mathlib.Core.Path.{subst}
use pixiecore.Api.Plans.{Plan, IsBooter}
use pixiecore.Chain.{mac-IsBytes, mac-sized, approved-BootsFor}
use pixiecore.Cli.Start.{Ports, Servers, servers}
use pixiecore.Cli.{Picked}
use pixiecore.Dhcp.Offer.{offer_dhcp}
use pixiecore.Dhcp.Packet.{DhcpPacket}
use pixiecore.Chain.Reply.{split_url, config_url, config_url-split}
use pixiecore.Dhcp.Offer.Layout.{IsOffer}
use pixiecore.Dhcp.Serve.Offers.{served-IsOffer}
use pixiecore.Dhcp.Serve.{from_server, broadcast}
use pixiecore.Dhcp.Socket.{received, write}
use pixiecore.HardwareAddr.{sized}
use pixiecore.Http.Config.{plain_text}
use pixiecore.Http.Files.Boots.{config_path, Boots}
use pixiecore.Http.Files.{serve_http}
use pixiecore.Http.{Response, answered}
use pixiecore.Pxe.Parse.{PxePacket}
use pixiecore.Api.Remote.{RemoteError}
use pixiecore.Pxe.Reply.Layout.{IsReply, answered_with}
use pixiecore.Pxe.Serve.Replies.{served-IsReply}
use pixiecore.Pxe.Serve.{ip_text, http_url}
use pixiecore.System.Survival.{IsUp}
use pixiecore.System.{
  World, booter_of, dhcp_round, pxe_round, tftp_round, transferred, responded, Process, happens,
  http_step, http, Reach, here, later,
}
use pixiecore.Tftp.Request.{Rrq}
use pixiecore.Tftp.Serve.{arrived, start}
use pixiecore.Tftp.Transfer.Cooperative.{blocks}
use pixiecore.Tftp.Transfer.Outcomes.{oacks}
use pixiecore.Tftp.Transfer.Whole.{Served, block_size_of}
use pixiecore.Tftp.Transfer.{complete}
use pixiecore.Strconv.{int_text}
use pixiecore.Prelude.{
  List, replicate, ℕ, suc, ◌+◌, ◌*◌, ◌≤◌, ◌<◌, [], ◌∷◌, ◌++◌, some, ◌≡◌, sym, ap, Bytes, IsBytes,
  Lacks, length, take, ok,
}
use pixiecore.System.Exchange.{
  Client, IsClient, offered, replied, begun, ended, offer_served, reply_bytes, reply_served,
  offer-Step, reply-Step, begin-Step, end-Step, ended-Served,
}

module _ {E : Type 0} (w : World E) (ports : Ports) (picked : Picked) (pxelinux ldlinux : Bytes)
    (c : Client) (packet : DhcpPacket) (asked : PxePacket) (req : Rrq) (server : Bytes)
    (is : IsClient w c packet asked req server) where
  abbrev s : Servers
  s = servers ports picked pxelinux ldlinux

  -- From `p` to `q` the machine has been served, step after step: a well-formed offer, a well-formed
  -- reply whose URL leads to the path of its configuration, the whole of the embedded file, and the
  -- configuration. It boots what its booter wants for it, by links that fetch the plan in `q`.
  pub record HasBooted (Wanted : Bytes → Plan (RemoteError E) → Type 0) (p q : Process)
      : Type 0 where
    pub offer : Bytes
    pub offer_read : IsOffer (record packet { server_ip = server }) offer
    pub reply : Bytes
    pub url : Bytes
    pub reply_read : IsReply (answered_with asked server url) reply
    pub leads :
        split_url (config_url url packet.mac)
        ≡ some (ip_text server ++ (b':' ∷ int_text ports.http), config_path packet.mac)
    pub datagrams : List Bytes
    pub sent : Served req.block_size pxelinux datagrams
    pub plan : Plan (RemoteError E)
    pub wanted : Wanted packet.mac plan
    pub body : Bytes
    pub history :
        q.history
        ≡ responded (config_path packet.mac) (answered 200 plain_text body)
          ∷ transferred c.from req (record { outcome = complete; rest = []; writes = datagrams })
          ∷ tftp_round (arrived c.from c.read) (start c.from req)
          ∷ pxe_round (received c.iface c.from c.request) (write c.iface c.from reply)
          ∷ dhcp_round
              (received c.iface c.from c.discovery)
              (write c.iface (record (c.from) { ip = replicate 4 255 }) offer)
          ∷ p.history
    pub boots : Boots (booter_of w picked) ldlinux q.random body plan

  -- Whatever has happened before, a machine can boot: from every process whose servers all listen there
  -- is a run that ends with all of them listening, in which a client that the booter approves of is
  -- sent a well-formed offer, a well-formed reply whose URL leads to the path of its configuration
  -- on the HTTP server, and the whole of the embedded pxelinux, and is answered there a
  -- configuration that boots what its booter wants for it. The datagrams of the client are well
  -- formed, with a boot type of 4 bytes and one hardware address, and come by an interface with a
  -- usable address, the client acknowledges
  -- every packet, the embedded file is not a multiple of the block size long, and the booter keeps
  -- its promise, is ready, and wants no command line with a line break.
  pub Reach-HasBooted :
      (Ready : Bytes → Type 0) (Wanted : Bytes → Plan (RemoteError E) → Type 0) (k r : ℕ)
      (p : Process)
      → IsBooter (booter_of w picked) Ready Wanted
      → ((mac : Bytes) (q : Plan (RemoteError E)) → Wanted mac q → Lacks b'\n' q.cmdline)
      → (booter_of w picked).should_boot packet.mac ≡ ok tt
      → IsBytes c.discovery
      → length pxelinux ≡ k * block_size_of req.block_size + r
      → 1 ≤ r
      → r < block_size_of req.block_size
      → IsUp p
      → Ready p.random
      → (q : Process) × Reach w s p q × IsUp q × HasBooted Wanted p q
  unfolding servers http_step
  Reach-HasBooted Ready Wanted k r p keeps plain approved bytes len pos lt up ready =
      let p1 = happens (offered w ports picked pxelinux ldlinux c packet asked req server is) p in
      let p2 = happens (replied w ports picked pxelinux ldlinux c packet asked req server is) p1 in
      let p3 = happens (begun w ports picked pxelinux ldlinux c packet asked req server is) p2 in
      let p4 = happens (ended w ports picked pxelinux ldlinux c packet asked req server is k) p3 in
      let path = config_path packet.mac in
      let left = (serve_http (booter_of w picked) ldlinux p.random path).0 in
      let got =
        approved-BootsFor (booter_of w picked) Ready Wanted keeps plain ldlinux p.random left
          packet.mac ready (subst IsBytes (sym is.discovers.mac) (mac-IsBytes c.discovery bytes))
          (subst (λ m. sized (some m) ≡ some m) (sym is.discovers.mac)
            (mac-sized (take 1024 c.discovery) is.discovers.long))
          approved in
      (
        http_step w s path p4,
        later
            (later
              (later
                (later
                  (later here (
                    offer-Step w ports picked pxelinux ldlinux c packet asked req server is p up
                      approved))
                  (reply-Step w ports picked pxelinux ldlinux c packet asked req server is p1 up))
                (begin-Step w ports picked pxelinux ldlinux c packet asked req server is p2 up))
              (end-Step w ports picked pxelinux ldlinux c packet asked req server is k r p3 len pos
                lt up))
            (http path up.4 up.3),
        up,
        record {
          offer = offer_dhcp (from_server packet server);
          offer_read =
              served-IsOffer (booter_of w picked).should_boot w.interface_by_index c.iface c.from
                c.discovery c.iface (broadcast c.from) (offer_dhcp (from_server packet server))
                (offer_served w ports picked pxelinux ldlinux c packet asked req server is
                  approved);
          reply = reply_bytes w ports picked pxelinux ldlinux c packet asked req server is;
          url = http_url server ports.http;
          reply_read =
              served-IsReply ports.http w.interface_by_index c.iface c.from c.request c.iface c.from
                (reply_bytes w ports picked pxelinux ldlinux c packet asked req server is)
                (reply_served w ports picked pxelinux ldlinux c packet asked req server is) is.four;
          leads = config_url-split server packet.mac ports.http;
          datagrams =
              oacks req.block_size ++ blocks (suc k) (block_size_of req.block_size) 1 pxelinux;
          sent =
              ended-Served w ports picked pxelinux ldlinux c packet asked req server is k r len pos
                lt;
          plan = got.plan;
          wanted = got.wanted;
          body = got.body;
          history = ap (λ (x : Bytes × Response). responded path x.1 ∷ p4.history) got.config;
          boots = got.boots;
        },
      )
