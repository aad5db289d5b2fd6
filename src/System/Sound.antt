-- ===== src/System/Sound.antt =====
-- The running process: what holds of all that has happened, in every order of the steps.
use pixiecore.Api.Remote.{RemoteError}
use pixiecore.Cli.Start.{Servers}
use pixiecore.Dhcp.Serve.Offers
use pixiecore.Dhcp.Offer.Layout.{IsOffer}
use pixiecore.Pxe.Reply.Layout.{IsReply, answered_with}
use pixiecore.Tftp.Serve.Replies.{Answered}
use pixiecore.Tftp.Transfer.Sending.{IsSent}
use pixiecore.Tftp.Transfer.Whole.{Served}
use pixiecore.Dhcp.Socket.{received, write}
use pixiecore.Pxe.Serve.Replies
use pixiecore.Pxe.Serve.{ip_text}
use pixiecore.System.Asked.{Asked, IsAsked}
use pixiecore.System.{
  World, booter_of, Happened, dhcp_round, pxe_round, tftp_round, transferred, responded, Process,
  dhcp, pxe, tftp,
}
use pixiecore.Tftp.Serve.{arrived}
use pixiecore.Tftp.Transfer.{complete, opened, Stream}
use pixiecore.Strconv.{int_text}
use pixiecore.Prelude.{◌⊎◌, codes, List, [], ◌∷◌, ◌++◌, ◌≡◌, ◌≢◌, Bytes, All, length, Result}

module _ {E : Type 0} (w : World E) (s : Servers) where
  abbrev verdict : Bytes → Result (RemoteError E) (Unit {0})
  verdict = (booter_of w s.dhcp.booter).should_boot

  -- What has happened is right, after the history `hs`.
  abbrev pub IsRight : Happened → List Happened → Type 0
  IsRight (dhcp_round (received i addr d) (write j to packet)) hs =
      (v : Offers.IsServed verdict w.interface_by_index i addr d j to packet) × IsOffer
        (record (v.packet) { server_ip = v.server }) packet
  IsRight (pxe_round (received i addr d) (write j to packet)) hs =
      (v : Replies.IsServed s.pxe.http_port w.interface_by_index i addr d j to packet) × ((length
            v.packet.boot_type
          ≢ 4)
        ⊎ IsReply
            (answered_with v.packet v.server (
              codes "http://"
              ++ (ip_text v.server ++ (b':' ∷ (int_text s.pxe.http_port ++ codes "/")))))
            packet)
  IsRight (tftp_round (arrived addr d) action) hs = Answered w.text addr d action
  IsRight (transferred addr req t) hs =
      Asked addr req hs
      × IsSent s.tftp.handler req t.writes
      × ((t.outcome ≢ complete)
          ⊎ ((st : Stream) × (s.tftp.handler req.filename ≡ opened st)
              × Served req.block_size st.content t.writes))
  IsRight (responded path response) hs = Unit
  IsRight h hs = Unit

  abbrev pub AllRight : List Happened → Type 0
  AllRight [] = Unit
  AllRight (h ∷ hs) = IsRight h hs × AllRight hs

  -- All that has happened is right, and every transfer that runs was asked for.
  abbrev pub IsSound : Process → Type 0
  IsSound p = AllRight p.history × All (IsAsked p.history) p.transfers
