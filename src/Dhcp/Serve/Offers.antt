-- ===== src/Dhcp/Serve/Offers.antt =====
-- dhcp/dhcp.go: which datagrams `ServeProxyDHCP` answers, and with what.
use mathlib.Core.Path.{subst}
use pixiecore.Dhcp.Interface.{Iface, InterfaceError, interface_ip}
use pixiecore.Dhcp.Interface.Answers.{length-interface_ip}
use pixiecore.Dhcp.Offer.Layout.{IsSized, IsOffer, offer_dhcp-IsOffer}
use pixiecore.Dhcp.Offer.{offer_dhcp}
use pixiecore.Dhcp.Packet.{DhcpPacket}
use pixiecore.Dhcp.Parse.Accepts.{IsDiscover, parse_dhcp_iff}
use pixiecore.Dhcp.Options.Checks.{Folds}
use pixiecore.Dhcp.Parse.Checks.{Passes}
use pixiecore.Dhcp.Parse.{DhcpError, parse_dhcp}
use pixiecore.Dhcp.Serve.{from_server, broadcast, offer_from, offer_if, answer_dhcp, serve_dhcp}
use pixiecore.Dhcp.Socket.{UdpAddr, received, write}
use pixiecore.Prelude.{
  ℕ, List, [], ◌∷◌, Option, none, some, ◌≡◌, ◌↔◌, inl, inr, refl, sym, ap, ◌∙◌, arith, Bytes,
  length, length-take, length-drop, take, drop, Result, ok, err, fault,
}

-- What the server writes for the discovery `p`, and why.
pub record IsServed {B E : Type 0} (should_boot : Bytes → Result B (Unit {0}))
    (interface_by_index : ℕ → Result E (Iface E)) (i : ℕ) (addr : UdpAddr) (d : Bytes) (j : ℕ)
    (to : UdpAddr) (b : Bytes) : Type 0 where
  pub packet : DhcpPacket
  pub server : Bytes
  pub discover : IsDiscover (take 1024 d) packet
  pub approved : should_boot packet.mac ≡ ok tt
  pub reachable : interface_ip interface_by_index i ≡ ok server
  pub same_interface : j ≡ i
  pub destination : to ≡ broadcast addr
  pub offer : b ≡ offer_dhcp (record packet { server_ip = server })

-- A UUID, once read, has 16 bytes.
abbrev pub IsFull : Option Bytes → Type 0
IsFull g = (u : Bytes) → g ≡ some u → length u ≡ 16

Passes-IsFull : (t : ℕ) (v : Bytes) (g g' : Option Bytes) → Passes t v g g' → IsFull g → IsFull g'
Passes-IsFull t v g g' (inl (_, _, e)) h u f = h u (e ∙ f)
Passes-IsFull t v g g' (inr (inl (_, _, e))) h u f = h u (e ∙ f)
Passes-IsFull t v g g' (inr (inr (inl (_, (w, _, n, e))))) h u f =
    let same : w ≡ u = cc in ap length (sym same) ∙ n
Passes-IsFull t v g g' (inr (inr (inr (_, _, _, e)))) h u f = h u (e ∙ f)

Folds-IsFull :
    (os : List (ℕ × Bytes)) (g g' : Option Bytes) → Folds Passes os g g' → IsFull g → IsFull g'
Folds-IsFull [] g g' e h = λ u f. h u (e ∙ f)
Folds-IsFull ((t, v) ∷ os) g g' (mid, p, more) h =
    Folds-IsFull os mid g' more (Passes-IsFull t v g mid p h)

discover-IsSized :
    (b : Bytes) (p : DhcpPacket) (ip : Bytes)
    → IsDiscover b p
    → length ip ≡ 4
    → IsSized (from_server p ip)
discover-IsSized b p ip d n = record {
  tid_size = omega (arith, d.long, ap length d.tid, length-take 4 (drop 4 b), length-drop 4 b);
  mac_size = omega (arith, d.long, ap length d.mac, length-take 6 (drop 28 b), length-drop 28 b);
  guid_size = Folds-IsFull d.options none (some p.guid) d.pass (λ u e. cc) p.guid refl;
  ip_size = n;
}

module _ {B E : Type 0} (should_boot : Bytes → Result B (Unit {0}))
    (interface_by_index : ℕ → Result E (Iface E)) (i : ℕ) (addr : UdpAddr) (d : Bytes) (j : ℕ)
    (to : UdpAddr) (b : Bytes) where
  abbrev pub Served : Type 0
  Served = IsServed should_boot interface_by_index i addr d j to b

  served_from :
      (p : DhcpPacket) (r : Result (InterfaceError E) Bytes)
      → IsDiscover (take 1024 d) p
      → should_boot p.mac ≡ ok tt
      → interface_ip interface_by_index i ≡ r
      → offer_from should_boot interface_by_index i addr p r ≡ write j to b
      → Served
  unfolding offer_from
  served_from p (ok ip) is approved e h = record {
    packet = p;
    server = ip;
    discover = is;
    approved = approved;
    reachable = e;
    same_interface = cc;
    destination = cc;
    offer = cc;
  }
  served_from p (err x) is approved e h = cc
  served_from p fault is approved e h = cc

  served_verdict :
      (p : DhcpPacket) (v : Result B (Unit {0}))
      → IsDiscover (take 1024 d) p
      → should_boot p.mac ≡ v
      → offer_if should_boot interface_by_index i addr p v ≡ write j to b
      → Served
  unfolding offer_if
  served_verdict p (ok u) is f h = served_from p (interface_ip interface_by_index i) is f refl h
  served_verdict p (err x) is f h = cc
  served_verdict p fault is f h = cc

  served_packet :
      (r : Result DhcpError DhcpPacket)
      → parse_dhcp (take 1024 d) ≡ r
      → answer_dhcp should_boot interface_by_index i addr r ≡ write j to b
      → Served
  unfolding answer_dhcp
  served_packet (ok p) e h =
      served_verdict p (should_boot p.mac) ((parse_dhcp_iff (take 1024 d) p).0 e) refl h
  served_packet (err x) e h = cc
  served_packet fault e h = cc

  -- A datagram is answered exactly when its first 1024 bytes are a discovery of a PXE client, the booter
  -- approves of the client, and the interface that it came by has a usable address. The answer is the
  -- offer from that address, written to the same interface, broadcast to the port of the sender.
  pub serve_dhcp-write_iff :
      (serve_dhcp should_boot interface_by_index (received i addr d) ≡ write j to b) ↔ Served
  unfolding serve_dhcp
  serve_dhcp-write_iff = (served_packet (parse_dhcp (take 1024 d)) refl, back)
    where
      back :
          Served
          → answer_dhcp should_boot interface_by_index i addr (parse_dhcp (take 1024 d))
            ≡ write j to b
      back s = rw (
        (parse_dhcp_iff (take 1024 d) s.packet).1 s.discover,
        answer_dhcp,
        s.approved,
        offer_if,
        s.reachable,
        offer_from,
        s.same_interface,
        s.destination,
        s.offer,
      )

  pub served-IsOffer : (s : Served) → IsOffer (from_server s.packet s.server) b
  served-IsOffer s =
      let sized =
        discover-IsSized (take 1024 d) s.packet s.server s.discover
          (length-interface_ip interface_by_index i s.reachable) in
      subst (IsOffer (from_server s.packet s.server)) (sym s.offer)
        (offer_dhcp-IsOffer (from_server s.packet s.server) sized)

  -- Every packet that the server writes is a well-formed offer to a discovered client.
  pub serve_dhcp-IsOffer :
      serve_dhcp should_boot interface_by_index (received i addr d) ≡ write j to b
      → (p : DhcpPacket) × (ip : Bytes) × IsDiscover (take 1024 d) p × IsOffer (from_server p ip) b
  serve_dhcp-IsOffer h =
      let s = serve_dhcp-write_iff.0 h in (s.packet, s.server, s.discover, served-IsOffer s)
