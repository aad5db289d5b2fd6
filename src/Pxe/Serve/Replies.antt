-- ===== src/Pxe/Serve/Replies.antt =====
-- pxe/pxe.go: which datagrams `ServePXE` answers, and with what.
use mathlib.Core.Path.{subst}
use pixiecore.Dhcp.Interface.Answers.{length-interface_ip}
use pixiecore.Dhcp.Interface.{Iface, InterfaceError, interface_ip}
use pixiecore.Dhcp.Options.Checks.{Folds}
use pixiecore.Dhcp.Serve.Offers.{IsFull}
use pixiecore.Dhcp.Socket.{UdpAddr, received, write}
use pixiecore.Pxe.Parse.Accepts.{Adds, IsBootRequest, nothing_found, parse_pxe_iff}
use pixiecore.Pxe.Parse.{PxePacket, PxeError, Found, parse_pxe}
use pixiecore.Pxe.Reply.Layout.{IsSized, IsReply, answered_with, reply_pxe-IsReply}
use pixiecore.Pxe.Reply.{reply_pxe}
use pixiecore.Pxe.Serve.{ip_text, http_url, reply_from, answer_pxe, serve_request}
use pixiecore.Strconv.RoundTrip.{length-itoa}
use pixiecore.Strconv.{itoa, int_text}
use pixiecore.Prelude.{
  ℕ, ℤ, pos, negsuc, suc, codes, ◌*◌, ◌≤◌, ◌<◌, List, [], ◌∷◌, ◌++◌, ◌≡◌, ◌↔◌, inl, inr, refl, sym,
  ap, ◌∙◌, arith, Bytes, length, length-append, length-take, length-drop, take, drop, Result, ok,
  err, fault, ok-injective,
}

-- What the server writes for the request `p`, and why.
pub record IsServed {E : Type 0} (http_port : ℤ) (interface_by_index : ℕ → Result E (Iface E))
    (i : ℕ) (addr : UdpAddr) (d : Bytes) (j : ℕ) (to : UdpAddr) (b : Bytes) : Type 0 where
  pub packet : PxePacket
  pub server : Bytes
  pub request : IsBootRequest (take 1024 d) packet
  pub reachable : interface_ip interface_by_index i ≡ ok server
  pub same_interface : j ≡ i
  pub destination : to ≡ addr
  pub reply :
      b
      ≡ reply_pxe (
          answered_with packet server
            (codes "http://" ++ (ip_text server ++ (b':' ∷ (int_text http_port ++ codes "/")))))

Adds-IsFull : (t : ℕ) (v : Bytes) (s s' : Found) → Adds t v s s' → IsFull s.guid → IsFull s'.guid
Adds-IsFull t v s s' (inl (_, _, _, e)) h u f = h u (ap (λ (x : Found). x.guid) (sym e) ∙ f)
Adds-IsFull t v s s' (inr (inl (_, (w, _, n, e), _))) h u f =
    let same : w ≡ u = cc in ap length (sym same) ∙ n
Adds-IsFull t v s s' (inr (inr (_, _, e))) h u f = h u (ap (λ (x : Found). x.guid) e ∙ f)

Folds-IsFull :
    (os : List (ℕ × Bytes)) (s s' : Found) → Folds Adds os s s' → IsFull s.guid → IsFull s'.guid
Folds-IsFull [] s s' e h = λ u f. h u (ap (λ (x : Found). x.guid) e ∙ f)
Folds-IsFull ((t, v) ∷ os) s s' (mid, p, more) h =
    Folds-IsFull os mid s' more (Adds-IsFull t v s mid p h)

length-ip_text : (ip : Bytes) → length (ip_text ip) ≤ 20 * length ip
length-ip_text [] = omega arith
length-ip_text (x ∷ []) = omega (arith, length-itoa x)
length-ip_text (x ∷ y ∷ ip) = omega (
  arith,
  length-itoa x,
  length-ip_text (y ∷ ip),
  length-append (itoa x) (b'.' ∷ ip_text (y ∷ ip)),
)

length-int_text : (n : ℤ) → length (int_text n) ≤ 21
unfolding int_text
length-int_text (pos n) = omega (arith, length-itoa n)
length-int_text (negsuc n) = omega (arith, length-itoa (suc n))

length-http_url : (ip : Bytes) (port : ℤ) → length ip ≡ 4 → length (http_url ip port) < 256
length-http_url ip port n = omega (
  arith,
  n,
  length-ip_text ip,
  length-int_text port,
  length-append (int_text port) (b'/' ∷ []),
  length-append (ip_text ip) (b':' ∷ (int_text port ++ (b'/' ∷ []))),
)

request-IsSized :
    (b : Bytes) (p : PxePacket) (ip : Bytes) (port : ℤ)
    → IsBootRequest b p
    → length ip ≡ 4
    → IsSized (answered_with p ip (http_url ip port))
request-IsSized b p ip port d n = record {
  tid_size = omega (
    arith,
    d.long,
    ap (λ (q : PxePacket). length q.tid) d.fields,
    length-take 4 (drop 4 b),
    length-drop 4 b,
  );
  mac_size = omega (
    arith,
    d.long,
    ap (λ (q : PxePacket). length q.mac) d.fields,
    length-take 6 (drop 28 b),
    length-drop 28 b,
  );
  guid_size = Folds-IsFull d.options nothing_found _ d.pass (λ u e. cc) p.guid refl;
  ip_size = n;
  client_size = omega (
    arith,
    d.long,
    ap (λ (q : PxePacket). length q.client_ip) d.fields,
    length-take 4 (drop 12 b),
    length-drop 12 b,
  );
  url_size = length-http_url ip port n;
}

module _ {E : Type 0} (http_port : ℤ) (interface_by_index : ℕ → Result E (Iface E)) (i : ℕ)
    (addr : UdpAddr) (d : Bytes) (j : ℕ) (to : UdpAddr) (b : Bytes) where
  abbrev pub Served : Type 0
  Served = IsServed http_port interface_by_index i addr d j to b

  served_from :
      (p : PxePacket) (r : Result (InterfaceError E) Bytes)
      → IsBootRequest (take 1024 d) p
      → interface_ip interface_by_index i ≡ r
      → reply_from http_port interface_by_index i addr p r ≡ write j to b
      → Served
  unfolding reply_from
  served_from p (ok ip) is e h = record {
    packet = p;
    server = ip;
    request = is;
    reachable = e;
    same_interface = cc;
    destination = cc;
    reply = cc;
  }
  served_from p (err x) is e h = cc
  served_from p fault is e h = cc

  served_packet :
      (r : Result PxeError PxePacket)
      → parse_pxe (take 1024 d) ≡ r
      → answer_pxe http_port interface_by_index i addr r ≡ write j to b
      → Served
  unfolding answer_pxe
  served_packet (ok p) e h =
      served_from p (interface_ip interface_by_index i) ((parse_pxe_iff (take 1024 d) p).0 e) refl h
  served_packet (err x) e h = cc
  served_packet fault e h = cc

  -- A datagram is answered exactly when its first 1024 bytes are a boot request and the interface that it
  -- came by has a usable address. The answer is the reply from that address, with the URL of the HTTP
  -- server there, written to the sender by the same interface.
  pub serve_request-write_iff :
      (serve_request http_port interface_by_index (received i addr d) ≡ write j to b) ↔ Served
  unfolding serve_request
  serve_request-write_iff = (served_packet (parse_pxe (take 1024 d)) refl, back)
    where
      back :
          Served
          → answer_pxe http_port interface_by_index i addr (parse_pxe (take 1024 d)) ≡ write j to b
      back s = rw (
        (parse_pxe_iff (take 1024 d) s.packet).1 s.request,
        answer_pxe,
        s.reachable,
        reply_from,
        s.same_interface,
        s.destination,
        s.reply,
      )

  -- The reply that was served, for a boot type of 4 bytes, is well formed.
  pub served-IsReply :
      (s : Served)
      → length s.packet.boot_type ≡ 4
      → IsReply (answered_with s.packet s.server (http_url s.server http_port)) b
  served-IsReply s four =
      let q = answered_with s.packet s.server (http_url s.server http_port) in
      let sized =
        request-IsSized (take 1024 d) s.packet s.server http_port s.request
          (length-interface_ip interface_by_index i s.reachable) in
      subst (IsReply q) (sym s.reply) (reply_pxe-IsReply q sized four)

  -- What the server writes for a boot request with a boot type of 4 bytes is a well-formed reply that
  -- points the client at the HTTP server on the address that the reply comes from.
  pub serve_request-IsReply :
      (p : PxePacket)
      → IsBootRequest (take 1024 d) p
      → length p.boot_type ≡ 4
      → serve_request http_port interface_by_index (received i addr d) ≡ write j to b
      → (ip : Bytes) × (interface_ip interface_by_index i ≡ ok ip)
        × IsReply (answered_with p ip (http_url ip http_port)) b
  serve_request-IsReply p is four h =
      let s = serve_request-write_iff.0 h in
      let same : s.packet ≡ p = ok-injective (
        sym ((parse_pxe_iff (take 1024 d) s.packet).1 s.request)
        ∙ (parse_pxe_iff (take 1024 d) p).1 is) in
      let four' : length s.packet.boot_type ≡ 4 =
        ap (λ (x : PxePacket). length x.boot_type) same ∙ four in
      (
        s.server,
        s.reachable,
        subst
            (λ (x : PxePacket). IsReply (answered_with x s.server (http_url s.server http_port)) b)
            same (served-IsReply s four'),
      )
