-- ===== src/Pxe/Serve.antt =====
-- pxe/pxe.go: the loop of `ServePXE`. A round leaves nothing for the next: it reads the bytes that its own
-- `ReadFrom` has put into the buffer of 1024 bytes.
pub mod Replies
use pixiecore.Dhcp.Interface.{Iface, InterfaceError, interface_ip}
use pixiecore.Dhcp.Socket.{
  UdpAddr, Received, read_failed, received, Effect, log_read_error, not_parsed, no_address, write,
  crash,
}
use pixiecore.Pxe.Parse.{PxePacket, PxeError, parse_pxe}
use pixiecore.Pxe.Reply.{reply_pxe}
use pixiecore.Strconv.{itoa, int_text}
use pixiecore.Prelude.{ℕ, ℤ, List, [], ◌∷◌, ◌++◌, Bytes, codes, take, Result, ok, err, fault}

-- `IP.String` of an address of 4 bytes
abbrev pub ip_text : Bytes → Bytes
ip_text [] = []
ip_text (x ∷ []) = itoa x
ip_text (x ∷ y ∷ ip) = itoa x ++ (b'.' ∷ ip_text (y ∷ ip))

-- `fmt.Sprintf("http://%s:%d/", req.ServerIP, httpPort)`
abbrev pub http_url : Bytes → ℤ → Bytes
http_url ip port = codes "http://" ++ (ip_text ip ++ (b':' ∷ (int_text port ++ (b'/' ∷ []))))

-- `req.ServerIP = ip` and `req.HTTPServer = url`
abbrev pub pointed_at : PxePacket → Bytes → Bytes → PxePacket
pointed_at p ip url = record p { dhcp = record (p.dhcp) { server_ip = ip }; http_server = url }

module _ {E : Type 0} (http_port : ℤ) (interface_by_index : ℕ → Result E (Iface E)) where
  unfoldable pub reply_from :
      ℕ → UdpAddr → PxePacket → Result (InterfaceError E) Bytes → Effect PxeError
  reply_from i addr p (ok ip) = write i addr (reply_pxe (pointed_at p ip (http_url ip http_port)))
  reply_from i addr p (err e) = no_address p.mac
  reply_from i addr p fault = crash

  unfoldable pub answer_pxe : ℕ → UdpAddr → Result PxeError PxePacket → Effect PxeError
  unfolding reply_from
  answer_pxe i addr (ok p) = reply_from i addr p (interface_ip interface_by_index i)
  answer_pxe i addr (err e) = not_parsed e
  answer_pxe i addr fault = crash

  -- one round
  unfoldable pub serve_request : Received → Effect PxeError
  unfolding answer_pxe
  serve_request read_failed = log_read_error
  serve_request (received i addr d) = answer_pxe i addr (parse_pxe (take 1024 d))

  -- `ServePXE`, over what arrives
  unfoldable pub serve_pxe : List Received → List (Effect PxeError)
  unfolding serve_request
  serve_pxe [] = []
  serve_pxe (r ∷ rs) = serve_request r ∷ serve_pxe rs
