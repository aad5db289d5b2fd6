-- ===== src/Tftp/Serve.antt =====
-- tftp/tftp.go: `Serve`, one datagram on the listening socket at a time. A request starts a service
-- goroutine of its own, with a socket of its own, which shares nothing with the loop.
pub mod Replies
use pixiecore.Prelude.{List, [], ◌∷◌, Bytes, take, Result, ok, err, fault}
use pixiecore.Tftp.Packet.{mk_error}
use pixiecore.Tftp.Request.{Rrq, RrqError, parse_rrq}

-- One return of `l.ReadFrom`.
pub data Arrival (Addr : Type 0) : Type 0 where
  read_failed : Arrival Addr
  arrived : Addr → Bytes → Arrival Addr

-- What one round of the loop does.
pub data Action (Addr : Type 0) : Type 0 where
  log_error : Action Addr
  reply : Addr → Bytes → Action Addr
  start : Addr → Rrq → Action Addr
  crash : Action Addr

-- `text` is the message that `fmt.Errorf` makes of an error and the client's address.
module _ {Addr : Type 0} (text : Addr → RrqError → Bytes) where
  unfoldable pub answer : Addr → Result RrqError Rrq → Action Addr
  answer addr (ok req) = start addr req
  answer addr (err e) = reply addr (mk_error (text addr e))
  answer addr fault = crash

  -- a datagram is cut to the 512 bytes of the buffer
  unfoldable pub serve_one : Arrival Addr → Action Addr
  unfolding answer
  serve_one read_failed = log_error
  serve_one (arrived addr d) = answer addr (parse_rrq (take 512 d))

  -- `Serve`, over what arrives
  unfoldable pub serve : List (Arrival Addr) → List (Action Addr)
  serve [] = []
  serve (a ∷ arrivals) = serve_one a ∷ serve arrivals
