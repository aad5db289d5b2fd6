-- ===== src/System/Asked.antt =====
-- The running process: the read requests that its transfers are for.
use mathlib.Core.Path.{subst}
use pixiecore.Tftp.Request.Accepts.{IsRequest}
use pixiecore.Tftp.Serve.Replies.{Answered}
use pixiecore.Dhcp.Socket.{UdpAddr}
use pixiecore.System.{Happened, tftp_round}
use pixiecore.Tftp.Request.{Rrq, RrqError}
use pixiecore.Tftp.Serve.{arrived, Action, start}
use pixiecore.Prelude.{inl, inr, List, [], ◌∷◌, ◌≡◌, sym, Bytes, All, take}

-- In the history, a read request from `addr` was answered by a transfer of `req`.
pub data Asked (addr : UdpAddr) (req : Rrq) : List Happened → Type 0 where
  now :
      (from : UdpAddr) (d : Bytes) (hs : List Happened)
      → from ≡ addr
      → IsRequest (take 512 d) req
      → Asked addr req (tftp_round (arrived from d) (start addr req) ∷ hs)
  before : (h : Happened) (hs : List Happened) → Asked addr req hs → Asked addr req (h ∷ hs)

abbrev pub IsAsked : List Happened → UdpAddr × Rrq → Type 0
IsAsked hs (addr, req) = Asked addr req hs

start-injective :
    {a b : UdpAddr} {q r : Rrq}
    → ◌≡◌ {A = Action UdpAddr} (start a q) (start b r)
    → (a ≡ b) × (q ≡ r)
start-injective h = (cc, cc)

pub IsAsked-later :
    (h : Happened) (hs : List Happened) (ts : List (UdpAddr × Rrq))
    → All (IsAsked hs) ts
    → All (IsAsked (h ∷ hs)) ts
IsAsked-later h hs [] a = tt
IsAsked-later h hs ((addr, req) ∷ ts) (asked, rest) =
    (before h hs asked, IsAsked-later h hs ts rest)

-- A transfer that the TFTP server starts was asked for by the datagram that it has just read.
pub start-Asked :
    (text : UdpAddr → RrqError → Bytes) (addr to : UdpAddr) (d : Bytes) (req : Rrq)
    (hs : List Happened)
    → Answered text addr d (start to req)
    → Asked to req (tftp_round (arrived addr d) (start to req) ∷ hs)
unfolding Answered
start-Asked text addr to d req hs (inl (r, is, e)) =
    let (from, same) = start-injective e in
    now addr d hs (sym from) (subst (IsRequest (take 512 d)) (sym same) is)
start-Asked text addr to d req hs (inr (_, x, e)) = cc
