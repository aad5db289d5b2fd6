-- ===== src/Tftp/Serve/Replies.antt =====
-- tftp/tftp.go: how the server answers a datagram.
use pixiecore.Prelude.{[], ◌∷◌, ◌++◌, ◌≡◌, ◌⊎◌, inl, inr, refl, Bytes, take, Result, ok, err, fault}
use pixiecore.Tftp.Packet.{mk_error_lem}
use pixiecore.Tftp.Request.Accepts.{IsRequest, parse_rrq_iff}
use pixiecore.Tftp.Request.Safety.{parse_rrq-ne-fault}
use pixiecore.Tftp.Request.{Rrq, RrqError, parse_rrq}
use pixiecore.Tftp.Serve.{arrived, Action, reply, start, serve_one}

abbrev pub error_packet : Bytes → Bytes
error_packet message = 0 ∷ 5 ∷ 0 ∷ 0 ∷ (message ++ (0 ∷ []))

module _ {Addr : Type 0} (text : Addr → RrqError → Bytes) where
  -- A datagram gets a transfer to its sender if its first 512 bytes are a read request, and an ERROR
  -- packet to its sender otherwise.
  unfoldable pub Answered : Addr → Bytes → Action Addr → Type 0
  Answered addr d a =
      ((req : Rrq) × IsRequest (take 512 d) req × (a ≡ start addr req))
      ⊎ (((req : Rrq) → ¬ IsRequest (take 512 d) req)
          × (e : RrqError) × (a ≡ reply addr (error_packet (text addr e))))

  -- Every datagram is answered in one of two ways, and to its sender: by a transfer exactly when its
  -- first 512 bytes are a read request, and by an ERROR packet otherwise.
  pub serve_one-Answered :
      (addr : Addr) (d : Bytes) → Answered addr d (serve_one text (arrived addr d))
  unfolding serve_one Answered
  serve_one-Answered addr d = by_result (parse_rrq (take 512 d)) refl
    where
      by_result :
          (r : Result RrqError Rrq)
          → parse_rrq (take 512 d) ≡ r
          → Answered addr d (serve_one text (arrived addr d))
      by_result (ok req) e = inl (req, (parse_rrq_iff (take 512 d) req).0 e, rw e)
      by_result (err x) e =
          inr
            ((λ req is. clash req ((parse_rrq_iff (take 512 d) req).1 is)), x, rw (e, mk_error_lem))
        where
          clash : (req : Rrq) → parse_rrq (take 512 d) ≡ ok req → ⊥
          clash req f = cc
      by_result fault e = absurd (parse_rrq-ne-fault (take 512 d) e)
