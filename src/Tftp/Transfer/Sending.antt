-- ===== src/Tftp/Transfer/Sending.antt =====
-- tftp/tftp.go: what a transfer has sent, however it ends.
use pixiecore.Prelude.{
  ℕ, zero, suc, ◌≤◌, List, [], ◌∷◌, ◌++◌, ◌≡◌, ◌⊎◌, inl, inr, refl, sym, ap, ◌∙◌, arith, append-nil,
  Bool, Bytes, codes, length, true, false, lt→ltb,
}
use pixiecore.Strconv.{itoa}
use pixiecore.Tftp.Packet.{mk_error_lem}
use pixiecore.Tftp.Request.{Rrq}
use pixiecore.Tftp.Send.Retries.{Repeats, send_packet-Repeats}
use pixiecore.Tftp.Send.{Event, SendResult, acked, timed_out, starved, failed, aborted, send_packet}
use pixiecore.Tftp.Transfer.Delivery.{loop-stop, loop-next}
use pixiecore.Tftp.Transfer.Rounds.{
  data_packet, IsBuffer, block, short, no_more, read_full-Reads, is_acked, finish_failed,
  finish_next, finish_last, round_read, round_no_more,
}
use pixiecore.Tftp.Transfer.Whole.{block_size_of, first-IsBuffer}
use pixiecore.Tftp.Transfer.{
  Stream, full, unexpected_eof, next_seq, transfer_loop, Opened, opened, not_opened, Handler, oack,
  send_file, after_oack, serve_stream, transfer,
}

-- An ERROR packet with the message `e`.
abbrev pub error_packet : Bytes → Bytes
error_packet e = 0 ∷ 5 ∷ 0 ∷ 0 ∷ (e ++ (0 ∷ []))

-- `ws` is a beginning of `content`, in blocks of `bsize` bytes, or the rest, numbered from `seq` on
-- modulo 2^16, each sent one to five times; at most one ERROR packet stands behind them.
pub data Sends (bsize : ℕ) : ℕ → Bytes → List Bytes → Type 0 where
  nothing : {seq : ℕ} {content : Bytes} → Sends bsize seq content []
  refused : {seq : ℕ} {content : Bytes} (e : Bytes) → Sends bsize seq content (error_packet e ∷ [])
  sent :
      {seq : ℕ} {content : Bytes} {ws : List Bytes} (chunk later : Bytes) (ws₁ ws₂ : List Bytes)
      → content ≡ chunk ++ later
      → (length chunk ≡ bsize) ⊎ (later ≡ [])
      → Repeats 1 5 (data_packet seq chunk) ws₁
      → ws ≡ ws₁ ++ ws₂
      → Sends bsize (next_seq seq) later ws₂
      → Sends bsize seq content ws

-- A block, and nothing behind it.
one_block :
    {bsize seq : ℕ} (chunk later : Bytes) (ws : List Bytes)
    → (length chunk ≡ bsize) ⊎ (later ≡ [])
    → Repeats 1 5 (data_packet seq chunk) ws
    → Sends bsize seq (chunk ++ later) ws
one_block chunk later ws size r = sent chunk later ws [] refl size r (sym (append-nil ws)) nothing

loop-Sends :
    (f : ℕ) {bsize : ℕ} (buf : Bytes) (seq : ℕ) (st : Stream) (es : List Event)
    → IsBuffer bsize buf
    → Sends bsize seq st.content (transfer_loop f bsize buf seq st es).writes
loop-Sends zero buf seq st es b = unfold transfer_loop in nothing
loop-Sends (suc f) {bsize} buf seq st es b = elim (read_full-Reads bsize st) [
  | block chunk later split size same read ↦
      let (buf', b', r) =
        round_read buf seq st es b chunk later full read refl (omega (arith, size)) in
      let s = send_packet (data_packet seq chunk) seq es in
      let repeats = send_packet-Repeats (data_packet seq chunk) seq es in
      elim (is_acked s.result) [
        | inl yes_acked ↦
            let e =
              loop-next f bsize buf seq st es (
                r
                ∙ finish_next bsize (length chunk) buf' later s yes_acked (omega (arith, size))) in
            rw e (
              sent chunk later.content s.writes _ split (inl size) repeats refl
                (loop-Sends f buf' (next_seq seq) later s.rest b'))
        | inr not_acked ↦
            let e =
              loop-stop f bsize buf seq st es
                (r ∙ finish_failed bsize (length chunk) buf' later s not_acked) in
            rw (e, split) (one_block chunk later.content s.writes (inl size) repeats)
      ]
  | short lt pos ending read ↦
      let (buf', b', r) =
        round_read buf seq st es b st.content _ unexpected_eof read refl (omega arith) in
      let s = send_packet (data_packet seq st.content) seq es in
      let last : Sends bsize seq st.content s.writes =
        sent st.content [] s.writes [] (sym (append-nil st.content)) (inr refl)
          (send_packet-Repeats (data_packet seq st.content) seq es) (sym (append-nil s.writes))
          nothing in
      elim (is_acked s.result) [
        | inl yes_acked ↦
            rw
              (loop-stop f bsize buf seq st es
                (r ∙ finish_last bsize (length st.content) buf' _ s yes_acked lt))
              last
        | inr not_acked ↦
            rw
              (loop-stop f bsize buf seq st es
                (r ∙ finish_failed bsize (length st.content) buf' _ s not_acked))
              last
      ]
  | no_more x why lt ends ↦
      rw (loop-stop f bsize buf seq st es (round_no_more buf seq st es b x ends), mk_error_lem x)
        (refused x)
]

send_file-Sends :
    (bsize : ℕ) (st : Stream) (es : List Event)
    → Sends bsize 1 st.content (send_file bsize st es).writes
unfolding send_file
send_file-Sends bsize st es = loop-Sends _ _ 1 st es (first-IsBuffer bsize)

-- The datagrams `ws` of a transfer: the OACK that the block size asks for, one to five times, and
-- then a beginning of the file, from block 1 on.
pub record Begun (size : ℕ) (content : Bytes) (ws : List Bytes) : Type 0 where
  pub negotiation : List Bytes
  pub blocks : List Bytes
  pub negotiated :
      ((size ≡ 0) × (negotiation ≡ []))
      ⊎ ((1 ≤ size)
          × Repeats 1 5 (0 ∷ 6 ∷ (codes "blksize" ++ (0 ∷ (itoa size ++ (0 ∷ []))))) negotiation)
  pub sends : Sends (block_size_of size) 1 content blocks
  pub split : ws ≡ negotiation ++ blocks

after_oack-Sends :
    (bsize : ℕ) (st : Stream) (r : SendResult) (rest : List Event) (ws : List Bytes)
    → (blocks : List Bytes) × Sends bsize 1 st.content blocks
      × ((after_oack bsize st (record { result = r; rest = rest; writes = ws })).writes
          ≡ ws ++ blocks)
unfolding after_oack
after_oack-Sends bsize st acked rest ws =
    ((send_file bsize st rest).writes, send_file-Sends bsize st rest, refl)
after_oack-Sends bsize st timed_out rest ws = ([], nothing, sym (append-nil ws))
after_oack-Sends bsize st starved rest ws = ([], nothing, sym (append-nil ws))
after_oack-Sends bsize st (failed e) rest ws = ([], nothing, sym (append-nil ws))
after_oack-Sends bsize st (aborted m) rest ws = ([], nothing, sym (append-nil ws))

serve_stream-Begun :
    (size : ℕ) (st : Stream) (es : List Event)
    → Begun size st.content (serve_stream size st es).writes
unfolding serve_stream oack
serve_stream-Begun zero st es = record {
  negotiation = [];
  blocks = (send_file 512 st es).writes;
  negotiated = inl (refl, refl);
  sends = send_file-Sends 512 st es;
  split = refl;
}
serve_stream-Begun (suc n) st es =
    let s = send_packet (oack (suc n)) 0 es in
    let positive = lt→ltb 0 (suc n) (omega arith) in
    let (blocks, sends, split) = after_oack-Sends (suc n) st s.result s.rest s.writes in
    record {
      negotiation = s.writes;
      blocks = blocks;
      negotiated = inr (omega arith, send_packet-Repeats (oack (suc n)) 0 es);
      sends = rw positive sends;
      split = rw (positive, serve_stream) split;
    }

-- However a transfer ends, it has sent nothing, or an ERROR with the reason why the file cannot be
-- opened, or the OACK and a beginning of the file.
abbrev pub IsSent : Handler → Rrq → List Bytes → Type 0
IsSent handler req ws =
    (ws ≡ [])
    ⊎ ((e : Bytes) × (handler req.filename ≡ not_opened e) × (ws ≡ error_packet e ∷ []))
    ⊎ ((st : Stream) × (handler req.filename ≡ opened st) × Begun req.block_size st.content ws)

pub transfer-IsSent :
    (dialed : Bool) (handler : Handler) (req : Rrq) (es : List Event)
    → IsSent handler req (transfer dialed handler req es).writes
unfolding transfer
transfer-IsSent false handler req es = inl refl
transfer-IsSent true handler req es = by_file (handler req.filename) refl
  where
    by_file :
        (o : Opened)
        → handler req.filename ≡ o
        → IsSent handler req (transfer true handler req es).writes
    by_file (not_opened x) e =
        inr (inl (x, e, rw (e, transfer) (ap (λ (t : Bytes). t ∷ []) (mk_error_lem x))))
    by_file (opened st) e =
        inr (inr (st, e, rw (e, transfer) (serve_stream-Begun req.block_size st es)))
