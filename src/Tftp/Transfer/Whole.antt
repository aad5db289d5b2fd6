-- ===== src/Tftp/Transfer/Whole.antt =====
-- tftp/tftp.go: what a whole transfer that completes has sent, OACK and blocks.
use pixiecore.Prelude.{
  ℕ, zero, suc, ◌*◌, ◌≤◌, List, [], ◌++◌, none, ◌≡◌, ◌≢◌, ◌⊎◌, inl, inr, refl, ap, sym, ◌∙◌, arith,
  Bytes, Bool, true, false, length, length-append, ltb, if◌then◌else◌, store, zeros, copy,
  length-replicate, lt→ltb,
}
use pixiecore.Tftp.Request.{Rrq}
use pixiecore.Tftp.Send.Retries.{Repeats, send_packet-Repeats}
use pixiecore.Tftp.Send.{Event, Sent, send_packet}
use pixiecore.Tftp.Transfer.Rounds.{IsBuffer, is_acked}
use pixiecore.Tftp.Transfer.Delivery.{Delivered, last_block, full_block, loop-Delivered}
use pixiecore.Tftp.Transfer.{
  Stream, complete, Transfer, after_writes, next_seq, Opened, opened, not_opened, Handler, oack,
  send_file, after_oack, serve_stream, transfer,
}

pub opened-injective : {s t : Stream} → opened s ≡ opened t → s ≡ t
opened-injective h = cc

abbrev pub block_size_of : ℕ → ℕ
block_size_of size = if ltb 0 size then size else 512

-- The datagrams `ws` of a transfer: an OACK if the request has a block size, one to five times, and
-- then the file, from block 1 on.
pub record Served (size : ℕ) (content : Bytes) (ws : List Bytes) : Type 0 where
  pub negotiation : List Bytes
  pub blocks : List Bytes
  pub negotiated :
      ((size ≡ 0) × (negotiation ≡ [])) ⊎ ((1 ≤ size) × Repeats 1 5 (oack size) negotiation)
  pub delivered : Delivered (block_size_of size) 1 content blocks
  pub split : ws ≡ negotiation ++ blocks

pub first-IsBuffer : (bsize : ℕ) → IsBuffer bsize (store (zeros (suc (suc (suc (suc bsize))))) 1 3)
first-IsBuffer bsize = record {
  hi = 0;
  lo = 0;
  body = zeros bsize;
  layout = unfold copy in refl;
  room = length-replicate bsize 0;
}

send_file-Delivered :
    (bsize : ℕ) (st : Stream) (es : List Event)
    → (send_file bsize st es).outcome ≡ complete
    → (st.ending ≡ none) × Delivered bsize 1 st.content (send_file bsize st es).writes
unfolding send_file
send_file-Delivered bsize st es h = loop-Delivered _ _ 1 st es (first-IsBuffer bsize) h

after_oack_cases :
    (bsize : ℕ) (st : Stream) (s : Sent)
    → (after_oack bsize st s).outcome ≡ complete
    → (after_oack bsize st s ≡ after_writes s.writes (send_file bsize st s.rest))
      × ((send_file bsize st s.rest).outcome ≡ complete)
unfolding after_oack
after_oack_cases bsize st s h = elim (is_acked s.result) [
  | inl e ↦ (rw (e, after_oack), rw (e, after_oack) at h)
  | inr n ↦ absurd (ground arith)
]

serve_stream-Served :
    (size : ℕ) (st : Stream) (es : List Event)
    → (serve_stream size st es).outcome ≡ complete
    → (st.ending ≡ none) × Served size st.content (serve_stream size st es).writes
unfolding serve_stream
serve_stream-Served zero st es h =
    let (ending, d) = send_file-Delivered 512 st es h in
    (
      ending,
      record {
        negotiation = [];
        blocks = _;
        negotiated = inl (refl, refl);
        delivered = d;
        split = refl;
      },
    )
serve_stream-Served (suc n) st es h =
    let s = send_packet (oack (suc n)) 0 es in
    let positive = lt→ltb 0 (suc n) (omega arith) in
    let (e, c) = after_oack_cases (suc n) st s (rw positive at h) in
    let (ending, d) = send_file-Delivered (suc n) st s.rest c in
    (
      ending,
      record {
        negotiation = s.writes;
        blocks = (send_file (suc n) st s.rest).writes;
        negotiated = inr (omega arith, send_packet-Repeats (oack (suc n)) 0 es);
        delivered = rw positive d;
        split = rw (positive, serve_stream) (ap (λ (t : Transfer). t.writes) e);
      },
    )

-- A transfer that completes has opened the file, met EOF behind its bytes, and sent the OACK that
-- the block size asks for and then all of the file: blocks in order from number 1, each one to
-- five times, the last shorter than the block size and not empty.
pub transfer-Served :
    (dialed : Bool) (handler : Handler) (req : Rrq) (es : List Event)
    → (transfer dialed handler req es).outcome ≡ complete
    → (st : Stream) × (handler req.filename ≡ opened st)
      × (st.ending ≡ none)
      × Served req.block_size st.content (transfer dialed handler req es).writes
unfolding transfer
transfer-Served false handler req es h = cc
transfer-Served true handler req es h = opened_cases (handler req.filename) refl
  where
    opened_cases :
        (o : Opened)
        → handler req.filename ≡ o
        → (st : Stream) × (handler req.filename ≡ opened st)
          × (st.ending ≡ none)
          × Served req.block_size st.content (transfer true handler req es).writes
    opened_cases (not_opened x) e = absurd (ground arith)
    opened_cases (opened st) e =
        let (ending, s) = serve_stream-Served req.block_size st es (rw (e, transfer) at h) in
        (st, e, ending, rw (e, transfer) s)

Delivered-not_multiple :
    {bsize : ℕ} (k : ℕ) {seq : ℕ} {content : Bytes} {ws : List Bytes}
    → Delivered bsize seq content ws
    → length content ≢ k * bsize
Delivered-not_multiple zero (last_block pos lt r) = λ e. omega arith
Delivered-not_multiple (suc k) (last_block pos lt r) = λ e. grind arith
Delivered-not_multiple zero {seq} (full_block chunk later ws₁ ws₂ split size r w d) = λ e.
    Delivered-not_multiple zero {seq = next_seq seq} d
      (omega (arith, ap length split, length-append {0} chunk later))
Delivered-not_multiple (suc k) {seq} (full_block chunk later ws₁ ws₂ split size r w d) = λ e.
    Delivered-not_multiple k {seq = next_seq seq} d
      (omega (arith, ap length split, length-append {0} chunk later))

-- A file whose length is a multiple of the block size, the empty file included, is never served to
-- the end, whatever the client does.
pub transfer_multiple-ne-complete :
    (dialed : Bool) (handler : Handler) (req : Rrq) (es : List Event) (st : Stream) (k : ℕ)
    → handler req.filename ≡ opened st
    → length st.content ≡ k * block_size_of req.block_size
    → (transfer dialed handler req es).outcome ≢ complete
transfer_multiple-ne-complete dialed handler req es st k e multiple h =
    let (st', e', _, served) = transfer-Served dialed handler req es h in
    let same : st' ≡ st = opened-injective (sym e' ∙ e) in
    Delivered-not_multiple k served.delivered (rw same multiple)
