-- ===== src/Tftp/Transfer/Delivery.antt =====
-- tftp/tftp.go: what a transfer that completes has sent.
use pixiecore.Prelude.{
  ℕ, zero, suc, ◌≤◌, ◌<◌, List, ◌++◌, none, ◌≡◌, inl, inr, refl, sym, ◌∙◌, arith, Bytes, length,
}
use pixiecore.Tftp.Send.Retries.{Repeats, send_packet-Repeats}
use pixiecore.Tftp.Send.{Event, send_packet}
use pixiecore.Tftp.Transfer.Rounds.{
  data_packet, IsBuffer, block, short, no_more, read_full-Reads, is_acked, finish_failed,
  finish_next, finish_last, round_read, round_no_more,
}
use pixiecore.Tftp.Transfer.{
  Stream, full, unexpected_eof, complete, Transfer, after_writes, stop, next, round, next_seq,
  transfer_loop,
}

-- `ws` carries `content` to a client that reads in order: blocks of `bsize` bytes, numbered from
-- `seq` on modulo 2^16, each sent one to five times, and behind them a shorter block that is not
-- empty.
pub data Delivered (bsize : ℕ) : ℕ → Bytes → List Bytes → Type 0 where
  last_block :
      {seq : ℕ} {content : Bytes} {ws : List Bytes}
      → 1 ≤ length content
      → length content < bsize
      → Repeats 1 5 (data_packet seq content) ws
      → Delivered bsize seq content ws
  full_block :
      {seq : ℕ} {content : Bytes} {ws : List Bytes} (chunk later : Bytes) (ws₁ ws₂ : List Bytes)
      → content ≡ chunk ++ later
      → length chunk ≡ bsize
      → Repeats 1 5 (data_packet seq chunk) ws₁
      → ws ≡ ws₁ ++ ws₂
      → Delivered bsize (next_seq seq) later ws₂
      → Delivered bsize seq content ws

module _ (f bsize : ℕ) (buf : Bytes) (seq : ℕ) (st : Stream) (es : List Event) where
  pub loop-stop :
      {t : Transfer}
      → round bsize buf seq st es ≡ stop t
      → transfer_loop (suc f) bsize buf seq st es ≡ t
  unfolding transfer_loop
  loop-stop h = rw (h, transfer_loop)

  pub loop-next :
      {buf' : Bytes} {st' : Stream} {es' : List Event} {ws : List Bytes}
      → round bsize buf seq st es ≡ next buf' st' es' ws
      → transfer_loop (suc f) bsize buf seq st es
        ≡ after_writes ws (transfer_loop f bsize buf' (next_seq seq) st' es')
  unfolding transfer_loop
  loop-next h = rw (h, transfer_loop)

pub loop-Delivered :
    (f : ℕ) {bsize : ℕ} (buf : Bytes) (seq : ℕ) (st : Stream) (es : List Event)
    → IsBuffer bsize buf
    → (transfer_loop f bsize buf seq st es).outcome ≡ complete
    → (st.ending ≡ none)
      × Delivered bsize seq st.content (transfer_loop f bsize buf seq st es).writes
loop-Delivered zero buf seq st es b h = absurd (unfold transfer_loop in ground arith)
loop-Delivered (suc f) {bsize} buf seq st es b h = elim (read_full-Reads bsize st) [
  | block chunk later split size same read ↦
      let (buf', b', r) =
        round_read buf seq st es b chunk later full read refl (omega (arith, size)) in
      let s = send_packet (data_packet seq chunk) seq es in
      elim (is_acked s.result) [
        | inl yes_acked ↦
            let e =
              loop-next f bsize buf seq st es (
                r
                ∙ finish_next bsize (length chunk) buf' later s yes_acked (omega (arith, size))) in
            let (ending, d) = loop-Delivered f buf' (next_seq seq) later s.rest b' (rw e at h) in
            (
              sym same ∙ ending,
              rw e (
                  full_block chunk later.content s.writes _ split size
                    (send_packet-Repeats (data_packet seq chunk) seq es) refl d),
            )
        | inr not_acked ↦
            let e =
              loop-stop f bsize buf seq st es
                (r ∙ finish_failed bsize (length chunk) buf' later s not_acked) in
            absurd (ground arith)
      ]
  | short lt pos ending read ↦
      let (buf', b', r) =
        round_read buf seq st es b st.content _ unexpected_eof read refl (omega arith) in
      let s = send_packet (data_packet seq st.content) seq es in
      elim (is_acked s.result) [
        | inl yes_acked ↦
            let e =
              loop-stop f bsize buf seq st es
                (r ∙ finish_last bsize (length st.content) buf' _ s yes_acked lt) in
            (
              ending,
              rw e (last_block pos lt (send_packet-Repeats (data_packet seq st.content) seq es)),
            )
        | inr not_acked ↦
            let e =
              loop-stop f bsize buf seq st es
                (r ∙ finish_failed bsize (length st.content) buf' _ s not_acked) in
            absurd (ground arith)
      ]
  | no_more x why lt ends ↦
      let e = loop-stop f bsize buf seq st es (round_no_more buf seq st es b x ends) in
      absurd (ground arith)
]
