-- ===== src/Tftp/Transfer/Progress.antt =====
-- tftp/tftp.go: `transfer` ends, and what it does with a client that acknowledges every packet.
use pixiecore.Prelude.{
  ℕ, zero, suc, ◌≤◌, ◌<◌, List, ◌≡◌, ◌≢◌, inl, inr, refl, ap, ◌∙◌, arith, Bytes, Bool, true, false,
  length, length-append, lt→ltb,
}
use pixiecore.Tftp.Request.{Rrq}
use pixiecore.Tftp.Send.{Event, send_packet}
use pixiecore.Tftp.Transfer.Delivery.{loop-stop, loop-next}
use pixiecore.Tftp.Transfer.Rounds.{
  data_packet, IsBuffer, block, short, no_more, read_full-Reads, is_acked, finish_failed,
  finish_next, finish_last, round_read, round_no_more,
}
use pixiecore.Tftp.Transfer.Whole.{first-IsBuffer}
use pixiecore.Tftp.Transfer.{
  Stream, full, unexpected_eof, out_of_fuel, next_seq, transfer_loop, Opened, opened, not_opened,
  Handler, oack, send_file, after_oack, serve_stream, transfer,
}

loop-ne-out_of_fuel :
    (f : ℕ) {bsize : ℕ} (buf : Bytes) (seq : ℕ) (st : Stream) (es : List Event)
    → IsBuffer bsize buf
    → 1 ≤ bsize
    → length st.content < f
    → (transfer_loop f bsize buf seq st es).outcome ≢ out_of_fuel
loop-ne-out_of_fuel zero buf seq st es b pos h = absurd (omega arith)
loop-ne-out_of_fuel (suc f) {bsize} buf seq st es b pos h = elim (read_full-Reads bsize st) [
  | block chunk later split size same read ↦
      let (buf', b', r) =
        round_read buf seq st es b chunk later full read refl (omega (arith, size)) in
      let s = send_packet (data_packet seq chunk) seq es in
      elim (is_acked s.result) [
        | inl yes_acked ↦
            rw
              (loop-next f bsize buf seq st es
                (r ∙ finish_next bsize (length chunk) buf' later s yes_acked (omega (arith, size))))
              (loop-ne-out_of_fuel f buf' (next_seq seq) later s.rest b' pos
                (omega (arith, ap length split, length-append {0} chunk later.content)))
        | inr not_acked ↦
            rw
              (loop-stop f bsize buf seq st es
                (r ∙ finish_failed bsize (length chunk) buf' later s not_acked))
              (λ e. cc)
      ]
  | short lt some_byte ending read ↦
      let (buf', b', r) =
        round_read buf seq st es b st.content _ unexpected_eof read refl (omega arith) in
      let s = send_packet (data_packet seq st.content) seq es in
      elim (is_acked s.result) [
        | inl yes_acked ↦
            rw
              (loop-stop f bsize buf seq st es
                (r ∙ finish_last bsize (length st.content) buf' _ s yes_acked lt))
              (λ e. cc)
        | inr not_acked ↦
            rw
              (loop-stop f bsize buf seq st es
                (r ∙ finish_failed bsize (length st.content) buf' _ s not_acked))
              (λ e. cc)
      ]
  | no_more x why lt ends ↦
      rw (loop-stop f bsize buf seq st es (round_no_more buf seq st es b x ends)) (λ e. cc)
]

send_file-ne-out_of_fuel :
    (bsize : ℕ) (st : Stream) (es : List Event)
    → 1 ≤ bsize
    → (send_file bsize st es).outcome ≢ out_of_fuel
unfolding send_file
send_file-ne-out_of_fuel bsize st es pos =
    loop-ne-out_of_fuel _ _ 1 st es (first-IsBuffer bsize) pos (omega arith)

serve_stream-ne-out_of_fuel :
    (size : ℕ) (st : Stream) (es : List Event) → (serve_stream size st es).outcome ≢ out_of_fuel
unfolding serve_stream after_oack
serve_stream-ne-out_of_fuel zero st es = send_file-ne-out_of_fuel 512 st es (omega arith)
serve_stream-ne-out_of_fuel (suc n) st es = λ e.
    let s = send_packet (oack (suc n)) 0 es in
    ground (
      arith,
      lt→ltb 0 (suc n) (omega arith),
      send_file-ne-out_of_fuel (suc n) st s.rest (omega arith),
    )

-- The loop of `transfer` ends, whatever the client does: the fuel given is enough.
pub transfer-ne-out_of_fuel :
    (dialed : Bool) (handler : Handler) (req : Rrq) (es : List Event)
    → (transfer dialed handler req es).outcome ≢ out_of_fuel
unfolding transfer
transfer-ne-out_of_fuel false handler req es = λ e. cc
transfer-ne-out_of_fuel true handler req es = λ e. by_file (handler req.filename) refl e
  where
    by_file :
        (o : Opened)
        → handler req.filename ≡ o
        → (transfer true handler req es).outcome ≢ out_of_fuel
    by_file (not_opened x) h = λ e. ground arith
    by_file (opened st) h = rw (h, transfer) (serve_stream-ne-out_of_fuel req.block_size st es)
