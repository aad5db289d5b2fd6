-- ===== src/Tftp/Transfer/Outcomes.antt =====
-- tftp/tftp.go: whole transfers to a client that acknowledges every packet at once.
use pixiecore.Prelude.{
  ℕ, zero, suc, ◌+◌, ◌*◌, ◌≤◌, ◌<◌, List, [], ◌∷◌, ◌++◌, none, ◌≡◌, refl, ap, ◌∙◌, arith, Bytes,
  codes, true, length, ltb, lt→ltb, if◌then◌else◌,
}
use pixiecore.Tftp.Packet.{mk_error}
use pixiecore.Tftp.Request.{Rrq}
use pixiecore.Tftp.Send.{Event, datagram}
use pixiecore.Tftp.Transfer.Cooperative.{
  ack_packet, acks, blocks, send-acked, loop-complete, loop-multiple,
}
use pixiecore.Tftp.Transfer.Whole.{block_size_of, first-IsBuffer}
use pixiecore.Tftp.Transfer.{
  Stream, complete, read_failed, after_writes, opened, Handler, oack, send_file, after_oack,
  serve_stream, transfer,
}

-- A client that acknowledges the OACK, if one is due, and then the first `n` blocks.
abbrev pub cooperative : ℕ → ℕ → List Event
cooperative size n = (if ltb 0 size then datagram (ack_packet 0) ∷ [] else []) ++ acks n 1

abbrev pub oacks : ℕ → List Bytes
oacks size = if ltb 0 size then oack size ∷ [] else []

serve-cooperative :
    (size n : ℕ) (st : Stream) (es : List Event)
    → serve_stream size st (cooperative size n ++ es)
      ≡ after_writes (oacks size) (send_file (block_size_of size) st (acks n 1 ++ es))
unfolding serve_stream after_oack
serve-cooperative zero n st es = refl
serve-cooperative (suc m) n st es =
    rw (lt→ltb 0 (suc m) (omega arith), send-acked (oack (suc m)) 0 (acks n 1 ++ es) (omega arith))

block_size_of-pos : (size : ℕ) → 1 ≤ block_size_of size
block_size_of-pos size = ground arith

module _ (handler : Handler) (req : Rrq) (es : List Event) (st : Stream) (k : ℕ)
    (found : handler req.filename ≡ opened st) (ending : st.ending ≡ none) where
  -- A file of `k` blocks and a part of a block is served whole to a client that acknowledges every
  -- packet: the OACK if one is due and each block are written once, in order, and it completes.
  pub transfer_part-complete :
      (r : ℕ)
      → length st.content ≡ k * block_size_of req.block_size + r
      → 1 ≤ r
      → r < block_size_of req.block_size
      → transfer true handler req (cooperative req.block_size (suc k) ++ es) ≡ record {
        outcome = complete;
        rest = es;
        writes = oacks req.block_size ++ blocks (suc k) (block_size_of req.block_size) 1 st.content;
      }
  unfolding transfer send_file
  transfer_part-complete r len pos lt =
      rw (found, transfer)
        (serve-cooperative req.block_size (suc k) st es
          ∙ ap (after_writes (oacks req.block_size)) (
              loop-complete k _ _ 1 st es r (first-IsBuffer _) (omega arith) ending len pos lt
                (omega arith)))

  -- To the same client, a file of exactly `k` blocks, the empty file included, is sent with an ERROR
  -- packet of message EOF behind its last block, where the client waits for an empty block.
  pub transfer_multiple-read_failed :
      length st.content ≡ k * block_size_of req.block_size
      → transfer true handler req (cooperative req.block_size k ++ es) ≡ record {
        outcome = read_failed (codes "EOF");
        rest = es;
        writes =
            oacks req.block_size
            ++ (blocks k (block_size_of req.block_size) 1 st.content
                ++ (mk_error (codes "EOF") ∷ []));
      }
  unfolding transfer send_file
  transfer_multiple-read_failed len =
      rw (found, transfer)
        (serve-cooperative req.block_size k st es
          ∙ ap (after_writes (oacks req.block_size)) (
              loop-multiple k _ _ 1 st es (first-IsBuffer _) (omega arith) ending
                (block_size_of-pos req.block_size) len (omega arith)))
