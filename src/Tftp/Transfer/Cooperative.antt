-- ===== src/Tftp/Transfer/Cooperative.antt =====
-- tftp/tftp.go: `transfer` with a client that acknowledges every packet at once.
use pixiecore.Prelude.{
  ℕ, zero, suc, ◌+◌, ◌*◌, ◌≤◌, ◌<◌, List, [], ◌∷◌, ◌++◌, none, some, ◌≡◌, ◌⊎◌, inl, inr, refl, ap,
  sym, ◌∙◌, arith, Bytes, codes, length, length-append, take, drop, take-append, drop-append,
  take-all, length-drop, length-zero, lt→not-leb, uint16_bytes,
}
use pixiecore.Tftp.Packet.{mk_error}
use pixiecore.Tftp.Send.Acks.{Acknowledges-send_packet}
use pixiecore.Tftp.Send.{Event, datagram, acked, send_packet}
use pixiecore.Tftp.Transfer.Delivery.{loop-stop, loop-next}
use pixiecore.Tftp.Transfer.Rounds.{
  data_packet, IsBuffer, block, short, no_more, read_full-Reads, finish_next, finish_last,
  round_read, round_no_more,
}
use pixiecore.Tftp.Transfer.{
  Stream, full, unexpected_eof, read_full, short_end, complete, read_failed, after_writes, next_seq,
  transfer_loop,
}

abbrev pub ack_packet : ℕ → Bytes
ack_packet seq = 0 ∷ 4 ∷ uint16_bytes seq

-- the ACKs of `n` blocks from number `seq` on
abbrev pub acks : ℕ → ℕ → List Event
acks zero seq = []
acks (suc n) seq = datagram (ack_packet seq) ∷ acks n (next_seq seq)

-- the first `n` blocks of `content`, each one once
abbrev pub blocks : ℕ → ℕ → ℕ → Bytes → List Bytes
blocks zero bsize seq content = []
blocks (suc n) bsize seq content =
    data_packet seq (take bsize content) ∷ blocks n bsize (next_seq seq) (drop bsize content)

pub send-acked :
    (b : Bytes) (seq : ℕ) (es : List Event)
    → seq < 65536
    → send_packet b seq (datagram (ack_packet seq) ∷ es)
      ≡ record { result = acked; rest = es; writes = b ∷ [] }
send-acked b seq es h = Acknowledges-send_packet b seq {n = 0} (record {
  before = [];
  ack = ack_packet seq;
  splits = refl;
  is_ack = omega arith;
  quiet = tt;
  counted = refl;
  in_time = omega arith;
})

module _ (f : ℕ) {bsize : ℕ} (buf : Bytes) (seq : ℕ) (st : Stream) (es : List Event)
    (b : IsBuffer bsize buf) (small : seq < 65536) where
  -- the rest of the transfer stands behind one full block
  loop-block :
      bsize ≤ length st.content
      → (buf' : Bytes) × IsBuffer bsize buf'
        × (transfer_loop (suc f) bsize buf seq st (datagram (ack_packet seq) ∷ es)
            ≡ after_writes (data_packet seq (take bsize st.content) ∷ []) (
                transfer_loop f bsize buf'
                  (next_seq seq)
                  (record st { content = drop bsize st.content })
                  es))
  loop-block fits = elim (read_full-Reads bsize st) [
    | block chunk later split size same read ↦
        let (buf', b', r) =
          round_read buf seq st (datagram (ack_packet seq) ∷ es) b chunk later full read refl
            (omega (arith, size)) in
        let taken : take bsize st.content ≡ chunk =
          rw (split, ← size) (take-append chunk later.content) in
        let dropped : drop bsize st.content ≡ later.content =
          rw (split, ← size) (drop-append chunk later.content) in
        let st' = record st { content = drop bsize st.content } in
        let behind : later ≡ st' = λ i. record { content = sym dropped i; ending = same i } in
        let s = send-acked (data_packet seq chunk) seq es small in
        (
          buf',
          b',
          loop-next f bsize buf seq st _ (
                rw s at r
                ∙ finish_next bsize (length chunk) buf' later _ refl (omega (arith, size)))
              ∙ rw (taken, behind),
        )
    | short lt some_byte ending read ↦ absurd (omega arith)
    | no_more x why lt ends ↦ absurd (omega arith)
  ]

  loop-short :
      1 ≤ length st.content
      → length st.content < bsize
      → st.ending ≡ none
      → transfer_loop (suc f) bsize buf seq st (datagram (ack_packet seq) ∷ es)
        ≡ record { outcome = complete; rest = es; writes = data_packet seq st.content ∷ [] }
  loop-short some_byte lt ending = elim (read_full-Reads bsize st) [
    | block chunk later split size same read ↦
        absurd (omega (arith, ap length split, length-append {0} chunk later.content))
    | short lt some_byte ending read ↦
        let (buf', b', r) =
          round_read buf seq st _ b st.content _ unexpected_eof read refl (omega arith) in
        let s = send-acked (data_packet seq st.content) seq es small in
        loop-stop f bsize buf seq st _
          (r ∙ rw s (finish_last bsize (length st.content) buf' _ _ refl lt))
    | no_more x why lt ends ↦ absurd (no_ending why)
  ]
    where
      no_ending : (st.content ≡ []) ⊎ ((x : Bytes) × (st.ending ≡ some x)) → ⊥
      no_ending (inl e) = omega (arith, ap length e)
      no_ending (inr (x, e)) = cc

  loop_at_eof :
      1 ≤ bsize
      → st.content ≡ []
      → st.ending ≡ none
      → transfer_loop (suc f) bsize buf seq st es ≡ record {
        outcome = read_failed (codes "EOF");
        rest = es;
        writes = mk_error (codes "EOF") ∷ [];
      }
  loop_at_eof pos empty ending = loop-stop f bsize buf seq st es (
      round_no_more buf seq st es b (codes "EOF")
        (unfold read_full short_end in rw (empty, ending, lt→not-leb bsize 0 (omega arith))))

-- A file that is not a multiple of the block size long is sent to the end.
pub loop-complete :
    (k : ℕ) (f : ℕ) {bsize : ℕ} (buf : Bytes) (seq : ℕ) (st : Stream) (es : List Event) (r : ℕ)
    → IsBuffer bsize buf
    → seq < 65536
    → st.ending ≡ none
    → length st.content ≡ k * bsize + r
    → 1 ≤ r
    → r < bsize
    → length st.content < f
    → transfer_loop f bsize buf seq st (acks (suc k) seq ++ es)
      ≡ record { outcome = complete; rest = es; writes = blocks (suc k) bsize seq st.content }
loop-complete k zero buf seq st es r b small ending len pos lt fuel = absurd (omega arith)
loop-complete zero (suc f) {bsize} buf seq st es r b small ending len pos lt fuel =
    rw (take-all bsize st.content (omega arith))
      (loop-short f buf seq st es b small (omega arith) (omega arith) ending)
loop-complete (suc k) (suc f) {bsize} buf seq st es r b small ending len pos lt fuel =
    let (buf', b', e) =
      loop-block f buf seq st (acks (suc k) (next_seq seq) ++ es) b small (omega arith) in
    let cut = length-drop bsize st.content in
    e
    ∙ ap (after_writes (data_packet seq (take bsize st.content) ∷ [])) (
        loop-complete k f buf' (next_seq seq) (record st { content = drop bsize st.content }) es r
          b' (omega arith) ending (omega arith) pos lt (omega arith))

-- A file that is a multiple of the block size long is sent, and then an ERROR packet.
pub loop-multiple :
    (k : ℕ) (f : ℕ) {bsize : ℕ} (buf : Bytes) (seq : ℕ) (st : Stream) (es : List Event)
    → IsBuffer bsize buf
    → seq < 65536
    → st.ending ≡ none
    → 1 ≤ bsize
    → length st.content ≡ k * bsize
    → length st.content < f
    → transfer_loop f bsize buf seq st (acks k seq ++ es) ≡ record {
      outcome = read_failed (codes "EOF");
      rest = es;
      writes = blocks k bsize seq st.content ++ (mk_error (codes "EOF") ∷ []);
    }
loop-multiple k zero buf seq st es b small ending pos len fuel = absurd (omega arith)
loop-multiple zero (suc f) {bsize} buf seq st es b small ending pos len fuel =
    loop_at_eof f buf seq st es b small pos (length-zero st.content (omega arith)) ending
loop-multiple (suc k) (suc f) {bsize} buf seq st es b small ending pos len fuel =
    let (buf', b', e) =
      loop-block f buf seq st (acks k (next_seq seq) ++ es) b small (omega arith) in
    let cut = length-drop bsize st.content in
    e
    ∙ ap (after_writes (data_packet seq (take bsize st.content) ∷ [])) (
        loop-multiple k f buf' (next_seq seq) (record st { content = drop bsize st.content }) es b'
          (omega arith) ending pos (omega arith) (omega arith))
