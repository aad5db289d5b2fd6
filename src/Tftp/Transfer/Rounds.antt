-- ===== src/Tftp/Transfer/Rounds.antt =====
-- tftp/tftp.go: one round of the loop of `transfer`.
use pixiecore.Prelude.{
  ℕ, ◌+◌, ◌/◌, ◌%◌, ◌≤◌, ◌<◌, List, [], ◌∷◌, ◌++◌, Option, none, some, ◌≡◌, ◌≢◌, ◌⊎◌, inl, inr,
  refl, ap, sym, arith, Bytes, codes, Bool-cases, length, length-append, take, drop,
  take-append-drop, length-take, take-append, leb, leb→le, not-leb→lt, lt→ltb, le→not-ltb,
  lt→not-leb, copy, copy_mid, append_cases, uint16_bytes,
}
use pixiecore.Tftp.Packet.{mk_error}
use pixiecore.Tftp.Send.{
  Event, SendResult, acked, timed_out, starved, failed, aborted, Sent, send_packet,
}
use pixiecore.Tftp.Transfer.{
  Stream, ReadEnd, full, unexpected_eof, short_end, read_full, fatal, complete, read_failed,
  send_failed, stop, next, finish_round, fill_packet, round,
}

-- A DATA packet: opcode 3, the block number, the bytes.
abbrev pub data_packet : ℕ → Bytes → Bytes
data_packet seq chunk = 0 ∷ 3 ∷ (uint16_bytes seq ++ chunk)

-- The buffer between rounds: opcode 3 in front, and room for a block.
pub record IsBuffer (bsize : ℕ) (buf : Bytes) : Type 0 where
  pub hi : ℕ
  pub lo : ℕ
  pub body : Bytes
  pub layout : buf ≡ 0 ∷ 3 ∷ hi ∷ lo ∷ body
  pub room : length body ≡ bsize

-- What is written into a buffer stands behind its header, and the rest is left.
fill_packet_lem :
    {bsize : ℕ} (buf : Bytes) (seq : ℕ) (bytes : Bytes)
    → IsBuffer bsize buf
    → length bytes ≤ bsize
    → (left : Bytes) × (fill_packet buf seq bytes ≡ data_packet seq (bytes ++ left))
      × (length bytes + length left ≡ bsize)
unfolding fill_packet copy
fill_packet_lem buf seq bytes h fits =
    let (old, left, e, n) = append_cases (length bytes) h.body (omega (arith, h.room)) in
    (
      left,
      rw (h.layout, e) (copy_mid (0 ∷ 3 ∷ (uint16_bytes seq)) old left bytes (sym n)),
      omega (arith, ap length e, length-append {0} old left, h.room),
    )

-- A read that is not fatal: a whole block, or the short end of a file that ends with EOF.
pub data Reads (bsize : ℕ) (st : Stream) : Type 0 where
  block :
      (chunk : Bytes) (later : Stream)
      → st.content ≡ chunk ++ later.content
      → length chunk ≡ bsize
      → later.ending ≡ st.ending
      → read_full bsize st ≡ record { bytes = chunk; rest = later; end_of_read = full }
      → Reads bsize st
  short :
      length st.content < bsize
      → 1 ≤ length st.content
      → st.ending ≡ none
      → read_full bsize st ≡ record {
        bytes = st.content;
        rest = record st { content = [] };
        end_of_read = unexpected_eof;
      }
      → Reads bsize st
  no_more :
      (e : Bytes)
      → (st.content ≡ []) ⊎ ((x : Bytes) × (st.ending ≡ some x))
      → length st.content < bsize
      → fatal (read_full bsize st).end_of_read ≡ some e
      → Reads bsize st

short_Reads :
    (bsize : ℕ) (content : Bytes) (ending : Option Bytes)
    → length content < bsize
    → Reads bsize (record { content = content; ending = ending })
unfolding read_full short_end
short_Reads bsize content (some x) h =
    no_more x (inr (x, refl)) h (rw (lt→not-leb bsize (length content) h))
short_Reads bsize [] none h = no_more (codes "EOF") (inl refl) h (rw (lt→not-leb bsize 0 h))
short_Reads bsize (c ∷ content) none h =
    short h (omega arith) refl (rw (lt→not-leb bsize (length (c ∷ content)) h))

pub read_full-Reads : (bsize : ℕ) (st : Stream) → Reads bsize st
read_full-Reads bsize st = elim (Bool-cases (leb bsize (length st.content))) [
  | inl fits ↦
      block (take bsize st.content) (record st { content = drop bsize st.content })
        (sym (take-append-drop bsize st.content))
        (omega (arith, length-take bsize st.content, leb→le _ _ fits)) refl
        (unfold read_full in rw fits)
  | inr lacks ↦ short_Reads bsize st.content st.ending (not-leb→lt _ _ lacks)
]

pub is_acked : (r : SendResult) → (r ≡ acked) ⊎ (r ≢ acked)
is_acked acked = inl refl
is_acked timed_out = inr (λ e. cc)
is_acked starved = inr (λ e. cc)
is_acked (failed x) = inr (λ e. cc)
is_acked (aborted x) = inr (λ e. cc)

module _ (bsize n : ℕ) (buf : Bytes) (st : Stream) (s : Sent) where
  pub finish_failed :
      s.result ≢ acked
      → finish_round bsize n buf st s
        ≡ stop (record { outcome = send_failed s.result; rest = s.rest; writes = s.writes })
  unfolding finish_round
  finish_failed h = ground arith

  pub finish_next :
      s.result ≡ acked → bsize ≤ n → finish_round bsize n buf st s ≡ next buf st s.rest s.writes
  unfolding finish_round
  finish_next h le = rw (h, le→not-ltb n bsize le)

  pub finish_last :
      s.result ≡ acked
      → n < bsize
      → finish_round bsize n buf st s
        ≡ stop (record { outcome = complete; rest = s.rest; writes = s.writes })
  unfolding finish_round
  finish_last h lt = rw (h, lt→ltb n bsize lt)

module _ {bsize : ℕ} (buf : Bytes) (seq : ℕ) (st : Stream) (es : List Event)
    (b : IsBuffer bsize buf) where
  round_as :
      (bytes : Bytes) (later : Stream) (r : ReadEnd) (left : Bytes)
      → read_full bsize st ≡ record { bytes = bytes; rest = later; end_of_read = r }
      → fatal r ≡ none
      → fill_packet buf seq bytes ≡ data_packet seq (bytes ++ left)
      → round bsize buf seq st es
        ≡ finish_round bsize
            (length bytes)
            (data_packet seq (bytes ++ left))
            later
            (send_packet (data_packet seq bytes) seq es)
  unfolding round
  round_as bytes later r left read ok filled =
      rw (read, round) (rw (ok, round) (rw (read, filled, take-append bytes left)))

  -- A packet that is written holds what was read, and nothing of the blocks before.
  pub round_read :
      (bytes : Bytes) (later : Stream) (r : ReadEnd)
      → read_full bsize st ≡ record { bytes = bytes; rest = later; end_of_read = r }
      → fatal r ≡ none
      → length bytes ≤ bsize
      → (buf' : Bytes) × IsBuffer bsize buf'
        × (round bsize buf seq st es
            ≡ finish_round bsize
                (length bytes)
                buf'
                later
                (send_packet (data_packet seq bytes) seq es))
  round_read bytes later r read ok fits =
      let (left, e, l) = fill_packet_lem buf seq bytes b fits in
      (
        data_packet seq (bytes ++ left),
        record {
          hi = seq / 256 % 256;
          lo = seq % 256;
          body = bytes ++ left;
          layout = refl;
          room = omega (arith, length-append {0} bytes left);
        },
        round_as bytes later r left read ok e,
      )

  pub round_no_more :
      (e : Bytes)
      → fatal (read_full bsize st).end_of_read ≡ some e
      → round bsize buf seq st es
        ≡ stop (record { outcome = read_failed e; rest = es; writes = mk_error e ∷ [] })
  unfolding round
  round_no_more e h = rw (h, round)
