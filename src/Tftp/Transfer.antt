-- ===== src/Tftp/Transfer.antt =====
-- tftp/tftp.go: `transfer` and `Blob`. The file is a stream of bytes that ends with EOF or with an
-- error; the client is the list of events of `sendPacket`, read on from one packet to the next.
mod Rounds
pub mod Delivery
pub mod Whole
pub mod Sending
pub mod Progress
pub mod Cooperative
pub mod Outcomes
use pixiecore.Prelude.{
  ℕ, zero, suc, ◌+◌, ◌%◌, Bool, true, false, List, [], ◌∷◌, ◌++◌, Option, none, some, Bytes, codes,
  length, take, drop, ltb, leb, if◌then◌else◌, copy, store, zeros, uint16_bytes,
}
use pixiecore.Strconv.{itoa}
use pixiecore.Tftp.Packet.{mk_error}
use pixiecore.Tftp.Request.{Rrq}
use pixiecore.Tftp.Send.{
  Event, SendResult, acked, timed_out, starved, failed, aborted, Sent, send_packet,
}

-- What is left of a file; `ending` is the error behind the bytes, `none` for EOF.
pub record Stream : Type 0 where
  pub content : Bytes
  pub ending : Option Bytes

pub data ReadEnd : Type 0 where
  full unexpected_eof eof : ReadEnd
  failing : Bytes → ReadEnd

-- what `io.ReadFull` reports on a stream that is too short
unfoldable pub short_end : Bytes → Option Bytes → ReadEnd
short_end content (some e) = failing e
short_end [] none = eof
short_end (c ∷ content) none = unexpected_eof

pub record ReadFull : Type 0 where
  pub bytes : Bytes
  pub rest : Stream
  pub end_of_read : ReadEnd

-- `io.ReadFull` into a buffer of `k` bytes
unfoldable pub read_full : ℕ → Stream → ReadFull
unfolding short_end
read_full k st =
    if leb k (length st.content)
    then record {
      bytes = take k st.content;
      rest = record st { content = drop k st.content };
      end_of_read = full;
    }
    else record {
      bytes = st.content;
      rest = record st { content = [] };
      end_of_read = short_end st.content st.ending;
    }

-- `err != nil && err != io.ErrUnexpectedEOF`, with the text of the error
abbrev pub fatal : ReadEnd → Option Bytes
fatal full = none
fatal unexpected_eof = none
fatal eof = some (codes "EOF")
fatal (failing e) = some e

pub data Outcome : Type 0 where
  complete dial_failed no_file out_of_fuel : Outcome
  oack_failed : SendResult → Outcome
  read_failed : Bytes → Outcome
  send_failed : SendResult → Outcome

-- How a transfer ends, the events not yet read, and the datagrams written, in order.
pub record Transfer : Type 0 where
  pub outcome : Outcome
  pub rest : List Event
  pub writes : List Bytes

abbrev pub after_writes : List Bytes → Transfer → Transfer
after_writes ws t = record t { writes = ws ++ t.writes }

-- One round of the loop ends the transfer, or leaves a buffer, a stream and the events to come.
pub data Round : Type 0 where
  stop : Transfer → Round
  next : Bytes → Stream → List Event → List Bytes → Round

-- `sendPacket` and what follows it in the round; `n` bytes were read
unfoldable pub finish_round : ℕ → ℕ → Bytes → Stream → Sent → Round
finish_round bsize n buf st s = elim s.result [
  | acked ↦
      if ltb n bsize
      then stop (record { outcome = complete; rest = s.rest; writes = s.writes })
      else next buf st s.rest s.writes
  | timed_out ↦ stop (record { outcome = send_failed timed_out; rest = s.rest; writes = s.writes })
  | starved ↦ stop (record { outcome = send_failed starved; rest = s.rest; writes = s.writes })
  | failed e ↦ stop (record { outcome = send_failed (failed e); rest = s.rest; writes = s.writes })
  | aborted m ↦
      stop (record { outcome = send_failed (aborted m); rest = s.rest; writes = s.writes })
]

-- the buffer of a DATA packet: the block number and what was read are put in their places
unfoldable pub fill_packet : Bytes → ℕ → Bytes → Bytes
fill_packet buf seq bytes = copy (copy buf 2 (uint16_bytes seq)) 4 bytes

unfoldable pub round : ℕ → Bytes → ℕ → Stream → List Event → Round
round bsize buf seq st es =
    let r = read_full bsize st in
    let n = length r.bytes in
    let buf' = fill_packet buf seq r.bytes in
    elim (fatal r.end_of_read) [
      | some e ↦ stop (record { outcome = read_failed e; rest = es; writes = mk_error e ∷ [] })
      | none ↦
          finish_round bsize n buf' r.rest
            (send_packet (take (suc (suc (suc (suc n)))) buf') seq es)
    ]

-- `seq++` on a uint16
abbrev pub next_seq : ℕ → ℕ
next_seq seq = (seq + 1) % 65536

-- the `for` loop, on fuel
unfoldable pub transfer_loop : ℕ → ℕ → Bytes → ℕ → Stream → List Event → Transfer
transfer_loop zero bsize buf seq st es = record { outcome = out_of_fuel; rest = es; writes = [] }
transfer_loop (suc f) bsize buf seq st es = elim (round bsize buf seq st es) [
  | stop t ↦ t
  | next buf' st' es' ws ↦ after_writes ws (transfer_loop f bsize buf' (next_seq seq) st' es')
]

-- What the handler of the server returns for a path: a stream, or the text of an error.
pub data Opened : Type 0 where
  opened : Stream → Opened
  not_opened : Bytes → Opened

abbrev pub Handler : Type 0
Handler = Bytes → Opened

-- `Blob`
unfoldable pub blob : Bytes → Handler
blob b path = opened (record { content = b; ending = none })

-- the OACK packet for the blksize option
unfoldable pub oack : ℕ → Bytes
oack size = 0 ∷ 6 ∷ (codes "blksize" ++ (0 ∷ (itoa size ++ (0 ∷ []))))

-- From `seq := uint16(1)` on. A full round takes a byte at least, so the length is fuel enough.
unfoldable pub send_file : ℕ → Stream → List Event → Transfer
send_file bsize st =
    transfer_loop (suc (length st.content)) bsize (store (zeros (suc (suc (suc (suc bsize))))) 1 3)
      1 st

unfoldable pub after_oack : ℕ → Stream → Sent → Transfer
after_oack bsize st s = elim s.result [
  | acked ↦ after_writes s.writes (send_file bsize st s.rest)
  | timed_out ↦ record { outcome = oack_failed timed_out; rest = s.rest; writes = s.writes }
  | starved ↦ record { outcome = oack_failed starved; rest = s.rest; writes = s.writes }
  | failed e ↦ record { outcome = oack_failed (failed e); rest = s.rest; writes = s.writes }
  | aborted m ↦ record { outcome = oack_failed (aborted m); rest = s.rest; writes = s.writes }
]

unfoldable pub serve_stream : ℕ → Stream → List Event → Transfer
serve_stream size st es =
    if ltb 0 size then after_oack size st (send_packet (oack size) 0 es) else send_file 512 st es

-- `transfer`; `dialed` says whether `net.Dial` succeeds
unfoldable pub transfer : Bool → Handler → Rrq → List Event → Transfer
transfer false handler req es = record { outcome = dial_failed; rest = es; writes = [] }
transfer true handler req es = elim (handler req.filename) [
  | not_opened e ↦ record { outcome = no_file; rest = es; writes = mk_error e ∷ [] }
  | opened st ↦ serve_stream req.block_size st es
]
