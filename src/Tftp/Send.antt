-- ===== src/Tftp/Send.antt =====
-- tftp/tftp.go: `sendPacket`. What the client's socket delivers is a list of events, one for each
-- return of `conn.Read`; the end of the list means that the server still waits. A timeout stands
-- for the read deadline, which is set once for each try.
pub mod Steps
pub mod Retries
pub mod Acks
use pixiecore.Prelude.{
  ℕ, zero, suc, min, ◌+◌, ◌*◌, Bool, true, false, List, [], ◌∷◌, ◌++◌, Bytes, length, take, drop,
  get_or, ltb, ◌==◌, if◌then◌else◌, copy, zeros,
}
use pixiecore.Tftp.Packet.{nul_str, str_of}

pub data Event : Type 0 where
  timeout : Event
  read_error : Bytes → Event
  datagram : Bytes → Event

pub data SendResult : Type 0 where
  acked timed_out starved : SendResult
  failed : Bytes → SendResult
  aborted : Bytes → SendResult

-- What one datagram makes of the wait.
pub data Verdict : Type 0 where
  ignore is_ack : Verdict
  is_abort : Bytes → Verdict

abbrev pub num_retries : ℕ
num_retries = 5

abbrev pub recv_size : ℕ
recv_size = 256

-- `conn.Read(recv[:])`: a datagram overwrites the front of the buffer, and what does not fit is lost.
unfoldable pub fill : Bytes → Bytes → Bytes
unfolding copy
fill recv d = copy recv 0 d

-- `binary.BigEndian.Uint16` on the receive buffer, which is always long enough
abbrev pub recv_uint16 : Bytes → ℕ → ℕ
recv_uint16 recv i = get_or recv i 0 * 256 + get_or recv (suc i) 0

-- the test on `n` and the `switch` on the opcode; `recv` holds the datagram of length `n`
unfoldable pub judge : Bytes → ℕ → ℕ → Verdict
judge recv n seq =
    if ltb n 4
    then ignore
    else if recv_uint16 recv 0 == 4
    then (if recv_uint16 recv 2 == seq then is_ack else ignore)
    else if recv_uint16 recv 0 == 5
    then is_abort (str_of (nul_str (drop 4 recv)))
    else ignore

-- How the inner loop ends: with a new try, or with the result of `sendPacket`.
pub data Wait : Type 0 where
  again : List Event → Wait
  over : SendResult → List Event → Wait

-- the inner loop, from the events still to come
unfoldable pub await : Bytes → ℕ → List Event → Wait
unfolding fill judge
await recv seq [] = over starved []
await recv seq (timeout ∷ es) = again es
await recv seq (read_error e ∷ es) = over (failed e) es
await recv seq (datagram d ∷ es) =
    let recv' = fill recv d in
    let rest = await recv' seq es in
    elim (judge recv' (min (length d) recv_size) seq) [
      | ignore ↦ rest
      | is_ack ↦ over acked es
      | is_abort msg ↦ over (aborted msg) es
    ]

-- The result, the events not yet read, and the datagrams written, in order.
pub record Sent : Type 0 where
  pub result : SendResult
  pub rest : List Event
  pub writes : List Bytes

abbrev pub with_write : Bytes → Sent → Sent
with_write b s = record s { writes = b ∷ s.writes }

-- the outer loop, with `tries` rounds left; each has a receive buffer of its own
unfoldable pub try_send : ℕ → Bytes → ℕ → List Event → Sent
unfolding await
try_send zero b seq es = record { result = timed_out; rest = es; writes = [] }
try_send (suc tries) b seq es = elim (await (zeros recv_size) seq es) [
  | again es' ↦ with_write b (try_send tries b seq es')
  | over r es' ↦ record { result = r; rest = es'; writes = b ∷ [] }
]

-- `sendPacket`
unfoldable pub send_packet : Bytes → ℕ → List Event → Sent
unfolding try_send
send_packet = try_send num_retries
