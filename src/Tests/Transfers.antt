-- ===== src/Tests/Transfers.antt =====
-- tftp/tftp.go: transfers and single packets, run and instantiated.
use pixiecore.Prelude.{
  ℕ, suc, List, [], ◌∷◌, ◌++◌, none, ◌≡◌, ◌≢◌, ◌↔◌, refl, arith, Bytes, codes, replicate, true,
  copy,
}
use pixiecore.Strconv.{itoa, digits_onto}
use pixiecore.Tftp.Packet.{mk_error, nul_str, str_of}
use pixiecore.Tftp.Request.{Rrq}
use pixiecore.Tftp.Send.Acks.{Acknowledges, send_packet-acked_iff}
use pixiecore.Tftp.Send.Retries.{send_packet-ne-starved}
use pixiecore.Tftp.Send.{
  Event, timeout, datagram, acked, starved, aborted, send_packet, try_send, await, judge, fill,
}
use pixiecore.Tftp.Transfer.Cooperative.{ack_packet, blocks}
use pixiecore.Tftp.Transfer.Outcomes.{
  cooperative, oacks, transfer_part-complete, transfer_multiple-read_failed,
}
use pixiecore.Tftp.Transfer.Progress.{transfer-ne-out_of_fuel}
use pixiecore.Tftp.Transfer.Whole.{
  block_size_of, Served, transfer-Served, transfer_multiple-ne-complete,
}
use pixiecore.Tftp.Transfer.{
  Stream, read_full, short_end, complete, read_failed, out_of_fuel, opened, blob, oack, fill_packet,
  finish_round, round, transfer_loop, send_file, after_oack, serve_stream, transfer,
}

-- ten bytes, for blocks of eight
abbrev pub ten : Bytes
ten = codes "0123456789"

abbrev ten_stream : Stream
ten_stream = record { content = ten; ending = none }

-- eight bytes
abbrev eight : Bytes
eight = codes "01234567"

abbrev eight_stream : Stream
eight_stream = record { content = eight; ending = none }

abbrev pub of_eight : Rrq
of_eight = record { filename = codes "boot"; block_size = 8 }

-- The client answers the OACK late, and sends the ACK of the OACK twice.
abbrev pub late : List Event
late =
    timeout
    ∷ datagram (ack_packet 0)
    ∷ datagram (ack_packet 0)
    ∷ datagram (ack_packet 1)
    ∷ timeout
    ∷ datagram (ack_packet 2)
    ∷ []

pub runs_late : (transfer true (blob ten) of_eight late).outcome ≡ complete
unfolding transfer blob serve_stream after_oack send_file transfer_loop round finish_round
    fill_packet read_full short_end send_packet try_send await judge fill copy oack itoa digits_onto
    nul_str str_of
runs_late = refl

found_ten : blob ten of_eight.filename ≡ opened ten_stream
unfolding blob
found_ten = refl

found_eight : blob eight of_eight.filename ≡ opened eight_stream
unfolding blob
found_eight = refl

-- An ERROR packet with no NUL takes its message from what the buffer held before.
runs_leftover :
    (send_packet
      (oack 8)
      0
      (datagram (0 ∷ 4 ∷ 0 ∷ 9 ∷ codes "yes") ∷ datagram (0 ∷ 5 ∷ 0 ∷ 0 ∷ codes "n") ∷ [])).result
    ≡ aborted (codes "nes")
unfolding send_packet try_send await judge fill copy nul_str str_of
runs_leftover = refl

transfer-Served_example :
    (st : Stream) × (blob ten of_eight.filename ≡ opened st)
    × (st.ending ≡ none)
    × Served of_eight.block_size st.content (transfer true (blob ten) of_eight late).writes
transfer-Served_example = transfer-Served true (blob ten) of_eight late runs_late

transfer_part-complete_example :
    transfer true (blob ten) of_eight (cooperative 8 2 ++ [])
    ≡ record { outcome = complete; rest = []; writes = oacks 8 ++ blocks 2 (block_size_of 8) 1 ten }
transfer_part-complete_example =
    transfer_part-complete (blob ten) of_eight [] ten_stream 1 found_ten refl 2 refl (omega arith)
      (omega arith)

transfer_multiple-read_failed_example :
    transfer true (blob eight) of_eight (cooperative 8 1 ++ (timeout ∷ [])) ≡ record {
      outcome = read_failed (codes "EOF");
      rest = timeout ∷ [];
      writes = oacks 8 ++ (blocks 1 (block_size_of 8) 1 eight ++ (mk_error (codes "EOF") ∷ []));
    }
transfer_multiple-read_failed_example =
    transfer_multiple-read_failed (blob eight) of_eight (timeout ∷ []) eight_stream 1 found_eight
      refl refl

transfer_multiple-ne-complete_example :
    (transfer true (blob eight) of_eight late).outcome ≢ complete
transfer_multiple-ne-complete_example =
    transfer_multiple-ne-complete true (blob eight) of_eight late eight_stream 1 found_eight refl

transfer-ne-out_of_fuel_example : (transfer true (blob eight) of_eight late).outcome ≢ out_of_fuel
transfer-ne-out_of_fuel_example = transfer-ne-out_of_fuel true (blob eight) of_eight late

send_packet-acked_iff_example : ((send_packet (oack 8) 0 late).result ≡ acked) ↔ (
    (n : ℕ) × (rest : List Event) × Acknowledges 4 0 late rest n
    × (send_packet (oack 8) 0 late
        ≡ record { result = acked; rest = rest; writes = replicate (suc n) (oack 8) }))
send_packet-acked_iff_example = send_packet-acked_iff (oack 8) 0 late

send_packet-ne-starved_example : (send_packet (oack 8) 0 (replicate 5 timeout)).result ≢ starved
send_packet-ne-starved_example =
    send_packet-ne-starved (oack 8) 0 (replicate 5 timeout) (omega arith)
