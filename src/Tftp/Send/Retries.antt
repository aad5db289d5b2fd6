-- ===== src/Tftp/Send/Retries.antt =====
-- tftp/tftp.go: how often `sendPacket` writes its packet, and when it stops waiting.
use pixiecore.Prelude.{
  ℕ, zero, suc, ◌≤◌, ◌<◌, List, [], ◌∷◌, ◌≡◌, ◌≢◌, inl, inr, refl, ap, arith, Bytes, length,
  replicate, zeros,
}
use pixiecore.Tftp.Send.Acks.{timeouts}
use pixiecore.Tftp.Send.Steps.{
  resume, try_send-zero, try_send-suc, length-fill, await_cases, await_timeout, await_read_error,
}
use pixiecore.Tftp.Send.{
  Event, timeout, read_error, datagram, starved, Wait, again, over, await, fill, try_send,
  send_packet, recv_size,
}

-- `ws` is the packet `b`, `least` to `most` times.
pub record Repeats (least most : ℕ) (b : Bytes) (ws : List Bytes) : Type 0 where
  pub times : ℕ
  pub at_least : least ≤ times
  pub at_most : times ≤ most
  pub same : ws ≡ replicate times b

resume-Repeats :
    (tries : ℕ) (b : Bytes) (seq : ℕ) (w : Wait)
    → ((es : List Event) → Repeats 0 tries b (try_send tries b seq es).writes)
    → Repeats 0 tries b (resume tries b seq w).writes
resume-Repeats tries b seq (again es) h = h es
resume-Repeats tries b seq (over r es) h = record {
  times = 0;
  at_least = omega arith;
  at_most = omega arith;
  same = refl;
}

one_write : {n : ℕ} {b : Bytes} {ws : List Bytes} → Repeats 0 n b ws → Repeats 1 (suc n) b (b ∷ ws)
one_write {n} {b} r = record {
  times = suc r.times;
  at_least = omega arith;
  at_most = omega (arith, r.at_most);
  same = ap (◌∷◌ b) r.same;
}

try_send-Repeats :
    (tries : ℕ) (b : Bytes) (seq : ℕ) (es : List Event)
    → Repeats 0 tries b (try_send tries b seq es).writes
try_send-Repeats zero b seq es =
    rw try_send-zero
      (record { times = 0; at_least = omega arith; at_most = omega arith; same = refl })
try_send-Repeats (suc tries) b seq es =
    let w = await (zeros recv_size) seq es in
    let r = one_write (resume-Repeats tries b seq w (try_send-Repeats tries b seq)) in
    rw try_send-suc
      (record { times = r.times; at_least = omega arith; at_most = r.at_most; same = r.same })

-- Whatever the client does, `sendPacket` writes its own packet only, once at least and five times
-- at most.
pub send_packet-Repeats :
    (b : Bytes) (seq : ℕ) (es : List Event) → Repeats 1 5 b (send_packet b seq es).writes
unfolding send_packet
send_packet-Repeats b seq es =
    rw try_send-suc (
      one_write
        (resume-Repeats 4 b seq (await (zeros recv_size) seq es) (try_send-Repeats 4 b seq)))

resume-ne-starved :
    (es : List Event) (tries : ℕ) (b recv : Bytes) (seq : ℕ)
    → 4 ≤ length recv
    → tries < timeouts es
    → (resume tries b seq (await recv seq es)).result ≢ starved
resume-ne-starved [] tries b recv seq long h = absurd (omega arith)
resume-ne-starved (read_error e ∷ es) tries b recv seq long h =
    λ s. ground (arith, await_read_error recv e seq es)
resume-ne-starved (timeout ∷ es) zero b recv seq long h =
    λ s. ground (arith, await_timeout recv seq es, try_send-zero b seq es)
resume-ne-starved (timeout ∷ es) (suc tries) b recv seq long h =
    rw (await_timeout, try_send-suc)
      (resume-ne-starved es tries b (zeros recv_size) seq (omega arith) (omega arith))
resume-ne-starved (datagram d ∷ es) tries b recv seq long h =
    elim (await_cases recv d seq es long) [
      | inl (a, e) ↦ λ s. ground arith
      | inr (inl (na, nb, e)) ↦
          rw e (resume-ne-starved es tries b (fill recv d) seq (rw length-fill long) h)
      | inr (inr (msg, e)) ↦ λ s. ground arith
    ]

-- Once the read deadline has passed five times, `sendPacket` has returned, whatever else arrived.
pub send_packet-ne-starved :
    (b : Bytes) (seq : ℕ) (es : List Event)
    → 5 ≤ timeouts es
    → (send_packet b seq es).result ≢ starved
unfolding send_packet
send_packet-ne-starved b seq es h =
    rw try_send-suc (resume-ne-starved es 4 b (zeros recv_size) seq (omega arith) h)
