-- ===== src/Tftp/Send/Acks.antt =====
-- tftp/tftp.go: when `sendPacket` succeeds.
use pixiecore.Prelude.{
  ℕ, zero, suc, ◌+◌, ◌≤◌, List, [], ◌∷◌, ◌++◌, ◌≡◌, ◌↔◌, inl, inr, refl, ap, ◌∙◌, arith, Bytes, All,
  length, replicate, zeros,
}
use pixiecore.Tftp.Send.Steps.{
  IsAck, IsAbort, resume, try_send-zero, try_send-suc, length-fill, await_ack, await_quiet,
  await_cases, await_timeout, await_read_error, await_nil,
}
use pixiecore.Tftp.Send.{
  Event, timeout, read_error, datagram, acked, await, Sent, with_write, fill, send_packet,
  recv_size,
}

-- An event that leaves `sendPacket` waiting for the ACK of block `seq`.
abbrev pub Quiet : ℕ → Event → Type 0
Quiet seq timeout = Unit
Quiet seq (read_error e) = ⊥
Quiet seq (datagram d) = (¬ IsAck seq d) × (¬ IsAbort d)

abbrev pub timeouts : List Event → ℕ
timeouts [] = 0
timeouts (timeout ∷ es) = suc (timeouts es)
timeouts (read_error e ∷ es) = timeouts es
timeouts (datagram d ∷ es) = timeouts es

-- The client acknowledges block `seq` with `ack`, before it has let more than `tries` tries pass,
-- and `rest` is what comes later.
pub record Acknowledges (tries seq : ℕ) (es rest : List Event) (passed : ℕ) : Type 0 where
  pub before : List Event
  pub ack : Bytes
  pub splits : es ≡ before ++ (datagram ack ∷ rest)
  pub is_ack : IsAck seq ack
  pub quiet : All (Quiet seq) before
  pub counted : timeouts before ≡ passed
  pub in_time : passed ≤ tries

resume-ack :
    (before : List Event) (tries : ℕ) (b recv : Bytes) (seq : ℕ) (ack : Bytes) (rest : List Event)
    → 4 ≤ length recv
    → IsAck seq ack
    → All (Quiet seq) before
    → timeouts before ≤ tries
    → resume tries b seq (await recv seq (before ++ (datagram ack ∷ rest)))
      ≡ record { result = acked; rest = rest; writes = replicate (timeouts before) b }
resume-ack [] tries b recv seq ack rest long a q t = rw (await_ack recv ack seq rest long a)
resume-ack (timeout ∷ es) zero b recv seq ack rest long a q t = absurd (omega arith)
resume-ack (timeout ∷ es) (suc tries) b recv seq ack rest long a (_, q) t = rw await_timeout (
    try_send-suc tries b seq (es ++ (datagram ack ∷ rest))
    ∙ ap (with_write b)
        (resume-ack es tries b (zeros recv_size) seq ack rest (omega arith) a q (omega arith)))
resume-ack (read_error e ∷ es) tries b recv seq ack rest long a q t = absurd q.0
resume-ack (datagram d ∷ es) tries b recv seq ack rest long a ((na, nb), q) t =
    rw (await_quiet recv d seq (es ++ (datagram ack ∷ rest)) long na nb)
      (resume-ack es tries b (fill recv d) seq ack rest (rw length-fill long) a q t)

timeouts-cons : (e : Event) (es : List Event) → timeouts (e ∷ es) ≡ timeouts (e ∷ []) + timeouts es
timeouts-cons timeout es = omega arith
timeouts-cons (read_error e) es = omega arith
timeouts-cons (datagram d) es = omega arith

-- the same client one event earlier
one_more :
    {tries tries' seq n n' : ℕ} {es rest : List Event} (e : Event)
    → Quiet seq e
    → timeouts (e ∷ []) + n ≡ n'
    → n' ≤ tries'
    → Acknowledges tries seq es rest n
    → Acknowledges tries' seq (e ∷ es) rest n'
one_more e q c t a = record {
  before = e ∷ a.before;
  ack = a.ack;
  splits = ap (◌∷◌ e) a.splits;
  is_ack = a.is_ack;
  quiet = (q, a.quiet);
  counted = timeouts-cons e a.before ∙ omega (arith, a.counted);
  in_time = t;
}

acked-Acknowledges :
    (es : List Event) (tries : ℕ) (b recv : Bytes) (seq : ℕ)
    → 4 ≤ length recv
    → (resume tries b seq (await recv seq es)).result ≡ acked
    → (n : ℕ) × (rest : List Event) × Acknowledges tries seq es rest n
acked-Acknowledges [] tries b recv seq long h = absurd (ground (arith, await_nil recv seq))
acked-Acknowledges (read_error e ∷ es) tries b recv seq long h =
    absurd (ground (arith, await_read_error recv e seq es))
acked-Acknowledges (timeout ∷ es) zero b recv seq long h =
    absurd (ground (arith, await_timeout recv seq es, try_send-zero b seq es))
acked-Acknowledges (timeout ∷ es) (suc tries) b recv seq long h =
    let h' = rw (await_timeout, try_send-suc) at h in
    let (n, rest, a) = acked-Acknowledges es tries b (zeros recv_size) seq (omega arith) h' in
    (suc n, rest, one_more timeout tt (omega arith) (omega (arith, a.in_time)) a)
acked-Acknowledges (datagram d ∷ es) tries b recv seq long h =
    elim (await_cases recv d seq es long) [
      | inl (a, e) ↦ (
        0,
        es,
        record {
          before = [];
          ack = d;
          splits = refl;
          is_ack = a;
          quiet = tt;
          counted = refl;
          in_time = omega arith;
        },
      )
      | inr (inl (na, nb, e)) ↦
          let (n, rest, a) =
            acked-Acknowledges es tries b (fill recv d) seq (rw length-fill long) (rw e at h) in
          (n, rest, one_more (datagram d) (na, nb) (omega arith) a.in_time a)
      | inr (inr (msg, e)) ↦ absurd (ground arith)
    ]

send_packet-resume :
    (b : Bytes) (seq : ℕ) (es : List Event)
    → send_packet b seq es ≡ with_write b (resume 4 b seq (await (zeros recv_size) seq es))
unfolding send_packet
send_packet-resume b seq es = try_send-suc 4 b seq es

-- What `sendPacket` returns to a client that acknowledges in time.
pub Acknowledges-send_packet :
    (b : Bytes) (seq : ℕ) {n : ℕ} {es rest : List Event}
    → Acknowledges 4 seq es rest n
    → send_packet b seq es ≡ record { result = acked; rest = rest; writes = replicate (suc n) b }
Acknowledges-send_packet b seq {n} {es} {rest} a =
    send_packet-resume b seq es
    ∙ ap (with_write b) (
        rw (a.splits, ← a.counted)
          (resume-ack a.before 4 b (zeros recv_size) seq a.ack rest (omega arith) a.is_ack a.quiet
            (omega (arith, a.counted, a.in_time))))

-- `sendPacket` succeeds exactly when an ACK for its block arrives, before five timeouts, a read error
-- or an ERROR packet; what is neither of these is passed over. It has then written its packet
-- once more than there were timeouts, and read nothing behind the ACK.
pub send_packet-acked_iff :
    (b : Bytes) (seq : ℕ) (es : List Event)
    → ((send_packet b seq es).result ≡ acked) ↔ (
        (n : ℕ) × (rest : List Event) × Acknowledges 4 seq es rest n
        × (send_packet b seq es
            ≡ record { result = acked; rest = rest; writes = replicate (suc n) b }))
send_packet-acked_iff b seq es = (λ h. forth h, λ p. ap (λ (s : Sent). s.result) p.3)
  where
    forth :
        (send_packet b seq es).result ≡ acked
        → (n : ℕ) × (rest : List Event) × Acknowledges 4 seq es rest n
          × (send_packet b seq es
              ≡ record { result = acked; rest = rest; writes = replicate (suc n) b })
    forth h =
        let (n, rest, a) =
          acked-Acknowledges es 4 b (zeros recv_size) seq (omega arith)
            (rw (send_packet-resume b seq es) at h) in
        (n, rest, a, Acknowledges-send_packet b seq a)
