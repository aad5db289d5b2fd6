-- ===== src/Tftp/Send/Steps.antt =====
-- tftp/tftp.go: `sendPacket` event by event. `resume` is the function from within its inner loop,
-- with a receive buffer and the number of further tries.
use pixiecore.Prelude.{
  ℕ, suc, min, ◌+◌, ◌*◌, ◌≤◌, List, [], ◌∷◌, ◌≡◌, ◌⊎◌, inl, inr, refl, arith, Bytes, length,
  length-copy, zeros, suc, ==_iff, Bool-cases, le→not-ltb, ◌==◌, copy,
}
use pixiecore.Tftp.Packet.{nul_str, str_of}
use pixiecore.Tftp.Send.{
  Event, timeout, read_error, datagram, timed_out, failed, aborted, starved, acked, Verdict, ignore,
  is_ack, is_abort, Wait, again, over, await, Sent, with_write, fill, judge, try_send, recv_size,
}

-- A datagram that is an ACK for block `seq`, and one that is an ERROR.
abbrev pub IsAck : ℕ → Bytes → Type 0
IsAck seq (a ∷ b ∷ c ∷ d ∷ r) = (a * 256 + b ≡ 4) × (c * 256 + d ≡ seq)
IsAck seq _ = ⊥

abbrev pub IsAbort : Bytes → Type 0
IsAbort (a ∷ b ∷ c ∷ d ∷ r) = a * 256 + b ≡ 5
IsAbort _ = ⊥

abbrev pub resume : ℕ → Bytes → ℕ → Wait → Sent
resume tries b seq (again es) = try_send tries b seq es
resume tries b seq (over r es) = record { result = r; rest = es; writes = [] }

pub try_send-zero :
    (b : Bytes) (seq : ℕ) (es : List Event)
    → try_send 0 b seq es ≡ record { result = timed_out; rest = es; writes = [] }
unfolding try_send
try_send-zero b seq es = refl

pub try_send-suc :
    (tries : ℕ) (b : Bytes) (seq : ℕ) (es : List Event)
    → try_send (suc tries) b seq es
      ≡ with_write b (resume tries b seq (await (zeros recv_size) seq es))
unfolding try_send
try_send-suc tries b seq es = ground arith

pub length-fill : (recv d : Bytes) → length (fill recv d) ≡ length recv
unfolding fill
length-fill recv d = length-copy recv 0 d

ack-not-abort : (seq : ℕ) (d : Bytes) → IsAck seq d → IsAbort d → ⊥
ack-not-abort seq (a ∷ b ∷ c ∷ d ∷ r) (four, x) five = omega arith
ack-not-abort seq (a ∷ b ∷ c ∷ []) x five = x
ack-not-abort seq (a ∷ b ∷ []) x five = x
ack-not-abort seq (a ∷ []) x five = x
ack-not-abort seq [] x five = x

judge-front :
    (a b c d n seq : ℕ) (r : Bytes)
    → 4 ≤ n
    → let v = judge (a ∷ b ∷ c ∷ d ∷ r) n seq in
      ((v ≡ ignore) × (¬ IsAck seq (a ∷ b ∷ c ∷ d ∷ r)) × (¬ IsAbort (a ∷ b ∷ c ∷ d ∷ r)))
      ⊎ ((v ≡ is_ack) × IsAck seq (a ∷ b ∷ c ∷ d ∷ r))
      ⊎ ((msg : Bytes) × (v ≡ is_abort msg) × IsAbort (a ∷ b ∷ c ∷ d ∷ r))
unfolding judge
judge-front a b c d n seq r h = elim (Bool-cases (a * 256 + b == 4)) [
  | inl four ↦ elim (Bool-cases (c * 256 + d == seq)) [
    | inl this ↦
        inr (inl (rw (le→not-ltb n 4 h, four, this), ((==_iff _ 4).0 four, (==_iff _ seq).0 this)))
    | inr other ↦
        inl
          (rw (le→not-ltb n 4 h, four, other), (λ ack. ground (arith, ack.1)), (λ e. ground arith))
  ]
  | inr not_four ↦ elim (Bool-cases (a * 256 + b == 5)) [
    | inl five ↦
        inr (inr (str_of (nul_str r), rw (le→not-ltb n 4 h, not_four, five), (==_iff _ 5).0 five))
    | inr not_five ↦ inl (
      rw (le→not-ltb n 4 h, not_four, not_five),
      (λ ack. ground (arith, ack.0)),
      (λ e. ground arith),
    )
  ]
]

pub await_timeout :
    (recv : Bytes) (seq : ℕ) (es : List Event) → await recv seq (timeout ∷ es) ≡ again es
unfolding await
await_timeout recv seq es = refl

pub await_read_error :
    (recv e : Bytes) (seq : ℕ) (es : List Event)
    → await recv seq (read_error e ∷ es) ≡ over (failed e) es
unfolding await
await_read_error recv e seq es = refl

pub await_nil : (recv : Bytes) (seq : ℕ) → await recv seq [] ≡ over starved []
unfolding await
await_nil recv seq = refl

-- Whatever the buffer held before, a datagram is judged by its own bytes.
pub judge-fill :
    (recv d : Bytes) (seq : ℕ)
    → 4 ≤ length recv
    → let v = judge (fill recv d) (min (length d) recv_size) seq in
      ((v ≡ ignore) × (¬ IsAck seq d) × (¬ IsAbort d))
      ⊎ ((v ≡ is_ack) × IsAck seq d)
      ⊎ ((msg : Bytes) × (v ≡ is_abort msg) × IsAbort d)
judge-fill recv [] seq h = inl (unfold judge in refl, (λ x. x), (λ x. x))
judge-fill recv (a ∷ []) seq h = inl (unfold judge in refl, (λ x. x), (λ x. x))
judge-fill recv (a ∷ b ∷ []) seq h = inl (unfold judge in refl, (λ x. x), (λ x. x))
judge-fill recv (a ∷ b ∷ c ∷ []) seq h = inl (unfold judge in refl, (λ x. x), (λ x. x))
judge-fill (w ∷ x ∷ y ∷ z ∷ recv) (a ∷ b ∷ c ∷ d ∷ r) seq h =
    unfold fill copy in
    judge-front a b c d (min (suc (suc (suc (suc (length r))))) recv_size) seq (copy recv 0 r)
      (omega arith)
judge-fill [] (a ∷ b ∷ c ∷ d ∷ r) seq h = elim h [ ]
judge-fill (w ∷ []) (a ∷ b ∷ c ∷ d ∷ r) seq h = absurd (omega arith)
judge-fill (w ∷ x ∷ []) (a ∷ b ∷ c ∷ d ∷ r) seq h = absurd (omega arith)
judge-fill (w ∷ x ∷ y ∷ []) (a ∷ b ∷ c ∷ d ∷ r) seq h = absurd (omega arith)

await-judge :
    (recv d : Bytes) (seq : ℕ) (es : List Event) {v : Verdict}
    → judge (fill recv d) (min (length d) recv_size) seq ≡ v
    → await recv seq (datagram d ∷ es) ≡ elim v [
      | ignore ↦ await (fill recv d) seq es
      | is_ack ↦ over acked es
      | is_abort msg ↦ over (aborted msg) es
    ]
unfolding await
await-judge recv d seq es e = λ i. elim (e i) [
  | ignore ↦ await (fill recv d) seq es
  | is_ack ↦ over acked es
  | is_abort msg ↦ over (aborted msg) es
]

module _ (recv d : Bytes) (seq : ℕ) (es : List Event) (long : 4 ≤ length recv) where
  pub await_ack : IsAck seq d → await recv seq (datagram d ∷ es) ≡ over acked es
  await_ack a = elim (judge-fill recv d seq long) [
    | inl (e, not_ack, x) ↦ absurd (not_ack a)
    | inr (inl (e, x)) ↦ await-judge recv d seq es e
    | inr (inr (msg, e, b)) ↦ absurd (ack-not-abort seq d a b)
  ]

  pub await_quiet :
      ¬ IsAck seq d → ¬ IsAbort d → await recv seq (datagram d ∷ es) ≡ await (fill recv d) seq es
  await_quiet na nb = elim (judge-fill recv d seq long) [
    | inl (e, x, y) ↦ await-judge recv d seq es e
    | inr (inl (e, a)) ↦ absurd (na a)
    | inr (inr (msg, e, b)) ↦ absurd (nb b)
  ]

  -- The three ways to go on from a datagram.
  pub await_cases :
      (IsAck seq d × (await recv seq (datagram d ∷ es) ≡ over acked es))
      ⊎ ((¬ IsAck seq d)
          × (¬ IsAbort d)
          × (await recv seq (datagram d ∷ es) ≡ await (fill recv d) seq es))
      ⊎ ((msg : Bytes) × (await recv seq (datagram d ∷ es) ≡ over (aborted msg) es))
  await_cases = elim (judge-fill recv d seq long) [
    | inl (e, x, y) ↦ inr (inl (x, y, await-judge recv d seq es e))
    | inr (inl (e, a)) ↦ inl (a, await-judge recv d seq es e)
    | inr (inr (msg, e, b)) ↦ inr (inr (msg, await-judge recv d seq es e))
  ]
