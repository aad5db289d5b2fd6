-- ===== src/Tftp/Request/Safety.antt =====
-- tftp/tftp.go: `parseRRQ` does not panic, its loop ends, and the block size it returns is in range.
use pixiecore.Prelude.{
  ℕ, zero, suc, ◌≤◌, ◌<◌, not, [], ◌∷◌, ◌≡◌, ◌≢◌, ◌⊎◌, inl, refl, arith, Bytes, codes, length, ltb,
  not-ltb→le, ◌==◌, equal, slice, uint16, uint16-ne-fault, slice-ne-fault, some-ne-fault,
  reject-ne-fault, after_some, after_ok, ℤ, ok, fault, >>=-ne-fault,
}
use pixiecore.Strconv.{atoi}
use pixiecore.Tftp.Packet.{nul_str, nul_str-lt}
use pixiecore.Tftp.Request.Inversion.{parse_rrq-Parsed}
use pixiecore.Tftp.Request.{Rrq, apply_option, parse_options, parse_rrq}

apply_option-ne-fault : (opt : Bytes) (val : ℤ) (req : Rrq) → apply_option opt val req ≢ fault
unfolding apply_option
apply_option-ne-fault opt val req = ground arith

parse_options-ne-fault :
    (f : ℕ) (b : Bytes) (req : Rrq) → length b < f → parse_options f b req ≢ fault
unfolding parse_options
parse_options-ne-fault zero b req h = absurd (omega arith)
parse_options-ne-fault (suc f) [] req h = λ e. cc
parse_options-ne-fault (suc f) (c ∷ b) req h = some-ne-fault (nul_str (c ∷ b)) _ _ λ p e₁.
    some-ne-fault (nul_str p.1) _ _ λ q e₂. some-ne-fault (atoi q.0) _ _ λ val e₃.
      >>=-ne-fault _ _ (apply_option-ne-fault p.0 val req) λ req' e₄.
        parse_options-ne-fault f q.1 req' (omega (arith, nul_str-lt (c ∷ b) e₁, nul_str-lt p.1 e₂))

-- Whatever the datagram, `parseRRQ` neither panics nor loops on: it returns a request or an error.
pub parse_rrq-ne-fault : (b : Bytes) → parse_rrq b ≢ fault
unfolding parse_rrq
parse_rrq-ne-fault b = reject-ne-fault (ltb (length b) 6) _ _ λ short.
    let long : 6 ≤ length b = not-ltb→le _ _ short in
    >>=-ne-fault (uint16 b 0) _ (uint16-ne-fault b 0 (omega arith)) λ op _.
      reject-ne-fault (not (op == 1)) _ _ λ _.
        >>=-ne-fault (slice b 2 (length b)) _
          (slice-ne-fault b 2 (length b) (omega arith) (omega arith))
          λ b₀ _. some-ne-fault (nul_str b₀) _ _ λ p _. some-ne-fault (nul_str p.1) _ _ λ q _.
            reject-ne-fault (not (equal q.0 (codes "octet"))) _ _
              λ _. parse_options-ne-fault (suc (length q.1)) q.1 _ (omega arith)

-- A block size that a request may carry: none, or one from 8 to 1450.
abbrev pub InRange : ℕ → Type 0
InRange n = (n ≡ 0) ⊎ ((8 ≤ n) × (n ≤ 1450))

apply_option-InRange :
    (opt : Bytes) (val : ℤ) (req : Rrq) {req' : Rrq}
    → InRange req.block_size
    → apply_option opt val req ≡ ok req'
    → InRange req'.block_size
unfolding apply_option
apply_option-InRange opt val req h e = ground arith

parse_options-InRange :
    (f : ℕ) (b : Bytes) (req : Rrq) {req' : Rrq}
    → InRange req.block_size
    → parse_options f b req ≡ ok req'
    → InRange req'.block_size
unfolding parse_options
parse_options-InRange zero b req h e = cc
parse_options-InRange (suc f) [] req h e = ground arith
parse_options-InRange (suc f) (c ∷ b) req h e = after_some (nul_str (c ∷ b)) _ _ e λ p _ h₁.
    after_some (nul_str p.1) _ _ h₁ λ q _ h₂. after_some (atoi q.0) _ _ h₂ λ val _ h₃.
      after_ok (apply_option p.0 val req) _ h₃
        λ mid e₄ h₄. parse_options-InRange f q.1 mid (apply_option-InRange p.0 val req h e₄) h₄

-- An accepted request has block size 0, for no blksize option, or one from 8 to 1450.
pub parse_rrq-InRange : (b : Bytes) {req : Rrq} → parse_rrq b ≡ ok req → InRange req.block_size
parse_rrq-InRange b e =
    let p = parse_rrq-Parsed b e in parse_options-InRange _ p.behind_mode _ (inl refl) p.options
