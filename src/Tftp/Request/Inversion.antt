-- ===== src/Tftp/Request/Inversion.antt =====
-- tftp/tftp.go: the steps of a run of `parseRRQ` that ends well.
use pixiecore.Prelude.{
  suc, ◌≤◌, not, not-false, some, ◌≡◌, ap, ◌∙◌, sym, arith, Bytes, codes, length, drop, ltb,
  le→not-ltb, not-ltb→le, ◌==◌, ==_iff, equal, equal_iff, slice, slice-tail, uint16, ok, after_some,
  after_ok, after_reject, ok-injective,
}
use pixiecore.Tftp.Packet.{nul_str}
use pixiecore.Tftp.Request.{Rrq, RrqError, parse_options, parse_rrq}

pub record Parsed (b : Bytes) (req : Rrq) : Type 0 where
  pub name : Bytes
  pub behind_name : Bytes
  pub behind_mode : Bytes
  pub long : 6 ≤ length b
  pub opcode : uint16 {E = RrqError} b 0 ≡ ok 1
  pub name_read : nul_str (drop 2 b) ≡ some (name, behind_name)
  pub mode_read : nul_str behind_name ≡ some (codes "octet", behind_mode)
  pub options :
      parse_options
        (suc (length behind_mode))
        behind_mode
        (record { filename = name; block_size = 0 })
      ≡ ok req

pub parse_rrq-Parsed : (b : Bytes) {req : Rrq} → parse_rrq b ≡ ok req → Parsed b req
unfolding parse_rrq
parse_rrq-Parsed b {req} e = after_reject (ltb (length b) 6) _ _ e λ short h₁.
    after_ok (uint16 b 0) _ h₁ λ op u h₂. after_reject (not (op == 1)) _ _ h₂ λ is_rrq h₃.
      after_ok (slice b 2 (length b)) _ h₃ λ b₀ s h₄. after_some (nul_str b₀) _ _ h₄ λ p n₁ h₅.
        after_some (nul_str p.1) _ _ h₅ λ q n₂ h₆.
          after_reject (not (equal q.0 (codes "octet"))) _ _ h₆ λ octet h₇.
            let long : 6 ≤ length b = not-ltb→le _ _ short in
            let op1 : op ≡ 1 = (==_iff op 1).0 (not-false _ is_rrq) in
            let mode : q.0 ≡ codes "octet" =
              (equal_iff q.0 (codes "octet")).0 (not-false _ octet) in
            let tail : b₀ ≡ drop 2 b =
              ok-injective (sym s ∙ slice-tail {E = RrqError} b 2 (omega arith)) in
            record {
              name = p.0;
              behind_name = p.1;
              behind_mode = q.1;
              long = long;
              opcode = u ∙ ap ok op1;
              name_read = rw tail at n₁;
              mode_read = n₂ ∙ ap (λ (m : Bytes). some (m, q.1)) mode;
              options = h₇;
            }

-- Such steps make up a run that ends well.
pub Parsed-parse_rrq : (b : Bytes) {req : Rrq} → Parsed b req → parse_rrq b ≡ ok req
unfolding parse_rrq
Parsed-parse_rrq b {req} p =
    rw
      (
        le→not-ltb _ _ p.long,
        p.opcode,
        slice-tail {E = RrqError} b 2 (omega (arith, p.long)),
        p.name_read,
        p.mode_read,
      )
      p.options
