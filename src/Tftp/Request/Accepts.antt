-- ===== src/Tftp/Request/Accepts.antt =====
-- tftp/tftp.go: the packets that `parseRRQ` accepts, described without the parser.
use pixiecore.Prelude.{
  ℕ, zero, suc, min, ◌+◌, ◌*◌, ◌≤◌, ◌<◌, [], ◌∷◌, ◌++◌, some, ◌≡◌, ◌≢◌, ◌↔◌, ◌⊎◌, inl, inr, refl,
  sym, ap, ◌∙◌, arith, Bytes, codes, Lacks, Bool-cases, length, length-append, drop, equal,
  equal_iff, not-equal→ne, ne→not-equal, ok-injective, ℤ, pos, negsuc, ok, after_some, after_ok,
  uint16,
}
use pixiecore.Strconv.{atoi}
use pixiecore.Tftp.Packet.{nul_str, nul_str-append, nul_str_sound}
use pixiecore.Tftp.Request.Inversion.{Parsed, parse_rrq-Parsed, Parsed-parse_rrq}
use pixiecore.Tftp.Request.{Rrq, RrqError, apply_option, parse_options, parse_rrq}

abbrev pub blksize : Bytes
blksize = codes "blksize"

-- What one option makes of the block size `n`: blksize wants a value from 8 to 65464 and sets it,
-- 1450 at most; any other option leaves it.
abbrev pub Sets : Bytes → ℤ → ℕ → ℕ → Type 0
Sets opt v n n' =
    ((opt ≡ blksize) × (x : ℕ) × (v ≡ pos x) × (8 ≤ x) × (x ≤ 65464) × (n' ≡ min x 1450))
    ⊎ ((opt ≢ blksize) × (n' ≡ n))

-- `b` is a list of options, each a name and an integer, that takes the block size from `n` to `m`.
pub data Options (m : ℕ) : ℕ → Bytes → Type 0 where
  done : {n : ℕ} → n ≡ m → Options m n []
  option :
      {n n' : ℕ} {b : Bytes} (opt val rest : Bytes) (v : ℤ)
      → b ≡ opt ++ (0 ∷ (val ++ (0 ∷ rest)))
      → Lacks 0 opt
      → Lacks 0 val
      → atoi val ≡ some v
      → Sets opt v n n'
      → Options m n' rest
      → Options m n b

-- An octet-mode read request for the file `req.filename`, with these options.
pub record IsRequest (b : Bytes) (req : Rrq) : Type 0 where
  pub tail : Bytes
  pub layout : b ≡ 0 ∷ 1 ∷ (req.filename ++ (0 ∷ (codes "octet" ++ (0 ∷ tail))))
  pub name_lacks : Lacks 0 req.filename
  pub negotiates : Options req.block_size 0 tail

blksize-Sets :
    (v : ℤ) (req : Rrq) {req' : Rrq}
    → apply_option blksize v req ≡ ok req'
    → (x : ℕ) × (v ≡ pos x)
      × (8 ≤ x)
      × (x ≤ 65464)
      × (req'.block_size ≡ min x 1450)
      × (req'.filename ≡ req.filename)
unfolding apply_option
blksize-Sets (pos x) req e = (x, refl, ground arith, ground arith, ground arith, ground arith)
blksize-Sets (negsuc x) req e = absurd (ground arith)

apply_option-Sets :
    (opt : Bytes) (v : ℤ) (req : Rrq) {req' : Rrq}
    → apply_option opt v req ≡ ok req'
    → (req'.filename ≡ req.filename) × Sets opt v req.block_size req'.block_size
apply_option-Sets opt v req {req'} e = elim (Bool-cases (equal opt blksize)) [
  | inl same ↦
      let o : opt ≡ blksize = (equal_iff opt blksize).0 same in
      let (x, vx, lo, hi, size, name) = blksize-Sets v req {req' = req'} (rw o at e) in
      (name, inl (o, x, vx, lo, hi, size))
  | inr other ↦
      let same : req ≡ req' = ok-injective {E = RrqError} (unfold apply_option in rw other at e) in
      (
        ap (λ (r : Rrq). r.filename) (sym same),
        inr (not-equal→ne opt blksize other, ap (λ (r : Rrq). r.block_size) (sym same)),
      )
]

Sets-apply_option :
    (opt : Bytes) (v : ℤ) (name : Bytes) {n n' : ℕ}
    → Sets opt v n n'
    → apply_option opt v (record { filename = name; block_size = n })
      ≡ ok (record { filename = name; block_size = n' })
unfolding apply_option
Sets-apply_option opt v name (inl (same, x, vx, lo, hi, e)) = rw (same, vx, e) (ground arith)
Sets-apply_option opt v name (inr (other, e)) = rw (ne→not-equal opt blksize other, e)

-- The loop accepts lists of options only, and keeps the file name.
parse_options-Options :
    (f : ℕ) (b : Bytes) (req : Rrq) {req' : Rrq}
    → parse_options f b req ≡ ok req'
    → (req'.filename ≡ req.filename) × Options req'.block_size req.block_size b
unfolding parse_options
parse_options-Options zero b req e = cc
parse_options-Options (suc f) [] req e =
    let same = ok-injective e in
    (ap (λ (r : Rrq). r.filename) (sym same), done (ap (λ (r : Rrq). r.block_size) same))
parse_options-Options (suc f) (c ∷ b) req e = after_some (nul_str (c ∷ b)) _ _ e λ p e₁ h₁.
    after_some (nul_str p.1) _ _ h₁ λ q e₂ h₂. after_some (atoi q.0) _ _ h₂ λ val e₃ h₃.
      after_ok (apply_option p.0 val req) _ h₃ λ mid e₄ h₄.
        let (b_is, opt_lacks) = nul_str_sound (c ∷ b) e₁ in
        let (rest_is, val_lacks) = nul_str_sound p.1 e₂ in
        let (name, sets) = apply_option-Sets p.0 val req e₄ in
        let (name', more) = parse_options-Options f q.1 mid h₄ in
        (
          name' ∙ name,
          option p.0 q.0 q.1 val (b_is ∙ ap (λ (t : Bytes). p.0 ++ (0 ∷ t)) rest_is) opt_lacks
              val_lacks e₃ sets more,
        )

-- Every list of options is accepted, by as much fuel as it is long.
Options-parse_options :
    (f : ℕ) {m n : ℕ} {b : Bytes} (name : Bytes)
    → Options m n b
    → length b < f
    → parse_options f b (record { filename = name; block_size = n })
      ≡ ok (record { filename = name; block_size = m })
unfolding parse_options
Options-parse_options zero name o h = absurd (omega arith)
Options-parse_options (suc f) name (done e) h = rw e
Options-parse_options (suc f) {b = []} name (option opt val rest v e ho hv hn s o) h =
    absurd (omega (arith, ap length e, length-append {0} opt (0 ∷ (val ++ (0 ∷ rest)))))
Options-parse_options (suc f) {b = c ∷ b} name (option opt val rest v e ho hv hn s o) h =
    let first = rw (← e) at (nul_str-append opt (val ++ (0 ∷ rest)) ho) in
    let fits : length rest < f = omega (
      arith,
      ap length e,
      length-append {0} opt (0 ∷ (val ++ (0 ∷ rest))),
      length-append {0} val (0 ∷ rest),
    ) in
    rw (first, nul_str-append val rest hv, hn, Sets-apply_option opt v name s)
      (Options-parse_options f name o fits)

drop-two : (b : Bytes) → uint16 {E = RrqError} b 0 ≡ ok 1 → 6 ≤ length b → b ≡ 0 ∷ 1 ∷ drop 2 b
drop-two [] u h = elim h [ ]
drop-two (x ∷ []) u h = absurd (omega arith)
drop-two (x ∷ y ∷ b) u h =
    let e : x * 256 + y ≡ 1 = ok-injective {E = RrqError} (unfold uint16 in u) in
    let x0 : x ≡ 0 = omega arith in let y1 : y ≡ 1 = omega arith in rw (x0, y1)

Parsed-IsRequest : (b : Bytes) {req : Rrq} → Parsed b req → IsRequest b req
Parsed-IsRequest b {req} p =
    let (name_is, name_lacks) = nul_str_sound (drop 2 b) p.name_read in
    let (mode_is, _) = nul_str_sound p.behind_name p.mode_read in
    let (name, o) = parse_options-Options _ p.behind_mode _ p.options in
    record {
      tail = p.behind_mode;
      layout = drop-two b p.opcode p.long ∙ rw (name, ← mode_is, ← name_is);
      name_lacks = rw name name_lacks;
      negotiates = o;
    }

IsRequest-Parsed : (b : Bytes) {req : Rrq} → IsRequest b req → Parsed b req
IsRequest-Parsed b {req} r =
    let behind = codes "octet" ++ (0 ∷ r.tail) in
    record {
      name = req.filename;
      behind_name = behind;
      behind_mode = r.tail;
      long = omega (arith, ap length r.layout, length-append {0} req.filename (0 ∷ behind));
      opcode = rw r.layout (unfold uint16 in refl);
      name_read = rw r.layout (nul_str-append req.filename behind r.name_lacks);
      mode_read = nul_str-append (codes "octet") r.tail (omega arith);
      options = Options-parse_options (suc (length r.tail)) req.filename r.negotiates (omega arith);
    }

-- `parseRRQ` accepts a datagram exactly when it is an octet-mode read request whose options are
-- names with integer values and whose blksize options lie from 8 to 65464, and then it returns the
-- request's file name and the value of the last blksize option, 1450 at most, or 0 for none.
pub parse_rrq_iff : (b : Bytes) (req : Rrq) → (parse_rrq b ≡ ok req) ↔ IsRequest b req
parse_rrq_iff b req =
    (λ e. Parsed-IsRequest b (parse_rrq-Parsed b e), λ r. Parsed-parse_rrq b (IsRequest-Parsed b r))
