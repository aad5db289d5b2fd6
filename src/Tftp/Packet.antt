-- ===== src/Tftp/Packet.antt =====
-- tftp/tftp.go: `nullStr` and `mkError`, the pieces of a TFTP packet.
use mathlib.Core.Option
use pixiecore.Prelude.{
  ℕ, suc, ◌+◌, ◌<◌, length-append, [], ◌∷◌, ◌++◌, Option, none, some, Option-cases, ◌≡◌, ◌≢◌, refl,
  ap, ◌∙◌, arith, Bytes, Lacks, length, take, drop, replicate_add, copy, copy_behind, store, zeros,
  ◌==◌, if◌then◌else◌, ne→not-==, ==_iff, Bool-cases, inl, inr,
}

-- `bytes.IndexByte`, with `none` for -1
pub index_byte : Bytes → ℕ → Option ℕ
index_byte [] v = none
index_byte (c ∷ b) v = if c == v then some 0 else Option.map suc (index_byte b v)

-- The string before the first NUL and what is behind it; `none` where the source's `ok` is false,
-- beside an empty string and no bytes.
unfoldable pub nul_str : Bytes → Option (Bytes × Bytes)
unfolding index_byte
nul_str b = Option.map (λ off. (take off b, drop (suc off) b)) (index_byte b 0)

-- the string alone, which is empty where there is none
unfoldable pub str_of : Option (Bytes × Bytes) → Bytes
str_of none = []
str_of (some (s, r)) = s

-- an ERROR packet: opcode 5, error code 0, the message and its NUL
unfoldable pub mk_error : Bytes → Bytes
unfolding copy
mk_error s = copy (store (zeros (5 + length s)) 1 5) 4 s

nul_str-cons :
    (c : ℕ) (b : Bytes)
    → c ≢ 0
    → nul_str (c ∷ b)
      ≡ Option.map {B = Bytes × Bytes} (λ (p : Bytes × Bytes). (c ∷ p.0, p.1)) (nul_str b)
unfolding nul_str
nul_str-cons c b h = elim (Option-cases (index_byte b 0)) [
  | inl e ↦ rw (ne→not-== c 0 h, e)
  | inr (off, e) ↦ rw (ne→not-== c 0 h, e)
]

-- A terminated string is read back whole, with what follows it.
pub nul_str-append : (s rest : Bytes) → Lacks 0 s → nul_str (s ++ (0 ∷ rest)) ≡ some (s, rest)
nul_str-append [] rest h = unfold nul_str in refl
nul_str-append (c ∷ s) rest (hc, hs) =
    rw (nul_str-cons c (s ++ (0 ∷ rest)) hc, nul_str-append s rest hs)

nul_str-tail :
    (c : ℕ) (b : Bytes) {s rest : Bytes} (r : Option (Bytes × Bytes))
    → ((s' rest' : Bytes) → r ≡ some (s', rest') → (b ≡ s' ++ (0 ∷ rest')) × Lacks 0 s')
    → c ≢ 0
    → Option.map {B = Bytes × Bytes} (λ (p : Bytes × Bytes). (c ∷ p.0, p.1)) r ≡ some (s, rest)
    → (c ∷ b ≡ s ++ (0 ∷ rest)) × Lacks 0 s
nul_str-tail c b none ih hc h = cc
nul_str-tail c b {s} {rest} (some (s', rest')) ih hc h =
    let (e, l) = ih s' rest' refl in
    let es : c ∷ s' ≡ s = cc in
    let er : rest' ≡ rest = cc in rw (← es, ← er) (ap (◌∷◌ c) e, (hc, l))

-- What it reads is a NUL-free string in front of a NUL, and the rest.
pub nul_str_sound :
    (b : Bytes) {s rest : Bytes} → nul_str b ≡ some (s, rest) → (b ≡ s ++ (0 ∷ rest)) × Lacks 0 s
nul_str_sound [] h = unfold nul_str in cc
nul_str_sound (c ∷ b) {s} {rest} h = elim (Bool-cases (c == 0)) [
  | inl z ↦
      let c0 : c ≡ 0 = (==_iff c 0).0 z in
      let g : nul_str (0 ∷ b) ≡ some (s, rest) = rw c0 at h in
      let es : [] ≡ s = unfold nul_str in cc in
      let er : b ≡ rest = unfold nul_str in cc in rw (c0, ← es, ← er) (refl, tt)
  | inr nz ↦
      let hc : c ≢ 0 = ground arith in
      nul_str-tail c b (nul_str b) (λ s' rest' e. nul_str_sound b {s = s'} {rest = rest'} e) hc
        (rw (nul_str-cons c b hc) at h)
]

-- Reading a string makes the input shorter.
pub nul_str-lt : (b : Bytes) {s rest : Bytes} → nul_str b ≡ some (s, rest) → length rest < length b
nul_str-lt b {s} {rest} h =
    let (e, l) = nul_str_sound b {s = s} {rest = rest} h in
    omega (arith, ap length e, length-append {0} s (0 ∷ rest))

copy-zeros : (s : Bytes) → copy (zeros (suc (length s))) 0 s ≡ s ++ (0 ∷ [])
unfolding copy
copy-zeros [] = refl
copy-zeros (c ∷ s) = ap (◌∷◌ c) (copy-zeros s)

-- The layout of an ERROR packet.
pub mk_error_lem : (s : Bytes) → mk_error s ≡ 0 ∷ 5 ∷ 0 ∷ 0 ∷ (s ++ (0 ∷ []))
unfolding mk_error
mk_error_lem s = rw (replicate_add {A = ℕ} 5 (length s) 0) (
    copy_behind (0 ∷ 5 ∷ 0 ∷ 0 ∷ []) (zeros (suc (length s))) s
    ∙ ap (λ (t : Bytes). 0 ∷ 5 ∷ 0 ∷ 0 ∷ t) (copy-zeros s))
