-- ===== src/Dhcp/Options/Walk.antt =====
-- dhcp/dhcp.go: what the loop over options reads.
use pixiecore.Prelude.{
  ℕ, zero, suc, ◌<◌, List, [], ◌∷◌, ◌++◌, ◌≡◌, ◌≢◌, ◌⊎◌, inl, inr, refl, ap, arith, Bytes,
  Bool-cases, length, length-append, take-append, drop-append, append_cases, ltb, not-ltb→le,
  le→not-ltb, ltb→lt, ◌==◌, ==_iff, ne→not-==,
}
use pixiecore.Dhcp.Options.{no_option, dhcp_option}

-- Where the options end: behind at most one byte, at the END option, or where the length of an
-- option points behind the packet.
abbrev pub Stops : Bytes → Type 0
Stops [] = Unit
Stops (t ∷ []) = Unit
Stops (t ∷ l ∷ b) = (t ≡ 255) ⊎ (length b < l)

-- `b` holds these options, each a type, a length and a value, up to where they end.
pub data IsOptions : List (ℕ × Bytes) → Bytes → Type 0 where
  stop : {b : Bytes} → Stops b → IsOptions [] b
  option :
      {b v : Bytes} {t : ℕ} {os : List (ℕ × Bytes)} (rest : Bytes)
      → b ≡ t ∷ length v ∷ (v ++ rest)
      → t ≢ 255
      → IsOptions os rest
      → IsOptions ((t, v) ∷ os) b

pub dhcp_option-stop : (b : Bytes) → Stops b → dhcp_option b ≡ no_option
unfolding dhcp_option
dhcp_option-stop [] h = refl
dhcp_option-stop (t ∷ []) h = refl
dhcp_option-stop (t ∷ l ∷ b) h = ground arith

pub dhcp_option-append :
    (t : ℕ) (v rest : Bytes)
    → t ≢ 255
    → dhcp_option (t ∷ length v ∷ (v ++ rest)) ≡ record { typ = t; val = v; next = rest }
unfolding dhcp_option
dhcp_option-append t v rest h = rw (
  ne→not-== t 255 h,
  le→not-ltb (length (v ++ rest)) (length v) (omega (arith, length-append {0} v rest)),
  take-append v rest,
  drop-append v rest,
)

-- Every byte string holds options, and in one way only: those that `DhcpOption` reads.
first_option :
    (b : Bytes)
    → Stops b
      ⊎ ((t : ℕ) × (v : Bytes) × (rest : Bytes) × (b ≡ t ∷ length v ∷ (v ++ rest)) × (t ≢ 255))
first_option [] = inl tt
first_option (t ∷ []) = inl tt
first_option (t ∷ l ∷ b) = elim (Bool-cases (t == 255)) [
  | inl e ↦ inl (inl ((==_iff t 255).0 e))
  | inr ne ↦ elim (Bool-cases (ltb (length b) l)) [
    | inl lt ↦ inl (inr (ltb→lt (length b) l lt))
    | inr fits ↦
        let (v, rest, e, n) = append_cases l b (not-ltb→le _ _ fits) in
        inr (t, v, rest, rw (n, ← e), λ is. ground arith)
  ]
]

below-IsOptions : (f : ℕ) (b : Bytes) → length b < f → (os : List (ℕ × Bytes)) × IsOptions os b
below-IsOptions zero b h = absurd (omega arith)
below-IsOptions (suc f) b h = elim (first_option b) [
  | inl s ↦ ([], stop s)
  | inr (t, v, rest, e, ne) ↦
      let (os, o) = below-IsOptions f rest (omega (arith, ap length e, length-append {0} v rest)) in
      ((t, v) ∷ os, option rest e ne o)
]

pub bytes-IsOptions : (b : Bytes) → (os : List (ℕ × Bytes)) × IsOptions os b
bytes-IsOptions b = below-IsOptions (suc (length b)) b (omega arith)
