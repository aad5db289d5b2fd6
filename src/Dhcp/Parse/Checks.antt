-- ===== src/Dhcp/Parse/Checks.antt =====
-- dhcp/dhcp.go: what the `switch typ` of `ParseDHCP` lets pass.
use pixiecore.Dhcp.Parse.{parse_guid, check_option}
use pixiecore.Prelude.{
  ℕ, not, [], ◌∷◌, Option, some, ◌≡◌, ◌≢◌, ◌↔◌, ◌⊎◌, inl, inr, refl, sym, ap, ◌∙◌, arith, Bytes,
  Bool-cases, length, take-all, ◌==◌, ==_iff, ne→not-==, slice, index, uint16, ok, ok-injective,
  after_ok, after_reject, not-false, slice-tail,
}

-- The UUID `g` behind a zero byte, 17 bytes in all.
abbrev pub IsGuid : Bytes → Option Bytes → Type 0
IsGuid v g' = (u : Bytes) × (v ≡ 0 ∷ u) × (length u ≡ 16) × (g' ≡ some u)

parse_guid-cons :
    {E : Type 0} (e : E) (z : ℕ) (u : Bytes) {g' : Option Bytes}
    → parse_guid e (z ∷ u) ≡ ok g'
    → IsGuid (z ∷ u) g'
unfolding parse_guid
parse_guid-cons {E} e z u h = after_reject (not (length (z ∷ u) == 17)) _ _ h λ size h₁.
    after_ok (index (z ∷ u) 0) _ h₁ λ first e₁ h₂.
      after_reject (not (first == 0)) _ _ h₂ λ zero_first h₃.
        after_ok (slice (z ∷ u) 1 (length (z ∷ u))) _ h₃ λ g e₂ h₄.
          let is17 : length (z ∷ u) ≡ 17 = (==_iff (length (z ∷ u)) 17).0 (not-false _ size) in
          let same : z ≡ first = ok-injective {E = E} (unfold index in e₁) in
          let g_is : u ≡ g = ok-injective (sym (slice-tail {E = E} (z ∷ u) 1 (omega arith)) ∙ e₂) in
          (
            u,
            ap (λ (x : ℕ). x ∷ u) (same ∙ (==_iff first 0).0 (not-false _ zero_first)),
            omega arith,
            sym (ok-injective h₄) ∙ ap (λ (x : Bytes). some x) (sym g_is),
          )

pub parse_guid_iff :
    {E : Type 0} (e : E) (v : Bytes) (g' : Option Bytes) → (parse_guid e v ≡ ok g') ↔ IsGuid v g'
parse_guid_iff e v g' = (forth v, back)
  where
    forth : (w : Bytes) → parse_guid e w ≡ ok g' → IsGuid w g'
    forth [] h = unfold parse_guid in cc
    forth (z ∷ u) h = parse_guid-cons e z u h

    back : IsGuid v g' → parse_guid e v ≡ ok g'
    back (u, v_is, n, g_is) =
        unfold parse_guid index slice in rw (v_is, g_is, n) (rw (take-all 16 u (omega arith)))

-- An option of type `t` and value `v` passes, and leaves the UUID read so far as it was or, for a
-- UUID option, sets it.
abbrev pub Passes : ℕ → Bytes → Option Bytes → Option Bytes → Type 0
Passes t v g g' =
    ((t ≡ 53) × (v ≡ 1 ∷ []) × (g ≡ g'))
    ⊎ ((t ≡ 93) × (v ≡ 0 ∷ 0 ∷ []) × (g ≡ g'))
    ⊎ ((t ≡ 97) × IsGuid v g')
    ⊎ ((t ≢ 53) × (t ≢ 93) × (t ≢ 97) × (g ≡ g'))

module _ (mac : Bytes) (g : Option Bytes) where
  check_53 :
      (v : Bytes) {g' : Option Bytes} → check_option mac 53 v g ≡ ok g' → (v ≡ 1 ∷ []) × (g ≡ g')
  unfolding check_option index
  check_53 [] h = cc
  check_53 (x ∷ []) h = ground arith
  check_53 (x ∷ y ∷ v) h = ground arith

  check_93 :
      (v : Bytes) {g' : Option Bytes}
      → check_option mac 93 v g ≡ ok g'
      → (v ≡ 0 ∷ 0 ∷ []) × (g ≡ g')
  unfolding check_option index uint16
  check_93 [] h = cc
  check_93 (x ∷ []) h = cc
  check_93 (x ∷ y ∷ []) h = ground arith
  check_93 (x ∷ y ∷ z ∷ v) h = ground arith

  check_97 : (v : Bytes) {g' : Option Bytes} → check_option mac 97 v g ≡ ok g' → IsGuid v g'
  unfolding check_option
  check_97 v {g'} h = (parse_guid_iff _ v g').0 h

  check_other : (t : ℕ) (v : Bytes) → t ≢ 53 → t ≢ 93 → t ≢ 97 → check_option mac t v g ≡ ok g
  unfolding check_option
  check_other t v a b c = rw (ne→not-== t 53 a, ne→not-== t 93 b, ne→not-== t 97 c)

  Passes-check :
      (t : ℕ) (v : Bytes) (g' : Option Bytes) → Passes t v g g' → check_option mac t v g ≡ ok g'
  Passes-check t v g' (inl (et, ev, eg)) = rw (et, ev, eg) (unfold check_option index in refl)
  Passes-check t v g' (inr (inl (et, ev, eg))) =
      rw (et, ev, eg) (unfold check_option uint16 in refl)
  Passes-check t v g' (inr (inr (inl (et, u)))) =
      rw et (unfold check_option in (parse_guid_iff _ v g').1 u)
  Passes-check t v g' (inr (inr (inr (a, b, c, eg)))) = check_other t v a b c ∙ ap ok eg

  check-Passes :
      (t : ℕ) (v : Bytes) (g' : Option Bytes) → check_option mac t v g ≡ ok g' → Passes t v g g'
  check-Passes t v g' h = elim (Bool-cases (t == 53)) [
    | inl e ↦
        let et = (==_iff t 53).0 e in let (ev, eg) = check_53 v (rw et at h) in inl (et, ev, eg)
    | inr ne ↦ elim (Bool-cases (t == 93)) [
      | inl e ↦
          let et = (==_iff t 93).0 e in
          let (ev, eg) = check_93 v (rw et at h) in inr (inl (et, ev, eg))
      | inr ne' ↦ elim (Bool-cases (t == 97)) [
        | inl e ↦ let et = (==_iff t 97).0 e in inr (inr (inl (et, check_97 v (rw et at h))))
        | inr ne'' ↦
            let a : t ≢ 53 = ground arith in
            let b : t ≢ 93 = ground arith in
            let c : t ≢ 97 = ground arith in
            inr (inr (inr (a, b, c, ok-injective (sym (check_other t v a b c) ∙ h))))
      ]
    ]
  ]

pub check_option_iff :
    (mac : Bytes) (t : ℕ) (v : Bytes) (g g' : Option Bytes)
    → (check_option mac t v g ≡ ok g') ↔ Passes t v g g'
check_option_iff mac t v g g' = (check-Passes mac g t v g', Passes-check mac g t v g')
