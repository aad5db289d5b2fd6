-- ===== src/Dhcp/Options/Checks.antt =====
-- dhcp/dhcp.go: the loop over options is the checks of the options in order.
use pixiecore.Prelude.{
  ℕ, zero, suc, ◌<◌, List, [], ◌∷◌, ◌≡◌, ◌≢◌, refl, ap, arith, Bytes, length, length-append,
  ne→not-==, Result, ok, err, fault, ◌>>=◌, >>=-ne-fault, after_ok, ok-injective, ◌↔◌,
}
use pixiecore.Dhcp.Options.Walk.{IsOptions, stop, option, dhcp_option-stop, dhcp_option-append}
use pixiecore.Dhcp.Options.{dhcp_option, walk}

module _ {E S : Type 0} (check : ℕ → Bytes → S → Result E S) where
  -- The checks of a list of options, in order, with no loop over bytes.
  abbrev pub check_all : List (ℕ × Bytes) → S → Result E S
  check_all [] s = ok s
  check_all ((t, v) ∷ os) s = check t v s >>= λ s'. check_all os s'

  -- The loop makes the checks of the options in the packet, and the packet's length is fuel enough.
  pub walk-check_all :
      (f : ℕ) {os : List (ℕ × Bytes)} {b : Bytes} (s : S)
      → IsOptions os b
      → length b < f
      → walk check f (dhcp_option b) s ≡ check_all os s
  unfolding walk
  walk-check_all zero s o h = absurd (omega arith)
  walk-check_all (suc f) {b = b} s (stop h) fuel = rw (dhcp_option-stop b h)
  walk-check_all (suc f) s (option {v = v} {t = t} {os = os} rest e ne o) fuel =
      let shorter : length rest < f = omega (arith, ap length e, length-append {0} v rest) in
      rw (e, dhcp_option-append t v rest ne)
        (rw (ne→not-== t 255 ne, walk)
          (bind_same (check t v s) (λ s'. walk-check_all f s' o shorter)))
    where
      bind_same :
          (m : Result E S) {g h : S → Result E S} → ((s' : S) → g s' ≡ h s') → (m >>= g) ≡ (m >>= h)
      bind_same (ok a) p = p a
      bind_same (err x) p = refl
      bind_same fault p = refl

  pub check_all-ne-fault :
      ((t : ℕ) (v : Bytes) (s : S) → check t v s ≢ fault)
      → (os : List (ℕ × Bytes)) (s : S) → check_all os s ≢ fault
  check_all-ne-fault safe [] s = λ e. cc
  check_all-ne-fault safe ((t, v) ∷ os) s =
      >>=-ne-fault (check t v s) _ (safe t v s) (λ s' _. check_all-ne-fault safe os s')

-- The options pass one after the other, each by `Passes` from a state to the next.
module _ {S : Type 0} (Passes : ℕ → Bytes → S → S → Type 0) where
  abbrev pub Folds : List (ℕ × Bytes) → S → S → Type 0
  Folds [] s s' = s ≡ s'
  Folds ((t, v) ∷ os) s s' = (mid : S) × Passes t v s mid × Folds os mid s'

module _ {E S : Type 0} (check : ℕ → Bytes → S → Result E S) (Passes : ℕ → Bytes → S → S → Type 0)
    (passes : (t : ℕ) (v : Bytes) (s s' : S) → (check t v s ≡ ok s') ↔ Passes t v s s') where
  pub check_all-Folds :
      (os : List (ℕ × Bytes)) (s s' : S) → check_all check os s ≡ ok s' → Folds Passes os s s'
  check_all-Folds [] s s' e = ok-injective e
  check_all-Folds ((t, v) ∷ os) s s' e =
      after_ok (check t v s) _ e
        λ mid e₁ e₂. (mid, (passes t v s mid).0 e₁, check_all-Folds os mid s' e₂)

  pub Folds-check_all :
      (os : List (ℕ × Bytes)) (s s' : S) → Folds Passes os s s' → check_all check os s ≡ ok s'
  Folds-check_all [] s s' e = ap ok e
  Folds-check_all ((t, v) ∷ os) s s' (mid, p, f) =
      rw ((passes t v s mid).1 p) (Folds-check_all os mid s' f)
