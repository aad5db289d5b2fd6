-- ===== src/Strconv/RoundTrip.antt =====
-- `Atoi` reads back what `Itoa` writes.
use mathlib.Core.List.{cons-ne-nil}
use native.Mathlib.Numerals.{unary_clauses}
use pixiecore.Prelude.{
  length, ℕ, zero, suc, ◌+◌, ◌*◌, ◌∙◌, ◌/◌, ◌%◌, ◌^◌, ◌≤◌, ◌<◌, [], ◌∷◌, ◌≢◌, some, ◌≡◌, refl,
  arith, Bytes, All, pos, lt→ltb, inl, inr, ne→not-==, Bool-cases, ◌==◌, ==_iff, false,
}
use pixiecore.Strconv.{scan_digits, magnitude, signed, signed_of, atoi, digits_onto, itoa}

abbrev pub IsDigit : ℕ → Type 0
IsDigit c = (b'0' ≤ c) × (c ≤ b'9')

scan_last : (n : ℕ) (out : Bytes) → scan_digits ((b'0' + n % 10) ∷ out) (n / 10) ≡ scan_digits out n
unfolding scan_digits
scan_last n out = ground arith

pow_step : (k : ℕ) → 10 ^ suc k ≡ 10 ^ k * 10
pow_step k = simp unary_clauses

-- Enough steps write every digit.
scan-digits_onto :
    (k n : ℕ) (out : Bytes) → n < 10 ^ k → scan_digits (digits_onto k n out) 0 ≡ scan_digits out n
unfolding digits_onto
scan-digits_onto zero n out h = let z : n ≡ 0 = omega arith in rw z
scan-digits_onto (suc k) n out h = elim (Bool-cases (n == 0)) [
  | inl e ↦ rw (e, (==_iff n 0).0 e)
  | inr e ↦ rw e (
      scan-digits_onto k (n / 10) ((b'0' + n % 10) ∷ out) (omega (arith, pow_step k))
      ∙ scan_last n out)
]

digits_onto-IsDigit : (k n : ℕ) (out : Bytes) → All IsDigit out → All IsDigit (digits_onto k n out)
unfolding digits_onto
digits_onto-IsDigit zero n out h = h
digits_onto-IsDigit (suc k) n out h = elim (Bool-cases (n == 0)) [
  | inl e ↦ rw e h
  | inr e ↦
      rw e (digits_onto-IsDigit k (n / 10) ((b'0' + n % 10) ∷ out) ((omega arith, omega arith), h))
]

digits_onto-ne-nil : (k n : ℕ) (out : Bytes) → out ≢ [] → digits_onto k n out ≢ []
unfolding digits_onto
digits_onto-ne-nil zero n out h = h
digits_onto-ne-nil (suc k) n out h = elim (Bool-cases (n == 0)) [
  | inl e ↦ rw e h
  | inr e ↦ rw e (digits_onto-ne-nil k (n / 10) _ (cons-ne-nil (b'0' + n % 10) out))
]

pub itoa-ne-nil : (n : ℕ) → itoa n ≢ []
unfolding itoa
itoa-ne-nil n = elim (Bool-cases (n == 0)) [
  | inl e ↦ rw e (cons-ne-nil b'0' [])
  | inr e ↦ rw e (λ nil.
      digits_onto-ne-nil 18 (n / 10) _ (cons-ne-nil (b'0' + n % 10) [])
        (unfold digits_onto in rw e at nil))
]

magnitude-scan : (s : Bytes) → s ≢ [] → magnitude s ≡ scan_digits s 0
unfolding magnitude
magnitude-scan [] h = absurd (h refl)
magnitude-scan (c ∷ s) _ = refl

pub magnitude-itoa : (n : ℕ) → n < 10 ^ 19 → magnitude (itoa n) ≡ some n
unfolding scan_digits
magnitude-itoa n h = elim (Bool-cases (n == 0)) [
  | inl e ↦ rw ((==_iff n 0).0 e) (unfold itoa digits_onto magnitude scan_digits in refl)
  | inr e ↦ rw (magnitude-scan _ (itoa-ne-nil n)) (unfold itoa in rw e (scan-digits_onto 19 n [] h))
]

pub itoa-IsDigit : (n : ℕ) → All IsDigit (itoa n)
unfolding itoa
itoa-IsDigit n = elim (Bool-cases (n == 0)) [
  | inl e ↦ rw e (omega arith)
  | inr e ↦ rw e (digits_onto-IsDigit 19 n [] tt)
]

-- A number without a sign is read as its magnitude, if an int can hold it.
pub atoi-magnitude : (s : Bytes) → s ≢ [] → All IsDigit s → atoi s ≡ signed_of false (magnitude s)
unfolding atoi
atoi-magnitude [] h d = absurd (h refl)
atoi-magnitude (c ∷ s) h (d, _) =
    rw (ne→not-== c b'+' (omega arith), ne→not-== c b'-' (omega arith))

pub atoi-itoa : (n : ℕ) → n < 2 ^ 63 → atoi (itoa n) ≡ some (pos n)
unfolding signed
atoi-itoa n h = rw (
  atoi-magnitude _ (itoa-ne-nil n) (itoa-IsDigit n),
  magnitude-itoa n (omega arith),
  lt→ltb n (2 ^ 63) h,
)

length-digits_onto : (k n : ℕ) (out : Bytes) → length (digits_onto k n out) ≤ k + length out
unfolding digits_onto
length-digits_onto zero n out = omega arith
length-digits_onto (suc k) n out = elim (Bool-cases (n == 0)) [
  | inl e ↦ rw e (omega arith)
  | inr e ↦ rw e (omega (arith, length-digits_onto k (n / 10) ((b'0' + n % 10) ∷ out)))
]

pub length-itoa : (n : ℕ) → length (itoa n) ≤ 19
unfolding itoa
length-itoa n = elim (Bool-cases (n == 0)) [
  | inl e ↦ rw e (omega arith)
  | inr e ↦ rw e (length-digits_onto 19 n [])
]
