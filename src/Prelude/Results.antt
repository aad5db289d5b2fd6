-- ===== src/Prelude/Results.antt =====
-- What a Go function with an error result returns. `fault` stands for a run-time panic, such as an
-- index out of range, and for a loop that runs out of its fuel.
use mathlib.Core.Path.{◌≡◌, refl}
use mathlib.Core.Logic.{◌≢◌}
use mathlib.Core.Option.{Option, none, some}
use mathlib.Core.Bool.{Bool, true, false}

pub data Result {ℓ κ} (E : Type ℓ) (A : Type κ) : Type (ℓ ⊔ κ) where
  ok : A → Result E A
  err : E → Result E A
  fault : Result E A

pub ok-injective : {E A : Type 0} {a b : A} → ◌≡◌ {A = Result E A} (ok a) (ok b) → a ≡ b
ok-injective h = cc

module _ {ℓ} {E : Type ℓ} where
  infixl 5 ◌>>=◌ ◌>>◌
  abbrev pub ◌>>=◌ {κ μ} : {A : Type κ} {B : Type μ} → Result E A → (A → Result E B) → Result E B
  fault >>= next = fault
  err e >>= next = err e
  ok a >>= next = next a

  abbrev pub ◌>>◌ {κ} : {B : Type κ} → Result E (Unit {0}) → Result E B → Result E B
  check >> rest = check >>= λ _. rest

  -- `if test { return nil, e }`
  abbrev pub reject_if : Bool → E → Result E (Unit {0})
  reject_if true e = err e
  reject_if false e = ok tt

  -- a result `(v, ok)` whose failure is the error `e`
  abbrev pub or_err {κ} : {A : Type κ} → Option A → E → Result E A
  or_err none e = err e
  or_err (some a) e = ok a

  -- a read out of range panics
  abbrev pub or_fault {κ} : {A : Type κ} → Option A → Result E A
  or_fault none = fault
  or_fault (some a) = ok a

  pub >>=-ne-fault {κ μ} :
      {A : Type κ} {B : Type μ} (m : Result E A) (f : A → Result E B)
      → m ≢ fault
      → ((a : A) → m ≡ ok a → f a ≢ fault)
      → (m >>= f) ≢ fault
  >>=-ne-fault (ok a) f hm hf = hf a refl
  >>=-ne-fault (err e) f hm hf = λ h. cc
  >>=-ne-fault fault f hm hf = λ h. hm refl

  pub or_err-ne-fault {κ} : {A : Type κ} (o : Option A) (e : E) → or_err o e ≢ fault
  or_err-ne-fault none e h = cc
  or_err-ne-fault (some a) e h = cc

-- The steps of a run that ends well, one at a time. What a step returned is handed on as a variable.
module _ {E : Type 0} {B : Type 0} {r : B} {P : Type 0} where
  pub after_ok :
      {A : Type 0} (m : Result E A) (f : A → Result E B)
      → (m >>= f) ≡ ok r
      → ((a : A) → m ≡ ok a → f a ≡ ok r → P)
      → P
  after_ok (ok a) f h k = k a refl h
  after_ok (err e) f h k = cc
  after_ok fault f h k = cc

  pub after_some :
      {A : Type 0} (o : Option A) (e : E) (f : A → Result E B)
      → (or_err o e >>= f) ≡ ok r
      → ((a : A) → o ≡ some a → f a ≡ ok r → P)
      → P
  after_some none e f h k = cc
  after_some (some a) e f h k = k a refl h

  pub after_reject :
      (b : Bool) (e : E) (m : Result E B)
      → (reject_if b e >> m) ≡ ok r
      → (b ≡ false → m ≡ ok r → P)
      → P
  after_reject true e m h k = cc
  after_reject false e m h k = k refl h

-- The steps of a run that does not fault.
module _ {E : Type 0} {B : Type 0} where
  pub reject-ne-fault :
      (b : Bool) (e : E) (m : Result E B) → (b ≡ false → m ≢ fault) → (reject_if b e >> m) ≢ fault
  reject-ne-fault true e m h = λ k. cc
  reject-ne-fault false e m h = h refl

  pub some-ne-fault :
      {A : Type 0} (o : Option A) (e : E) (f : A → Result E B)
      → ((a : A) → o ≡ some a → f a ≢ fault)
      → (or_err o e >>= f) ≢ fault
  some-ne-fault none e f h = λ k. cc
  some-ne-fault (some a) e f h = h a refl
