-- ===== src/Prelude/Buffers.antt =====
-- Go's `copy`, slices and big-endian reads on byte strings.
use Prim.Native.Nat.{ℕ, zero, suc, ◌+◌, ◌-◌, ◌*◌, ◌/◌, ◌%◌, ◌≤◌, ◌<◌}
use mathlib.Core.Logic.{◌≢◌}
use mathlib.Core.Path.{◌≡◌, refl, ap, ◌∙◌}
use mathlib.Core.Bool.{◌&&◌}
use mathlib.Core.Option.{Option, none, some}
use mathlib.Core.List.{[], ◌∷◌, ◌++◌}
use mathlib.Core.Option.{Option, none, some}
use native.Mathlib.Omega.{arith}
use pixiecore.Prelude.Tests.{leb, le→leb, if◌then◌else◌}
use pixiecore.Prelude.Lists.{
  length, take, drop, replicate, get_elem?, get_elem?-lt, take-all, length-drop,
}
use pixiecore.Prelude.Text.{Bytes}
use pixiecore.Prelude.Results.{Result, ok, fault, or_fault, ◌>>=◌}

-- `copy(dst[i:], src)`: what does not fit is left out.
unfoldable pub copy : Bytes → ℕ → Bytes → Bytes
copy dst i [] = dst
copy [] i (y ∷ src) = []
copy (x ∷ dst) zero (y ∷ src) = y ∷ copy dst zero src
copy (x ∷ dst) (suc i) (y ∷ src) = x ∷ copy dst i (y ∷ src)

pub length-copy : (dst : Bytes) (i : ℕ) (src : Bytes) → length (copy dst i src) ≡ length dst
unfolding copy
length-copy dst i [] = refl
length-copy [] i (y ∷ src) = refl
length-copy (x ∷ dst) zero (y ∷ src) = ap suc (length-copy dst zero src)
length-copy (x ∷ dst) (suc i) (y ∷ src) = ap suc (length-copy dst i (y ∷ src))

-- A copy to an offset leaves what is before it.
pub copy_behind :
    (before after src : Bytes)
    → copy (before ++ after) (length before) src ≡ before ++ copy after 0 src
unfolding copy
copy_behind [] after src = refl
copy_behind (x ∷ before) after [] = refl
copy_behind (x ∷ before) after (y ∷ src) = ap (◌∷◌ x) (copy_behind before after (y ∷ src))

-- A copy over a stretch of the same length replaces it.
pub copy_mid :
    (before mid after src : Bytes)
    → length src ≡ length mid
    → copy (before ++ (mid ++ after)) (length before) src ≡ before ++ (src ++ after)
unfolding copy
copy_mid [] [] after [] h = refl
copy_mid [] [] after (y ∷ src) h = absurd (omega arith)
copy_mid [] (x ∷ mid) after [] h = absurd (omega arith)
copy_mid [] (x ∷ mid) after (y ∷ src) h = ap (◌∷◌ y) (copy_mid [] mid after src (omega arith))
copy_mid (x ∷ before) [] after [] h = refl
copy_mid (x ∷ before) (z ∷ mid) after [] h = absurd (omega arith)
copy_mid (x ∷ before) mid after (y ∷ src) h = ap (◌∷◌ x) (copy_mid before mid after (y ∷ src) h)

module _ {ℓ} {E : Type ℓ} where
  -- `b[i:j]`. A bound past the length counts as a fault, also where the capacity would allow it.
  unfoldable pub slice : Bytes → ℕ → ℕ → Result E Bytes
  slice b i j = if leb i j && leb j (length b) then ok (take (j - i) (drop i b)) else fault

  -- `b[i]`
  unfoldable pub index : Bytes → ℕ → Result E ℕ
  index b i = or_fault (get_elem? b i)

  -- `binary.BigEndian.Uint16(b[i:])`
  unfoldable pub uint16 : Bytes → ℕ → Result E ℕ
  unfolding index
  uint16 b i = do hi ← index b i; lo ← index b (i + 1); ok (hi * 256 + lo)

  pub slice-ok :
      (b : Bytes) (i j : ℕ) → i ≤ j → j ≤ length b → slice b i j ≡ ok (take (j - i) (drop i b))
  unfolding slice
  slice-ok b i j p q = rw (le→leb i j p, le→leb j (length b) q)

  pub index-ok : (b : Bytes) (i : ℕ) → i < length b → (x : ℕ) × (index b i ≡ ok x)
  unfolding index
  index-ok b i h = let (x, e) = get_elem?-lt b i h in (x, rw e)

  pub index-get_elem? : (b : Bytes) (i : ℕ) {x : ℕ} → index b i ≡ ok x → get_elem? b i ≡ some x
  unfolding index
  index-get_elem? b i {x} h = by_elem (get_elem? b i) h
    where
      by_elem : (o : Option ℕ) → ◌≡◌ {A = Result E ℕ} (or_fault o) (ok x) → o ≡ some x
      by_elem none e = cc
      by_elem (some y) e = cc

  pub get_elem?-index : (b : Bytes) (i : ℕ) {x : ℕ} → get_elem? b i ≡ some x → index b i ≡ ok x
  unfolding index
  get_elem?-index b i h = rw h

  pub uint16-ok : (b : Bytes) (i : ℕ) → i + 1 < length b → (x : ℕ) × (uint16 b i ≡ ok x)
  unfolding uint16
  uint16-ok b i h =
      let (hi, e) = index-ok b i (omega arith) in
      let (lo, f) = index-ok b (i + 1) h in (hi * 256 + lo, rw (e, f))

  -- `b[i:]`
  pub slice-tail : (b : Bytes) (i : ℕ) → i ≤ length b → slice b i (length b) ≡ ok (drop i b)
  slice-tail b i h =
      slice-ok b i (length b) h (omega arith)
      ∙ ap ok (take-all (length b - i) (drop i b) (omega (arith, length-drop i b)))

  pub slice-ne-fault : (b : Bytes) (i j : ℕ) → i ≤ j → j ≤ length b → slice b i j ≢ fault
  slice-ne-fault b i j p q h = let e = slice-ok b i j p q in cc

  pub index-ne-fault : (b : Bytes) (i : ℕ) → i < length b → index b i ≢ fault
  index-ne-fault b i h k = let (x, e) = index-ok b i h in cc

  pub uint16-ne-fault : (b : Bytes) (i : ℕ) → i + 1 < length b → uint16 b i ≢ fault
  uint16-ne-fault b i h k = let (x, e) = uint16-ok b i h in cc

-- `binary.BigEndian.PutUint16`, as the two bytes that it stores
abbrev pub uint16_bytes : ℕ → Bytes
uint16_bytes n = (n / 256 % 256) ∷ (n % 256) ∷ []

-- `b[i] = v`, at an index in range
abbrev pub store : Bytes → ℕ → ℕ → Bytes
store b i v = copy b i (v ∷ [])

-- `make([]byte, n)`
abbrev pub zeros : ℕ → Bytes
zeros n = replicate n 0
