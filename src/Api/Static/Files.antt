-- ===== src/Api/Static/Files.antt =====
-- api/api.go: the ids that a static booter hands out, and the files that it opens.
use mathlib.Core.Path.{subst}
use pixiecore.Api.Static.{
  StaticBooter, initrd_ids, kernel_id, static_booter, boot_spec, initrd_at, open_initrd,
  static_file,
}
use pixiecore.Strconv.RoundTrip.{atoi-itoa, itoa-IsDigit, IsDigit}
use pixiecore.Strconv.{itoa, atoi}
use pixiecore.Prelude.{
  ℕ, zero, suc, ◌+◌, ◌^◌, ◌<◌, List, [], ◌∷◌, ◌++◌, Option, none, some, ℤ, pos, negsuc, ◌≡◌, ◌≢◌,
  ◌⊎◌, inl, inr, refl, ap, ◌∙◌, arith, Bytes, All, codes, length, get_elem?, equal, equal_refl,
  ne→not-equal, Bool-cases,
}

initrd_ids-get :
    (i k : ℕ) (paths : List Bytes) {path : Bytes}
    → get_elem? paths k ≡ some path
    → get_elem? (initrd_ids i paths) k ≡ some (itoa (i + k))
unfolding initrd_ids
initrd_ids-get i k [] h = cc
initrd_ids-get i zero (p ∷ paths) h = ap (λ (n : ℕ). some (itoa n)) (omega arith)
initrd_ids-get i (suc k) (p ∷ paths) h =
    initrd_ids-get (suc i) k paths h ∙ ap (λ (n : ℕ). some (itoa n)) (omega arith)

in_range :
    (paths : List Bytes) (k : ℕ) {path : Bytes} → get_elem? paths k ≡ some path → k < length paths
in_range [] k h = cc
in_range (p ∷ paths) zero h = omega arith
in_range (p ∷ paths) (suc k) h = omega (arith, in_range paths k h)

pub itoa-ne-kernel : (n : ℕ) → itoa n ≢ kernel_id
itoa-ne-kernel n e = not_digits (subst (All IsDigit) e (itoa-IsDigit n))
  where
    not_digits : All IsDigit kernel_id → ⊥
    not_digits ((_, high), _) = omega arith

module _ {File : Type 0} (os_open : Bytes → File) (kernel : Bytes) (paths : List Bytes)
    (cmdline : Bytes) where
  abbrev booter : StaticBooter
  booter = static_booter kernel paths cmdline

  -- For fewer than 2^63 initrds, the boot spec names the kernel by an id that opens it, and the `k`th initrd
  -- given, in its place, by an id that opens that initrd.
  pub static_file-boot_spec :
      (mac : Bytes) (k : ℕ) {path : Bytes}
      → length paths < 2 ^ 63
      → get_elem? paths k ≡ some path
      → (static_file os_open booter (boot_spec booter mac).kernel
          ≡ some (os_open kernel, kernel_id))
        × (id : Bytes) × (get_elem? (boot_spec booter mac).initrd k ≡ some id)
        × (static_file os_open booter id ≡ some (os_open path, codes "initrd." ++ id))
  unfolding static_file
  static_file-boot_spec mac k few h =
      let small : k < 2 ^ 63 = omega (arith, in_range paths k h) in
      (
        rw (equal_refl kernel_id) refl,
        itoa k,
        initrd_ids-get 0 k paths h ∙ ap (λ (n : ℕ). some (itoa n)) (omega arith),
        rw (ne→not-equal (itoa k) kernel_id (itoa-ne-kernel k), atoi-itoa k small, h) refl,
      )

  -- Whatever the id, a file that the booter opens is the kernel or one of the initrds given.
  pub static_file-given :
      (id : Bytes) (f : File) (pretty : Bytes)
      → static_file os_open booter id ≡ some (f, pretty)
      → (f ≡ os_open kernel)
        ⊎ ((k : ℕ) × (path : Bytes) × (get_elem? paths k ≡ some path) × (f ≡ os_open path))
  unfolding static_file
  static_file-given id f pretty h = elim (Bool-cases (equal id kernel_id)) [
    | inl e ↦ inl (by_kernel (rw e at h))
    | inr e ↦ inr (by_number (atoi id) (rw e at h))
  ]
    where
      by_kernel :
          ◌≡◌ {A = Option (File × Bytes)} (some (os_open kernel, kernel_id)) (some (f, pretty))
          → f ≡ os_open kernel
      by_kernel e = cc

      by_path :
          (k : ℕ) (o : Option Bytes)
          → get_elem? paths k ≡ o
          → open_initrd os_open id o ≡ some (f, pretty)
          → (k : ℕ) × (path : Bytes) × (get_elem? paths k ≡ some path) × (f ≡ os_open path)
      by_path k none e g = cc
      by_path k (some path) e g = (k, path, e, cc)

      by_number :
          (n : Option ℤ)
          → open_initrd os_open id (initrd_at paths n) ≡ some (f, pretty)
          → (k : ℕ) × (path : Bytes) × (get_elem? paths k ≡ some path) × (f ≡ os_open path)
      by_number none g = cc
      by_number (some (negsuc n)) g = cc
      by_number (some (pos n)) g = by_path n (get_elem? paths n) refl g
