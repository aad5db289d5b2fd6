-- ===== src/Assets/Loading.antt =====
-- assets/pxelinux_autogen.go: which names are assets, and what loading them gives.
use mathlib.Core.Path.{subst}
use pixiecore.Assets.{
  FileInfo, not_found, Gunzip, bad_header, unzipped, AssetError, Images, Asset, Generator,
  ldlinux_c32, lpxelinux_0, ldlinux_name, lpxelinux_name, bindata, lookup, canonical, Bintree, node,
  bare, bintree, child, descend, node_at, unpacked, bindata_read, ldlinux_bytes, lpxelinux_bytes,
  generate, or_not_readable, load, asset, dir_of, asset_dir,
}
use pixiecore.Strings.Splitting.{split-ne-nil}
use pixiecore.Strings.{replace}
use pixiecore.Prelude.{
  ℕ, List, [], ◌∷◌, Option, none, some, ◌≡◌, ◌≢◌, ◌↔◌, inl, inr, refl, sym, ap, ◌∙◌, arith, Bytes,
  Lacks, equal, equal_iff, Bool-cases, Result, ok, err, fault, ok-injective, ◌>>=◌, or_err,
}

abbrev pub name_of : Generator → Bytes
name_of ldlinux_c32 = ldlinux_name
name_of lpxelinux_0 = lpxelinux_name

abbrev pub image_of : Images → Generator → Bytes
image_of images ldlinux_c32 = images.ldlinux_c32
image_of images lpxelinux_0 = images.lpxelinux_0

-- The compressed bytes unpack to `content`; where only closing them fails, to nothing.
abbrev pub Unpacks : {E : Type 0} → Gunzip E → Bytes → Type 0
Unpacks (bad_header e) content = ⊥
Unpacks (unzipped read (some e) closed) content = ⊥
Unpacks (unzipped read none none) content = content ≡ read
Unpacks (unzipped read none (some e)) content = content ≡ []

pub name_of-Lacks : (g : Generator) → Lacks b'/' (name_of g)
name_of-Lacks ldlinux_c32 = omega arith
name_of-Lacks lpxelinux_0 = omega arith

-- A name that has no slash when it is canonical had no backslash before.
canonical-eq : (s t : Bytes) → Lacks b'/' t → canonical s ≡ t → s ≡ t
unfolding canonical replace
canonical-eq [] t h e = e
canonical-eq (c ∷ s) [] h e = ground arith
canonical-eq (c ∷ s) (d ∷ t) h e = ground (arith, canonical-eq s t)

lookup-canonical : (g : Generator) → lookup (canonical (name_of g)) bindata ≡ some g
unfolding canonical replace lookup equal
lookup-canonical ldlinux_c32 = refl
lookup-canonical lpxelinux_0 = refl

some-injective : {A : Type 0} {a b : A} → some a ≡ some b → a ≡ b
some-injective h = cc

cons-ne-nil : {c : ℕ} {s : Bytes} → c ∷ s ≢ []
cons-ne-nil h = cc

none-ne-some : {A : Type 0} {a : A} → none ≢ some a
none-ne-some h = cc

lookup-some : (name : Bytes) (g : Generator) → lookup name bindata ≡ some g → name ≡ name_of g
unfolding lookup
lookup-some name g h = elim (Bool-cases (equal ldlinux_name name)) [
  | inl first ↦
      let here : some ldlinux_c32 ≡ some g = rw first at h in
      sym ((equal_iff ldlinux_name name).0 first) ∙ ap name_of (some-injective here)
  | inr other ↦ elim (Bool-cases (equal lpxelinux_name name)) [
    | inl second ↦
        let here : some lpxelinux_0 ≡ some g = rw (other, second) at h in
        sym ((equal_iff lpxelinux_name name).0 second) ∙ ap name_of (some-injective here)
    | inr none_left ↦ absurd (none-ne-some (rw (other, none_left) at h))
  ]
]

module _ {E : Type 0} (gunzip : Bytes → Gunzip E) (images : Images) where
  unpacked_iff :
      (name : Bytes) (z : Gunzip E) (content : Bytes)
      → (unpacked gunzip name z ≡ ok content) ↔ Unpacks z content
  unfolding unpacked
  unpacked_iff name (bad_header e) content = ((λ h. cc), λ h. absurd h)
  unpacked_iff name (unzipped read (some e) closed) content = ((λ h. cc), λ h. absurd h)
  unpacked_iff name (unzipped read none none) content =
      ((λ h. sym (ok-injective h)), λ h. ap ok (sym h))
  unpacked_iff name (unzipped read none (some e)) content =
      ((λ h. sym (ok-injective h)), λ h. ap ok (sym h))

  with_info :
      (r : Result (AssetError E) Bytes) (info : FileInfo)
      → ((r >>= λ content. ok (record { bytes = content; info = info })) >>= λ (a : Asset).
          ok a.bytes)
        ≡ r
  with_info (ok content) info = refl
  with_info (err e) info = refl
  with_info fault info = refl

  generate-bytes :
      (g : Generator)
      → (generate gunzip images g >>= λ a. ok a.bytes)
        ≡ unpacked gunzip (name_of g) (gunzip (image_of images g))
  unfolding generate ldlinux_bytes lpxelinux_bytes bindata_read
  generate-bytes ldlinux_c32 =
      with_info (unpacked gunzip ldlinux_name (gunzip images.ldlinux_c32)) _
  generate-bytes lpxelinux_0 =
      with_info (unpacked gunzip lpxelinux_name (gunzip images.lpxelinux_0)) _

  readable_iff :
      (name : Bytes) (r : Result (AssetError E) Asset) (content : Bytes)
      → ((or_not_readable gunzip images name r >>= λ a. ok a.bytes) ≡ ok content)
        ↔ ((r >>= λ a. ok a.bytes) ≡ ok content)
  readable_iff name (ok a) content = ((λ h. h), λ h. h)
  readable_iff name (err e) content = ((λ h. cc), λ h. cc)
  readable_iff name fault content = ((λ h. cc), λ h. cc)

  -- What `Asset` does with what it has found in the table.
  abbrev found : Bytes → Option Generator → Result (AssetError E) Bytes
  found name o = do
    a ← (do
      g ← or_err o (not_found name)
      or_not_readable gunzip images name (generate gunzip images g))
    ok a.bytes

  found_iff :
      (name : Bytes) (o : Option Generator) (content : Bytes)
      → (found name o ≡ ok content)
        ↔ ((g : Generator) × (o ≡ some g) × Unpacks (gunzip (image_of images g)) content)
  found_iff name none content = ((λ h. cc), λ h. absurd (none-ne-some h.1))
  found_iff name (some g) content = (
    λ h. (
      g,
      refl,
      (unpacked_iff (name_of g) (gunzip (image_of images g)) content).0
          (sym (generate-bytes g) ∙ (readable_iff name (generate gunzip images g) content).0 h),
    ),
    λ (g', e, u). (readable_iff name (generate gunzip images g) content).1 (
        generate-bytes g
        ∙ (unpacked_iff (name_of g) (gunzip (image_of images g)) content).1
            (subst (λ k. Unpacks (gunzip (image_of images k)) content) (sym (some-injective e)) u)),
  )

  -- `Asset` loads a file exactly for the name of an embedded file whose compressed bytes can be read; it is
  -- their content, or nothing if only closing the reader fails.
  pub asset_iff :
      (name content : Bytes)
      → (asset gunzip images name ≡ ok content)
        ↔ ((g : Generator) × (name ≡ name_of g) × Unpacks (gunzip (image_of images g)) content)
  unfolding asset load
  asset_iff name content = (
    λ h.
        let (g, e, u) = (found_iff name (lookup (canonical name) bindata) content).0 h in
        (g, canonical-eq name (name_of g) (name_of-Lacks g) (lookup-some (canonical name) g e), u),
    λ (g, e, u).
        (found_iff name (lookup (canonical name) bindata) content).1
          (g, ap (λ (n : Bytes). lookup (canonical n) bindata) e ∙ lookup-canonical g, u),
  )

-- What a path leads to is nothing or a file.
IsLeaf : Option Bintree → Type 0
IsLeaf none = Unit
IsLeaf (some (node none bs)) = ⊥
IsLeaf (some (node (some g) bs)) = Unit

file-IsLeaf : (g : Generator) (ps : List Bytes) → IsLeaf (descend (node (some g) bare) ps)
unfolding descend child IsLeaf
file-IsLeaf g [] = tt
file-IsLeaf g (p ∷ ps) = tt

descend-IsLeaf : (p : Bytes) (ps : List Bytes) → IsLeaf (descend bintree (p ∷ ps))
unfolding descend child IsLeaf equal
descend-IsLeaf p ps = elim (Bool-cases (equal ldlinux_name p)) [
  | inl first ↦ rw first (file-IsLeaf ldlinux_c32 ps)
  | inr other ↦ elim (Bool-cases (equal lpxelinux_name p)) [
    | inl second ↦ rw (other, second) (file-IsLeaf lpxelinux_0 ps)
    | inr none_left ↦ rw (other, none_left) tt
  ]
]

module _ (shuffle : List Bytes → List Bytes) {E : Type 0} where
  leaf-ne-ok :
      (name : Bytes) (t : Option Bintree) (names : List Bytes)
      → IsLeaf t
      → dir_of shuffle {E = E} name t ≢ ok names
  unfolding dir_of IsLeaf
  leaf-ne-ok name none names leaf h = cc
  leaf-ne-ok name (some (node none bs)) names leaf h = leaf
  leaf-ne-ok name (some (node (some g) bs)) names leaf h = cc

  -- `AssetDir` lists a directory exactly for the empty name: it has the names of the two files, in the order
  -- in which Go walks the map.
  pub asset_dir_iff :
      (name : Bytes) (names : List Bytes)
      → (asset_dir shuffle {E = E} name ≡ ok names)
        ↔ ((name ≡ []) × (names ≡ shuffle (ldlinux_name ∷ lpxelinux_name ∷ [])))
  unfolding asset_dir
  asset_dir_iff [] names = ((λ h. (refl, sym (ok-injective h))), λ h. ap ok (sym h.1))
  asset_dir_iff (c ∷ name) names =
      let (p, ps, e) = split-ne-nil b'/' (canonical (c ∷ name)) in
      let leaf : IsLeaf (node_at (c ∷ name)) =
        subst (λ parts. IsLeaf (descend bintree parts)) (sym e) (descend-IsLeaf p ps) in
      (
        (λ h. absurd (leaf-ne-ok (c ∷ name) (node_at (c ∷ name)) names leaf h)),
        (λ h. absurd (cons-ne-nil h.0)),
      )
