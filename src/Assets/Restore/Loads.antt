-- ===== src/Assets/Restore/Loads.antt =====
-- assets/pxelinux_autogen.go: how loading an embedded file ends, for `RestoreAsset`.
use mathlib.Core.Path.{subst}
use pixiecore.Assets.Loading.{name_of, image_of, Unpacks, asset_iff}
use pixiecore.Assets.Restore.Places.{name_of-injective}
use pixiecore.Assets.{
  Gunzip, bad_header, unzipped, not_found, AssetError, Images, Asset, Generator, ldlinux_c32,
  lpxelinux_0, ldlinux_name, lpxelinux_name, bindata, lookup, canonical, generate, ldlinux_bytes,
  lpxelinux_bytes, bindata_read, unpacked, or_not_readable, load, asset,
}
use pixiecore.Prelude.{
  none, some, ◌≡◌, ◌≢◌, refl, sym, Bytes, Result, ok, err, fault, >>=-ne-fault, some-ne-fault,
}

err-ne-ok : {F A : Type 0} {e : F} {a : A} → ◌≢◌ {A = Result F A} (err e) (ok a)
err-ne-ok h = cc

module _ {E : Type 0} (gunzip : Bytes → Gunzip E) (images : Images) where
  unpacked-ne-fault : (name : Bytes) (z : Gunzip E) → unpacked gunzip name z ≢ fault
  unfolding unpacked
  unpacked-ne-fault name (bad_header e) h = cc
  unpacked-ne-fault name (unzipped read (some e) closed) h = cc
  unpacked-ne-fault name (unzipped read none (some e)) h = cc
  unpacked-ne-fault name (unzipped read none none) h = cc

  generate-ne-fault : (g : Generator) → generate gunzip images g ≢ fault
  unfolding generate ldlinux_bytes lpxelinux_bytes bindata_read
  generate-ne-fault ldlinux_c32 =
      >>=-ne-fault (unpacked gunzip ldlinux_name (gunzip images.ldlinux_c32)) _
        (unpacked-ne-fault ldlinux_name _) (λ content e h. cc)
  generate-ne-fault lpxelinux_0 =
      >>=-ne-fault (unpacked gunzip lpxelinux_name (gunzip images.lpxelinux_0)) _
        (unpacked-ne-fault lpxelinux_name _) (λ content e h. cc)

  readable-ne-fault :
      {A : Type 0} (name : Bytes) (r : Result (AssetError E) A)
      → r ≢ fault
      → or_not_readable gunzip images name r ≢ fault
  readable-ne-fault name (ok a) h k = cc
  readable-ne-fault name (err e) h k = cc
  readable-ne-fault name fault h k = h refl

  load-ne-fault : (name : Bytes) → load gunzip images name ≢ fault
  unfolding load
  load-ne-fault name =
      some-ne-fault (lookup (canonical name) bindata) (not_found name) _
        (λ g e. readable-ne-fault name (generate gunzip images g) (generate-ne-fault g))

  -- A file with its content, or an error where its compressed bytes cannot be read.
  abbrev pub Loads : Generator → Result (AssetError E) Asset → Type 0
  Loads g (ok a) = Unpacks (gunzip (image_of images g)) a.bytes
  Loads g (err e) = (bytes : Bytes) → ¬ Unpacks (gunzip (image_of images g)) bytes
  Loads g fault = ⊥

  pub load-Loads :
      (g : Generator) (r : Result (AssetError E) Asset)
      → load gunzip images (name_of g) ≡ r
      → Loads g r
  unfolding asset
  load-Loads g (ok a) h =
      let (k, e, u) = (asset_iff gunzip images (name_of g) a.bytes).0 (rw h refl) in
      subst (λ x. Unpacks (gunzip (image_of images x)) a.bytes) (sym (name_of-injective g k e)) u
  load-Loads g (err e) h = λ bytes u.
      let found : asset gunzip images (name_of g) ≡ ok bytes =
        (asset_iff gunzip images (name_of g) bytes).1 (g, refl, u) in
      err-ne-ok (rw h at found)
  load-Loads g fault h = load-ne-fault (name_of g) h
