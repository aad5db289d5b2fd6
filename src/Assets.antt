-- ===== src/Assets.antt =====
-- assets/pxelinux_autogen.go: the embedded files, and the functions that look them up.
pub mod Loading
pub mod Restore
use pixiecore.Strings.{split, replace}
use pixiecore.Prelude.{
  ℕ, List, [], ◌∷◌, map, Option, none, some, ◌≡◌, refl, Bytes, codes, equal, if◌then◌else◌, Result,
  ok, err, fault, ◌>>=◌, or_err,
}

-- What `compress/gzip` makes of compressed bytes: an error of `NewReader`, or what `io.Copy` reads,
-- with its error and that of `Close`.
pub data Gunzip (E : Type 0) : Type 0 where
  bad_header : E → Gunzip E
  unzipped : Bytes → Option E → Option E → Gunzip E

pub data AssetError (E : Type 0) : Type 0 where
  read_error : Bytes → E → AssetError E
  not_readable : Bytes → AssetError E → AssetError E
  not_found : Bytes → AssetError E

-- `bindataFileInfo`
pub record FileInfo : Type 0 where
  pub name : Bytes
  pub size : ℕ
  pub mode : ℕ
  pub mod_time : ℕ

-- `asset`
pub record Asset : Type 0 where
  pub bytes : Bytes
  pub info : FileInfo

-- The compressed files, `_ldlinuxC32` and `_lpxelinux0`.
pub record Images : Type 0 where
  pub ldlinux_c32 : Bytes
  pub lpxelinux_0 : Bytes

-- The functions in the tables.
pub data Generator : Type 0 where
  ldlinux_c32 lpxelinux_0 : Generator

abbrev pub ldlinux_name : Bytes
ldlinux_name = codes "ldlinux.c32"

abbrev pub lpxelinux_name : Bytes
lpxelinux_name = codes "lpxelinux.0"

-- `_bindata`
abbrev pub bindata : List (Bytes × Generator)
bindata = (ldlinux_name, ldlinux_c32) ∷ (lpxelinux_name, lpxelinux_0) ∷ []

-- a lookup in `_bindata`
unfoldable pub lookup : Bytes → List (Bytes × Generator) → Option Generator
lookup name [] = none
lookup name ((key, g) ∷ table) = if equal key name then some g else lookup name table

-- `strings.Replace(name, "\\", "/", -1)`
unfoldable pub canonical : Bytes → Bytes
canonical name = replace 92 (codes "/") name

-- `bintree`
mutual
  pub data Bintree : Type 0 where
    node : Option Generator → Branches → Bintree

  pub data Branches : Type 0 where
    bare : Branches
    branch : Bytes → Bintree → Branches → Branches

-- `_bintree`
abbrev pub bintree : Bintree
bintree = node none (
    branch ldlinux_name (node (some ldlinux_c32) bare)
      (branch lpxelinux_name (node (some lpxelinux_0) bare) bare))

-- `node.Children[p]`
unfoldable pub child : Bytes → Branches → Option Bintree
child p bare = none
child p (branch name t bs) = if equal name p then some t else child p bs

-- the loop of `AssetDir`
unfoldable pub descend : Bintree → List Bytes → Option Bintree
unfolding child
descend t [] = some t
descend (node g bs) (p ∷ ps) = elim (child p bs) [ none ↦ none | some t ↦ descend t ps ]

abbrev pub child_names : Branches → List Bytes
child_names bare = []
child_names (branch name t bs) = name ∷ child_names bs

module _ {E : Type 0} (gunzip : Bytes → Gunzip E) where
  -- after the calls of `bindataRead`; an error of `Close` alone returns `err`, which is nil by then
  unfoldable pub unpacked : Bytes → Gunzip E → Result (AssetError E) Bytes
  unpacked name (bad_header e) = err (read_error name e)
  unpacked name (unzipped content (some e) closed) = err (read_error name e)
  unpacked name (unzipped content none (some e)) = ok []
  unpacked name (unzipped content none none) = ok content

  -- `bindataRead`
  unfoldable pub bindata_read : Bytes → Bytes → Result (AssetError E) Bytes
  unfolding unpacked
  bindata_read content name = unpacked name (gunzip content)

  module _ (images : Images) where
    unfoldable pub ldlinux_bytes : Result (AssetError E) Bytes
    unfolding bindata_read
    ldlinux_bytes = bindata_read images.ldlinux_c32 ldlinux_name

    unfoldable pub lpxelinux_bytes : Result (AssetError E) Bytes
    unfolding bindata_read
    lpxelinux_bytes = bindata_read images.lpxelinux_0 lpxelinux_name

    -- `ldlinuxC32` and `lpxelinux0`
    unfoldable pub generate : Generator → Result (AssetError E) Asset
    generate ldlinux_c32 = do
      content ← ldlinux_bytes
      ok (record {
        bytes = content;
        info = record { name = ldlinux_name; size = 122308; mode = 420; mod_time = 1444138389 };
      })
    generate lpxelinux_0 = do
      content ← lpxelinux_bytes
      ok (record {
        bytes = content;
        info = record { name = lpxelinux_name; size = 91550; mode = 420; mod_time = 1444138389 };
      })

    abbrev pub or_not_readable :
        {A : Type 0} → Bytes → Result (AssetError E) A → Result (AssetError E) A
    or_not_readable name (ok a) = ok a
    or_not_readable name (err e) = err (not_readable name e)
    or_not_readable name fault = fault

    -- The lookup that `Asset` and `AssetInfo` share.
    unfoldable pub load : Bytes → Result (AssetError E) Asset
    load name = do
      g ← or_err (lookup (canonical name) bindata) (not_found name)
      or_not_readable name (generate g)

    -- `Asset`
    unfoldable pub asset : Bytes → Result (AssetError E) Bytes
    unfolding load
    asset name = do a ← load name; ok a.bytes

    -- `AssetInfo`
    unfoldable pub asset_info : Bytes → Result (AssetError E) FileInfo
    unfolding load
    asset_info name = do a ← load name; ok a.info

    abbrev pub or_panic : {A : Type 0} → Result (AssetError E) A → Result (AssetError E) A
    or_panic (ok a) = ok a
    or_panic (err e) = fault
    or_panic fault = fault

    -- `MustAsset`
    unfoldable pub must_asset : Bytes → Result (AssetError E) Bytes
    unfolding asset
    must_asset name = or_panic (asset name)

abbrev pub node_at : Bytes → Option Bintree
node_at [] = some bintree
node_at (c ∷ name) = descend bintree (split b'/' (canonical (c ∷ name)))

-- `shuffle` is the order in which Go walks a map.
module _ (shuffle : List Bytes → List Bytes) where
  -- `AssetNames`
  unfoldable pub asset_names : List Bytes
  asset_names = shuffle (map (λ (entry : Bytes × Generator). entry.0) bindata)

  unfoldable pub dir_of : {E : Type 0} → Bytes → Option Bintree → Result (AssetError E) (List Bytes)
  dir_of name none = err (not_found name)
  dir_of name (some (node (some g) bs)) = err (not_found name)
  dir_of name (some (node none bs)) = ok (shuffle (child_names bs))

  -- `AssetDir`
  unfoldable pub asset_dir : {E : Type 0} → Bytes → Result (AssetError E) (List Bytes)
  unfolding dir_of descend
  asset_dir name = dir_of name (node_at name)
