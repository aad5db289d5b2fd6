-- ===== src/Assets/Restore.antt =====
-- assets/pxelinux_autogen.go: writing the embedded files to a disk.
pub mod Places
pub mod Endings
pub mod Loads
pub mod Written
pub mod Whole
use pixiecore.Assets.{Gunzip, AssetError, FileInfo, Images, canonical, asset, asset_info, asset_dir}
use pixiecore.Filepath.Clean.{join_paths, dir_part}
use pixiecore.Strings.{split}
use pixiecore.Prelude.{
  ℕ, zero, suc, List, [], ◌∷◌, Option, none, some, Bytes, Result, ok, err, fault,
}

-- `os.MkdirAll`, `ioutil.WriteFile` and `os.Chtimes`: what they make of the disk, with their error.
pub record Disk (S X : Type 0) : Type 0 where
  pub mkdir_all : Bytes → ℕ → S → S × Option X
  pub write_file : Bytes → Bytes → ℕ → S → S × Option X
  pub chtimes : Bytes → ℕ → ℕ → S → S × Option X

pub data RestoreError (E X : Type 0) : Type 0 where
  asset_failed : AssetError E → RestoreError E X
  disk_failed : X → RestoreError E X
  out_of_fuel : RestoreError E X

-- `_filePath`
unfoldable pub file_path : Bytes → Bytes → Bytes
unfolding join_paths canonical split
file_path dir name = join_paths (dir ∷ split b'/' (canonical name))

-- What a part of the program makes of the disk, and what it returns.
abbrev pub Restored : Type 0 → Type 0 → Type 0 → Type 0 → Type 0
Restored S E X A = S × Result (RestoreError E X) A

module _ {S E X : Type 0} where
  unfoldable pub continued :
      {A B : Type 0} → Restored S E X A → (A → S → Restored S E X B) → Restored S E X B
  continued (s, ok a) next = next a s
  continued (s, err e) next = (s, err e)
  continued (s, fault) next = (s, fault)

  infixl 5 ◌>>=◌ ◌>>◌
  abbrev ◌>>=◌ :
      {A B : Type 0} → (S → Restored S E X A) → (A → S → Restored S E X B) → S → Restored S E X B
  (m >>= next) s = continued (m s) next

  abbrev ◌>>◌ :
      {B : Type 0} → (S → Restored S E X (Unit {0})) → (S → Restored S E X B) → S → Restored S E X B
  (m >> rest) s = continued (m s) (λ _. rest)

  abbrev pub from_asset : {A : Type 0} → Result (AssetError E) A → S → Restored S E X A
  from_asset (ok a) s = (s, ok a)
  from_asset (err e) s = (s, err (asset_failed e))
  from_asset fault s = (s, fault)

  abbrev pub from_disk : S × Option X → Restored S E X (Unit {0})
  from_disk (s, none) = (s, ok tt)
  from_disk (s, some x) = (s, err (disk_failed x))

  module _ (gunzip : Bytes → Gunzip E) (images : Images) (disk : Disk S X) where
    -- `RestoreAsset`
    unfoldable pub restore_asset : Bytes → Bytes → S → Restored S E X (Unit {0})
    unfolding asset asset_info file_path dir_part continued
    restore_asset dir name = do
      content ← from_asset (asset gunzip images name)
      info ← from_asset (asset_info gunzip images name)
      λ s. from_disk (disk.mkdir_all (file_path dir (dir_part name)) 493 s)
      λ s. from_disk (disk.write_file (file_path dir name) content info.mode s)
      λ s. from_disk (disk.chtimes (file_path dir name) info.mod_time info.mod_time s)

    -- the loop of `RestoreAssets`
    unfoldable pub each :
        (Bytes → S → Restored S E X (Unit {0})) → List Bytes → S → Restored S E X (Unit {0})
    unfolding continued
    each restore [] = λ s. (s, ok tt)
    each restore (name ∷ names) = do restore name; each restore names

    module _ (shuffle : List Bytes → List Bytes) where
      -- `RestoreAssets`, with the depth of the directories as fuel
      unfoldable pub restore_assets : ℕ → Bytes → Bytes → S → Restored S E X (Unit {0})
      unfolding asset_dir restore_asset each join_paths
      restore_assets zero dir name = λ s. (s, err out_of_fuel)
      restore_assets (suc fuel) dir name = elim (asset_dir shuffle {E = E} name) [
        | ok names ↦ each (λ child. restore_assets fuel dir (join_paths (name ∷ child ∷ []))) names
        | err e ↦ restore_asset dir name
        | fault ↦ λ s. (s, fault)
      ]
