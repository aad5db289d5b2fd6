-- ===== src/Tests/Restoring.antt =====
-- assets/pxelinux_autogen.go: writing the embedded files to a disk that is a list of files.
use pixiecore.Assets.Restore.Endings.{Ends}
use pixiecore.Assets.Loading.{name_of}
use pixiecore.Assets.Restore.Places.{under, file_path-under, file_path-injective}
use pixiecore.Assets.Restore.Whole.{restore_assets-Ends}
use pixiecore.Assets.Restore.Written.{IsDisk, Stands, HasReason}
use pixiecore.Assets.Restore.{
  Disk, asset_failed, disk_failed, file_path, continued, restore_asset, each, restore_assets,
}
use pixiecore.Assets.{
  Gunzip, bad_header, read_error, not_readable, Generator, ldlinux_name, lookup, canonical,
  unpacked, bindata_read, ldlinux_bytes, lpxelinux_bytes, generate, load, asset, asset_info, child,
  descend, dir_of, asset_dir,
}
use pixiecore.Filepath.Clean.{join_paths, dir_part}
use pixiecore.Strings.{split, replace}
use pixiecore.Tests.Embedded.{stored, images}
use pixiecore.Tests.Transfers.{ten}
use pixiecore.Prelude.{
  List, [], ◌∷◌, Option, none, some, ◌≡◌, ◌≢◌, inl, inr, refl, sym, ◌∙◌, Bytes, codes, equal,
  equal_iff, Bool-cases, if◌then◌else◌, ok, err,
}

abbrev Files : Type 0
Files = List (Bytes × Bytes)

unfoldable find : Files → Bytes → Option Bytes
find [] path = none
find ((name, bytes) ∷ files) path = if equal name path then some bytes else find files path

abbrev files_disk : Disk Files Bytes
files_disk = record {
  mkdir_all = λ path mode files. (files, none);
  write_file = λ path bytes mode files. ((path, bytes) ∷ files, none);
  chtimes = λ path accessed modified files. (files, none);
}

abbrev full_disk : Disk Files Bytes
full_disk = record {
  mkdir_all = λ path mode files. (files, none);
  write_file = λ path bytes mode files. (files, some (codes "full"));
  chtimes = λ path accessed modified files. (files, none);
}

abbrev broken : Bytes → Gunzip Bytes
broken content = bad_header (codes "gzip")

find-here : (path bytes : Bytes) (files : Files) → find ((path, bytes) ∷ files) path ≡ some bytes
unfolding find
find-here path bytes files = rw ((equal_iff path path).1 refl)

find-other :
    (path bytes : Bytes) (files : Files) (file : Bytes)
    → file ≢ path
    → find ((path, bytes) ∷ files) file ≡ find files file
unfolding find
find-other path bytes files file h = elim (Bool-cases (equal path file)) [
  | inl same ↦ absurd (h (sym ((equal_iff path file).0 same)))
  | inr other ↦ rw other
]

files_disk-IsDisk : IsDisk files_disk find (λ path file. file ≢ path)
files_disk-IsDisk = record {
  made = λ path mode files file. refl;
  written = λ path bytes mode files h. find-here path bytes files;
  others = λ path bytes mode files file h. find-other path bytes files file h;
  timed = λ path accessed modified files file. refl;
}

names_apart :
    (g k : Generator)
    → k ≢ g
    → under (codes "/tmp/x/") (name_of k) ≢ under (codes "/tmp/x/") (name_of g)
names_apart g k other h = other (
    file_path-injective (codes "/tmp/x/") k g
      (file_path-under (codes "/tmp/x/") k ∙ h ∙ sym (file_path-under (codes "/tmp/x/") g)))

abbrev in_order : List Bytes → List Bytes
in_order names = names

runs_restore :
    (restore_assets stored images files_disk in_order 2 (codes "/tmp/x/") [] [] ≡ (
      (codes "/tmp/x/lpxelinux.0", ten) ∷ (codes "/tmp/x/ldlinux.c32", codes "ldlinux") ∷ [],
      ok tt,
    ))
    × (restore_assets stored images full_disk in_order 2 (codes "/tmp") [] []
        ≡ ([], err (disk_failed (codes "full"))))
    × (restore_assets broken images files_disk in_order 2 (codes "/tmp") [] [] ≡ (
      [],
      err (asset_failed (not_readable ldlinux_name (read_error ldlinux_name (codes "gzip")))),
    ))
unfolding restore_assets restore_asset each continued asset_dir dir_of descend child canonical
    replace split join_paths dir_part file_path asset asset_info load lookup generate ldlinux_bytes
    lpxelinux_bytes bindata_read unpacked equal
runs_restore = (refl, refl, refl)

restore_assets-Ends_example :
    Ends
      (λ _ s'. (g : Generator) → Stands stored images files_disk find (codes "/tmp/x/") g s')
      (HasReason stored images files_disk find (codes "/tmp/x/"))
      (restore_assets stored images files_disk in_order 2 (codes "/tmp/x/") [] [])
restore_assets-Ends_example =
    restore_assets-Ends stored images files_disk find (codes "/tmp/x/") (λ path file. file ≢ path)
      files_disk-IsDisk names_apart in_order (λ names name. ((λ h. h), λ h. h)) 0 []
