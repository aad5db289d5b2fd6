-- ===== src/Tests/Embedded.antt =====
-- assets/pxelinux_autogen.go: lookups in the tables, with a decompressor that leaves its input alone.
use pixiecore.Assets.Loading.{name_of, image_of, Unpacks, asset_iff}
use pixiecore.Assets.{
  Gunzip, unzipped, not_found, Images, Generator, lookup, canonical, unpacked, bindata_read,
  ldlinux_bytes, lpxelinux_bytes, generate, load, asset, must_asset, asset_names, child, descend,
  dir_of, asset_dir,
}
use pixiecore.Cli.Picking.{Picks}
use pixiecore.Cli.Start.Embedded.{IsEmbedded, start-IsEmbedded_iff}
use pixiecore.Cli.Start.{serving, start}
use pixiecore.Cli.{Picked}
use pixiecore.Strings.{split, replace}
use pixiecore.Tests.Modes.{static_flags}
use pixiecore.Tests.Started.{ports, started}
use pixiecore.Tests.Transfers.{ten}
use pixiecore.Prelude.{[], none, some, ◌≡◌, ◌↔◌, refl, Bytes, codes, equal, ok, err, fault}

abbrev pub stored : Bytes → Gunzip Bytes
stored content = unzipped content none none

-- A reader that fails to close.
abbrev stuck : Bytes → Gunzip Bytes
stuck content = unzipped content none (some (codes "close"))

abbrev pub images : Images
images = record { ldlinux_c32 = codes "ldlinux"; lpxelinux_0 = ten }

runs_assets :
    (asset stored images (codes "lpxelinux.0") ≡ ok ten)
    × (asset stored images (codes "\\lpxelinux.0") ≡ err (not_found (codes "\\lpxelinux.0")))
    × (must_asset stored images (codes "x") ≡ fault)
    × (asset stuck images (codes "lpxelinux.0") ≡ ok [])
unfolding must_asset asset load lookup canonical replace generate ldlinux_bytes lpxelinux_bytes
    bindata_read unpacked equal
runs_assets = (refl, refl, refl, refl)

runs_dirs :
    (asset_dir (λ names. names) {E = Bytes} [] ≡ ok (asset_names (λ names. names)))
    × (asset_dir (λ names. names) {E = Bytes} (codes "a/b") ≡ err (not_found (codes "a/b")))
unfolding asset_dir asset_names dir_of descend child canonical replace split equal
runs_dirs = (refl, refl)

asset_iff_example : (asset stored images (codes "lpxelinux.0") ≡ ok ten) ↔ (
    (g : Generator) × (codes "lpxelinux.0" ≡ name_of g) × Unpacks (stored (image_of images g)) ten)
asset_iff_example = asset_iff stored images (codes "lpxelinux.0") ten

start-IsEmbedded_iff_example :
    ((start {E = Bytes} (asset stored images) ports static_flags []).1 ≡ serving started)
    ↔ ((b : Picked) × Picks static_flags [] b × IsEmbedded stored images ports b started)
start-IsEmbedded_iff_example = start-IsEmbedded_iff stored images ports started static_flags []
