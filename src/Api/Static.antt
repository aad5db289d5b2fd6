-- ===== src/Api/Static.antt =====
-- api/api.go: the static booter.
pub mod Files
pub mod Booting
use pixiecore.Api.{BootSpec}
use pixiecore.Strconv.{itoa, atoi}
use pixiecore.Prelude.{
  Result, ok, ℕ, suc, Bool, true, List, [], ◌∷◌, ◌++◌, Option, none, some, ℤ, pos, negsuc, Bytes,
  codes, get_elem?, equal, if◌then◌else◌,
}

-- `staticBooter`
pub record StaticBooter : Type 0 where
  pub kernel_path : Bytes
  pub initrd_paths : List Bytes
  pub spec : BootSpec

-- the ids of the initrds, from the `i`th on
unfoldable pub initrd_ids : ℕ → List Bytes → List Bytes
initrd_ids i [] = []
initrd_ids i (path ∷ paths) = itoa i ∷ initrd_ids (suc i) paths

abbrev pub kernel_id : Bytes
kernel_id = codes "kernel"

-- `StaticBooter`
abbrev pub static_booter : Bytes → List Bytes → Bytes → StaticBooter
static_booter kernel paths cmdline = record {
  kernel_path = kernel;
  initrd_paths = paths;
  spec = record { kernel = kernel_id; initrd = initrd_ids 0 paths; cmdline = cmdline };
}

-- `staticBooter.ShouldBoot` has no error for any machine.
abbrev pub should_boot : {E : Type 0} → StaticBooter → Bytes → Result E (Unit {0})
should_boot b mac = ok tt

-- `staticBooter.BootSpec`, a copy for each machine
abbrev pub boot_spec : StaticBooter → Bytes → BootSpec
boot_spec b mac = b.spec

-- the path that the result of `Atoi` stands for
abbrev pub initrd_at : List Bytes → Option ℤ → Option Bytes
initrd_at paths none = none
initrd_at paths (some (negsuc n)) = none
initrd_at paths (some (pos n)) = get_elem? paths n

-- `os_open` is `os.Open`, with its error.
module _ {File : Type 0} (os_open : Bytes → File) where
  abbrev pub open_initrd : Bytes → Option Bytes → Option (File × Bytes)
  open_initrd id none = none
  open_initrd id (some path) = some (os_open path, codes "initrd." ++ id)

  -- `staticBooter.File`: what opening the file gives and its pretty name, or `none` for an unknown id
  unfoldable pub static_file : StaticBooter → Bytes → Option (File × Bytes)
  static_file b id =
      if equal id kernel_id
      then some (os_open b.kernel_path, kernel_id)
      else open_initrd id (initrd_at b.initrd_paths (atoi id))
