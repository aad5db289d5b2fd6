-- ===== src/Cli.antt =====
-- pixiecore/pixiecore.go: `pickBooter`, from the flags of the command line.
pub mod Picking
pub mod Start
use pixiecore.Api.Remote.{RemoteBooter, RemoteError, remote_booter}
use pixiecore.Api.Static.{StaticBooter, static_booter}
use pixiecore.Strings.{split}
use pixiecore.Prelude.{
  Bool, true, false, not, [], ◌∷◌, Bytes, if◌then◌else◌, Result, ok, err, fault,
}

pub record Flags : Type 0 where
  pub api_server : Bytes
  pub kernel_file : Bytes
  pub initrd_file : Bytes
  pub kernel_cmdline : Bytes

pub data PickError (E : Type 0) : Type 0 where
  kernel_with_api initrd_with_api cmdline_with_api api_with_kernel no_initrd no_mode : PickError E
  no_remote : RemoteError E → PickError E

pub data Picked : Type 0 where
  remote : RemoteBooter → Picked
  local : StaticBooter → Picked

abbrev pub is_set : Bytes → Bool
is_set [] = false
is_set (c ∷ s) = true

unfoldable pub picked_remote :
    {E : Type 0} → Bytes × Result (RemoteError E) RemoteBooter → Bytes × Result (PickError E) Picked
picked_remote (random, ok b) = (random, ok (remote b))
picked_remote (random, err e) = (random, err (no_remote e))
picked_remote (random, fault) = (random, fault)

-- `pickBooter`; the state is the source of randomness
unfoldable pub pick_booter : {E : Type 0} → Flags → Bytes → Bytes × Result (PickError E) Picked
pick_booter f random =
    if is_set f.api_server
    then (if is_set f.kernel_file
        then (random, err kernel_with_api)
        else if is_set f.initrd_file
        then (random, err initrd_with_api)
        else if is_set f.kernel_cmdline
        then (random, err cmdline_with_api)
        else picked_remote (remote_booter f.api_server random))
    else if is_set f.kernel_file
    then (if is_set f.api_server
        then (random, err api_with_kernel)
        else if not (is_set f.initrd_file)
        then (random, err no_initrd)
        else (
          random,
          ok (local (static_booter f.kernel_file (split b',' f.initrd_file) f.kernel_cmdline)),
        ))
    else (random, err no_mode)
