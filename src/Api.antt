-- ===== src/Api.antt =====
-- api/api.go: what a booter hands out.
pub mod Static
pub mod Remote
pub mod Plans
use pixiecore.Prelude.{List, Bool, Option, Bytes, Result}

-- `BootSpec`
pub record BootSpec : Type 0 where
  pub kernel : Bytes
  pub initrd : List Bytes
  pub cmdline : Bytes

-- What a stream holds, and whether reading it comes to an end without an error.
pub record Content : Type 0 where
  pub bytes : Bytes
  pub complete : Bool

-- `Booter`: `S` is what a booter changes when it makes a boot spec, `E` its errors. `file` gives a stream and its pretty name.
pub record Booter (S E : Type 0) : Type 0 where
  pub should_boot : Bytes → Result E (Unit {0})
  pub boot_spec : S → Bytes → S × Result E BootSpec
  pub file : Bytes → Result E (Content × Bytes)
