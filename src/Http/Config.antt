-- ===== src/Http/Config.antt =====
-- http/http.go: `PxelinuxConfig`.
pub mod Reading
use pixiecore.Api.{BootSpec, Booter}
use pixiecore.Base64.{encode}
use pixiecore.Filepath.{base}
use pixiecore.HardwareAddr.{parse_mac}
use pixiecore.Http.{Response, answered, aborted, http_error}
use pixiecore.Strings.{join, replace, after_prefix}
use pixiecore.Prelude.{
  ℕ, [], ◌∷◌, ◌++◌, map, Option, none, some, Bytes, codes, Result, ok, err, fault,
}

abbrev pub boot_from_disk : Bytes
boot_from_disk = codes "\nDEFAULT local\nLABEL local\nLOCALBOOT 0\n"

abbrev pub limerick : Bytes
limerick =
    codes "\n\t        There once was a protocol called PXE,\n"
    ++ (codes "\t        Whose specification was overly tricksy.\n"
        ++ (codes "\t        A committee refined it,\n"
            ++ (codes "\t        Into a big Turing tarpit,\n"
                ++ codes "\t        And now you're using it to boot your PC.\n")))

-- the path of a file below the server's URL
abbrev pub link : Bytes → Bytes
link id = codes "f/" ++ encode id

-- `spec` with its ids turned into links
abbrev pub link_spec : BootSpec → BootSpec
link_spec spec = record spec { kernel = link spec.kernel; initrd = map link spec.initrd }

-- the start of the configuration, up to the kernel's line
unfoldable pub preamble : Bytes
preamble =
    codes "\nSAY "
    ++ (replace b'\n' (codes "\nSAY ") limerick ++ codes "\nDEFAULT linux\nLABEL linux")

-- `cfg`, of the linked boot spec
unfoldable pub config_text : BootSpec → Bytes
config_text spec =
    preamble
    ++ (b'\n'
        ∷ (codes "LINUX "
            ++ (spec.kernel
                ++ (b'\n'
                    ∷ (codes "APPEND initrd="
                        ++ (join b',' spec.initrd ++ (b' ' ∷ (spec.cmdline ++ (b'\n' ∷ [])))))))))

abbrev pub plain_text : Bytes
plain_text = codes "text/plain"

-- the end of the handler, on what `BootSpec` returned
unfoldable pub config_of : {E : Type 0} → Result E BootSpec → Response
config_of (ok spec) = answered 200 plain_text (config_text (link_spec spec))
config_of (err e) = answered 200 plain_text boot_from_disk
config_of fault = aborted

module _ {S E : Type 0} (booter : Booter S E) where
  unfoldable pub config_for : S → Option Bytes → S × Response
  config_for s none = (s, http_error (codes "Malformed MAC address in request") 400)
  config_for s (some mac) = let (s', spec) = booter.boot_spec s mac in (s', config_of spec)

  unfoldable pub config_named : S → Option Bytes → S × Response
  config_named s none = (s, http_error (codes "Missing MAC address in request") 400)
  config_named s (some mac_str) = config_for s (parse_mac mac_str)

  -- `PxelinuxConfig`, for a path
  unfoldable pub pxelinux_config : S → Bytes → S × Response
  pxelinux_config s path = config_named s (after_prefix (codes "01-") (base path))
