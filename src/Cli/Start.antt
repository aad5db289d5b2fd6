-- ===== src/Cli/Start.antt =====
-- pixiecore/pixiecore.go: `main`, up to the servers that it starts.
pub mod Started
pub mod Booted
pub mod Embedded
use pixiecore.Cli.{Flags, PickError, Picked, pick_booter}
use pixiecore.Strconv.{int_text}
use pixiecore.Tftp.Transfer.{Handler, blob}
use pixiecore.Prelude.{ℤ, Bool, ◌∷◌, Bytes, codes, Result, ok, err, fault}

-- The flags that have a default: the ports, and whether debugging lines are logged.
pub record Ports : Type 0 where
  pub dhcp : ℤ
  pub pxe : ℤ
  pub tftp : ℤ
  pub http : ℤ
  pub debug : Bool

-- The arguments of the calls that `main` makes.
pub record DhcpServer : Type 0 where
  pub port : ℤ
  pub booter : Picked

pub record PxeServer : Type 0 where
  pub port : ℤ
  pub http_port : ℤ

pub record TftpServer : Type 0 where
  pub address : Bytes
  pub handler : Handler

pub record HttpServer : Type 0 where
  pub port : ℤ
  pub booter : Picked
  pub ldlinux : Bytes

pub record Servers : Type 0 where
  pub dhcp : DhcpServer
  pub pxe : PxeServer
  pub tftp : TftpServer
  pub http : HttpServer
  pub debug : Bool

-- How `main` goes on: with status 1 and the usage or the error of an asset, or with the servers.
pub data Start (E A : Type 0) : Type 0 where
  usage : PickError E → Start E A
  no_asset : A → Start E A
  serving : Servers → Start E A
  panic : Start E A

-- The servers for a booter and the two embedded files.
unfoldable pub servers : Ports → Picked → Bytes → Bytes → Servers
servers p booter pxelinux ldlinux = record {
  dhcp = record { port = p.dhcp; booter = booter };
  pxe = record { port = p.pxe; http_port = p.http };
  tftp = record { address = b':' ∷ int_text p.tftp; handler = blob pxelinux };
  http = record { port = p.http; booter = booter; ldlinux = ldlinux };
  debug = p.debug;
}

-- `asset` is what go-bindata generates.
module _ {E A : Type 0} (asset : Bytes → Result A Bytes) (p : Ports) where
  unfoldable pub with_ldlinux : Picked → Bytes → Result A Bytes → Start E A
  with_ldlinux booter pxelinux (ok ldlinux) = serving (servers p booter pxelinux ldlinux)
  with_ldlinux booter pxelinux (err e) = no_asset e
  with_ldlinux booter pxelinux fault = panic

  unfoldable pub with_pxelinux : Picked → Result A Bytes → Start E A
  unfolding with_ldlinux
  with_pxelinux booter (ok pxelinux) = with_ldlinux booter pxelinux (asset (codes "ldlinux.c32"))
  with_pxelinux booter (err e) = no_asset e
  with_pxelinux booter fault = panic

  unfoldable pub with_booter : Result (PickError E) Picked → Start E A
  unfolding with_pxelinux
  with_booter (ok booter) = with_pxelinux booter (asset (codes "lpxelinux.0"))
  with_booter (err e) = usage e
  with_booter fault = panic

  -- `main`; the state is the source of randomness
  unfoldable pub start : Flags → Bytes → Bytes × Start E A
  unfolding with_booter
  start f random = let picked = pick_booter f random in (picked.0, with_booter picked.1)
