-- ===== src/Pxe/Parse.antt =====
-- pxe/pxe.go: `PXEPacket` and `ParsePXE`.
pub mod Safety
pub mod Accepts
use pixiecore.Dhcp.Options.{DhcpOpt, dhcp_option, walk}
use pixiecore.Dhcp.Packet.{DhcpPacket, dhcp_magic}
use pixiecore.Dhcp.Parse.{parse_guid}
use pixiecore.Prelude.{
  ℕ, zero, suc, Bool, true, false, not, [], ◌∷◌, Option, none, some, Bytes, length, ltb, ◌==◌,
  if◌then◌else◌, equal, slice, Result, ok, err, fault, ◌>>=◌, ◌>>◌, reject_if, or_err,
}

pub record PxePacket : Type 0 where
  pub dhcp : DhcpPacket
  pub open dhcp use *
  pub client_ip : Bytes
  pub boot_type : Bytes
  pub http_server : Bytes

-- The errors of `ParsePXE`; all but the first quote the hardware and the client's address.
pub data PxeError : Type 0 where
  too_short : PxeError
  not_dhcp malformed_97 not_pxe no_menu : Bytes → Bytes → PxeError

-- `ret.GUID` and `ret.BootType` while the options are read, `none` for nil
pub record Found : Type 0 where
  pub guid : Option Bytes
  pub boot_type : Option Bytes

-- The loop of `case 43`: the value of the first vendor option 71, else what was there before.
unfoldable pub find_boot_type : ℕ → DhcpOpt → Option Bytes → Result PxeError (Option Bytes)
find_boot_type zero o before = fault
find_boot_type (suc f) o before =
    let rest = find_boot_type f (dhcp_option o.next) before in
    if o.typ == 255 then ok before else if o.typ == 71 then ok (some o.val) else rest

-- the `switch typ`
unfoldable pub check_option : Bytes → Bytes → ℕ → Bytes → Found → Result PxeError Found
check_option mac ip typ val s =
    if typ == 43
    then (do
      bt ← find_boot_type (suc (length val)) (dhcp_option val) s.boot_type
      ok (record s { boot_type = bt }))
    else if typ == 97
    then (do g ← parse_guid (malformed_97 mac ip) val; ok (record s { guid = g }))
    else ok s

-- `ParsePXE`; the server's address and the HTTP server are set later
unfoldable pub parse_pxe : Bytes → Result PxeError PxePacket
parse_pxe b = do
  reject_if (ltb (length b) 240) too_short
  tid ← slice b 4 8
  mac ← slice b 28 34
  ip ← slice b 12 16
  magic ← slice b 236 240
  reject_if (not (equal magic dhcp_magic)) (not_dhcp mac ip)
  opts ← slice b 240 (length b)
  s ←
      walk (check_option mac ip) (suc (length opts)) (dhcp_option opts)
        (record { guid = none; boot_type = none })
  g ← or_err s.guid (not_pxe mac ip)
  bt ← or_err s.boot_type (no_menu mac ip)
  ok (record {
    dhcp = record { tid = tid; mac = mac; guid = g; server_ip = [] };
    client_ip = ip;
    boot_type = bt;
    http_server = [];
  })
