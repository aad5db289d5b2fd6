-- ===== src/Dhcp/Parse.antt =====
-- dhcp/dhcp.go: `ParseDHCP`.
pub mod Safety
pub mod Checks
pub mod Accepts
use pixiecore.Dhcp.Options.{DhcpOpt, dhcp_option, walk}
use pixiecore.Dhcp.Packet.{DhcpPacket, dhcp_magic}
use pixiecore.Prelude.{
  ℕ, suc, Bool, true, false, not, ◌&&◌, [], ◌∷◌, Option, none, some, Bytes, length, ltb, ◌==◌,
  if◌then◌else◌, equal, slice, index, uint16, Result, ok, err, fault, ◌>>=◌, ◌>>◌, reject_if,
  or_err,
}

-- The errors of `ParseDHCP`; all but the first quote the hardware address.
pub data DhcpError : Type 0 where
  too_short : DhcpError
  not_bootp not_ethernet not_dhcp malformed_53 not_discover : Bytes → DhcpError
  malformed_93 not_x86 malformed_97 not_pxe : Bytes → DhcpError

-- `case 97`, the client's UUID, as both parsers treat it; `malformed` is the error
unfoldable pub parse_guid {ℓ} : {E : Type ℓ} → E → Bytes → Result E (Option Bytes)
parse_guid malformed val = do
  reject_if (not (length val == 17)) malformed
  z ← index val 0
  reject_if (not (z == 0)) malformed
  g ← slice val 1 (length val)
  ok (some g)

-- the `switch typ`; the last argument is `ret.GUID`, `none` for nil
unfoldable pub check_option : Bytes → ℕ → Bytes → Option Bytes → Result DhcpError (Option Bytes)
check_option mac typ val guid =
    if typ == 53
    then (do
      reject_if (not (length val == 1)) (malformed_53 mac)
      kind ← index val 0
      reject_if (not (kind == 1)) (not_discover mac)
      ok guid)
    else if typ == 93
    then (do
      reject_if (not (length val == 2)) (malformed_93 mac)
      arch ← uint16 val 0
      reject_if (not (arch == 0)) (not_x86 mac)
      ok guid)
    else if typ == 97
    then parse_guid (malformed_97 mac) val
    else ok guid

-- `ParseDHCP`
unfoldable pub parse_dhcp : Bytes → Result DhcpError DhcpPacket
parse_dhcp b = do
  reject_if (ltb (length b) 240) too_short
  tid ← slice b 4 8
  mac ← slice b 28 34
  op ← index b 0
  reject_if (not (op == 1)) (not_bootp mac)
  htype ← index b 1
  hlen ← index b 2
  reject_if (not (htype == 1) && not (hlen == 6)) (not_ethernet mac)
  magic ← slice b 236 240
  reject_if (not (equal magic dhcp_magic)) (not_dhcp mac)
  opts ← slice b 240 (length b)
  guid ← walk (check_option mac) (suc (length opts)) (dhcp_option opts) none
  g ← or_err guid (not_pxe mac)
  ok (record { tid = tid; mac = mac; guid = g; server_ip = [] })
