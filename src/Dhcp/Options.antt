-- ===== src/Dhcp/Options.antt =====
-- dhcp/dhcp.go: `DhcpOption`, and the loop over options that `ParseDHCP` and `ParsePXE` write.
pub mod Walk
pub mod Checks
use pixiecore.Prelude.{
  ℕ, zero, suc, Bool, true, false, [], ◌∷◌, Bytes, length, take, drop, ltb, ◌==◌, if◌then◌else◌,
  Result, ok, err, fault, ◌>>=◌,
}

-- the results `typ, val, next`
pub record DhcpOpt : Type 0 where
  pub typ : ℕ
  pub val : Bytes
  pub next : Bytes

-- `return 255, nil, nil`
abbrev pub no_option : DhcpOpt
no_option = record { typ = 255; val = []; next = [] }

-- `DhcpOption`; the length is compared with what is behind the two bytes
unfoldable pub dhcp_option : Bytes → DhcpOpt
dhcp_option [] = no_option
dhcp_option (t ∷ []) = no_option
dhcp_option (t ∷ l ∷ b) =
    if t == 255
    then no_option
    else if ltb (length b) l
    then no_option
    else record { typ = t; val = take l b; next = drop l b }

-- `for typ != 255 { …; typ, val, opts = DhcpOption(opts) }` on fuel, where `check` is the switch on
-- the type and `s` what it assigns
module _ {E S : Type 0} (check : ℕ → Bytes → S → Result E S) where
  unfoldable pub walk : ℕ → DhcpOpt → S → Result E S
  walk zero o s = fault
  walk (suc f) o s = elim (o.typ == 255) [
    | true ↦ ok s
    | false ↦ check o.typ o.val s >>= λ s'. walk f (dhcp_option o.next) s'
  ]
