-- ===== src/Dhcp/Interface.antt =====
-- dhcp/dhcp.go: `InterfaceIP`, with the predicates of `net.IP` on an IPv4 address of 4 bytes.
pub mod Choice
pub mod Answers
use pixiecore.Prelude.{
  ℕ, ◌+◌, Bool, true, false, not, ◌&&◌, ◌||◌, List, [], ◌∷◌, ◌++◌, Option, none, some, Bytes,
  length, take, drop, get_or, replicate, zeros, ltb, ◌==◌, if◌then◌else◌, equal, Result, ok, err,
  fault, ◌>>=◌, or_err,
}

-- What `iface.Addrs` lists: an address with its mask, or an address of another kind.
pub data IfaceAddr : Type 0 where
  ip_net : Bytes → IfaceAddr
  other_addr : IfaceAddr

-- An interface: its name, and what `Addrs` returns, with the errors `E` of the system.
pub record Iface (E : Type 0) : Type 0 where
  pub name : Bytes
  pub addrs : Result E (List IfaceAddr)

-- The errors of `InterfaceIP`; the last one quotes the interface's name.
pub data InterfaceError (E : Type 0) : Type 0 where
  os_error : E → InterfaceError E
  no_usable : Bytes → InterfaceError E

-- an IPv4 address in IPv6 form starts so
abbrev pub v4_in_v6 : Bytes
v4_in_v6 = zeros 10 ++ (255 ∷ 255 ∷ [])

-- `IP.To4`
unfoldable pub to4 : Bytes → Option Bytes
to4 ip =
    if length ip == 4
    then some ip
    else if length ip == 16 && equal (take 12 ip) v4_in_v6
    then some (drop 12 ip)
    else none

abbrev pub octet : Bytes → ℕ → ℕ
octet ip i = get_or ip i 0

-- `IP.IsLoopback`
unfoldable pub is_loopback : Bytes → Bool
is_loopback ip = octet ip 0 == 127

-- `IP.IsLinkLocalUnicast`
unfoldable pub is_link_local : Bytes → Bool
is_link_local ip = octet ip 0 == 169 && octet ip 1 == 254

-- `IP.IsGlobalUnicast`: not the broadcast address, not 0.0.0.0, and in no range of its own
unfoldable pub is_global : Bytes → Bool
is_global ip =
    not (equal ip (replicate 4 255))
    && (not (equal ip (zeros 4))
        && (not (is_loopback ip)
            && (not (ltb 223 (octet ip 0) && ltb (octet ip 0) 240) && not (is_link_local ip))))

-- one round of the inner loop, whose other rounds return `rest`
abbrev pub try_addr : (Bytes → Bool) → Option Bytes → Option Bytes → Option Bytes
try_addr f none rest = rest
try_addr f (some ip) rest = if f ip then some ip else rest

-- the inner loop: the first IPv4 address for which `f` holds
unfoldable pub first_addr : (Bytes → Bool) → List IfaceAddr → Option Bytes
first_addr f [] = none
first_addr f (other_addr ∷ addresses) = first_addr f addresses
first_addr f (ip_net a ∷ addresses) = try_addr f (to4 a) (first_addr f addresses)

abbrev pub first_of : Option Bytes → Option Bytes → Option Bytes
first_of none rest = rest
first_of (some ip) rest = some ip

-- the outer loop, over the predicates
unfoldable pub choose_addr : List (Bytes → Bool) → List IfaceAddr → Option Bytes
choose_addr [] addresses = none
choose_addr (f ∷ fs) addresses = first_of (first_addr f addresses) (choose_addr fs addresses)

-- an error of the system is returned as it is
unfoldable pub from_os : {E A : Type 0} → Result E A → Result (InterfaceError E) A
from_os (ok a) = ok a
from_os (err e) = err (os_error e)
from_os fault = fault

-- `InterfaceIP`; `interface_by_index` is that of the system
unfoldable pub interface_ip :
    {E : Type 0} → (ℕ → Result E (Iface E)) → ℕ → Result (InterfaceError E) Bytes
interface_ip interface_by_index i = do
  iface ← from_os (interface_by_index i)
  addresses ← from_os iface.addrs
  or_err (choose_addr (is_global ∷ is_link_local ∷ is_loopback ∷ []) addresses)
      (no_usable iface.name)
