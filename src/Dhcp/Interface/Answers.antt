-- ===== src/Dhcp/Interface/Answers.antt =====
-- dhcp/dhcp.go: what `InterfaceIP` returns.
use mathlib.Core.Path.{subst}
use pixiecore.Dhcp.Interface.Choice.{with_v4, ipv4s, Picks, choose_addr-Picks}
use pixiecore.Dhcp.Interface.{
  IfaceAddr, ip_net, other_addr, Iface, InterfaceError, os_error, no_usable, to4, is_global,
  is_link_local, is_loopback, choose_addr, from_os, interface_ip,
}
use pixiecore.Prelude.{
  ℕ, List, [], ◌∷◌, Option, none, some, ◌≡◌, refl, arith, Bytes, All, All-split, length,
  length-drop, ◌⊎◌, inl, inr, Result, ok, err, fault, ◌>>=◌, or_err,
}

module _ {E : Type 0} (interface_by_index : ℕ → Result E (Iface E)) (i : ℕ) where
  -- The interface `i` is found, and lists these addresses.
  abbrev pub Lists : Iface E → List IfaceAddr → Type 0
  Lists iface addresses = (interface_by_index i ≡ ok iface) × (iface.addrs ≡ ok addresses)

  -- `r` is what the interfaces of the system call for.
  abbrev pub Answers : Result (InterfaceError E) Bytes → Type 0
  Answers (ok ip) =
      (iface : Iface E) × (addresses : List IfaceAddr) × Lists iface addresses
      × Picks (ipv4s addresses) (some ip)
  Answers (err (no_usable name)) =
      (iface : Iface E) × (addresses : List IfaceAddr) × Lists iface addresses
      × (name ≡ iface.name)
      × Picks (ipv4s addresses) none
  Answers (err (os_error e)) =
      (interface_by_index i ≡ err e)
      ⊎ ((iface : Iface E) × (interface_by_index i ≡ ok iface) × (iface.addrs ≡ err e))
  Answers fault =
      (interface_by_index i ≡ fault)
      ⊎ ((iface : Iface E) × (interface_by_index i ≡ ok iface) × (iface.addrs ≡ fault))

  chosen-Answers :
      (iface : Iface E) (addresses : List IfaceAddr) (o : Option Bytes)
      → Lists iface addresses
      → Picks (ipv4s addresses) o
      → Answers (or_err o (no_usable iface.name))
  chosen-Answers iface addresses none l p = (iface, addresses, l, refl, p)
  chosen-Answers iface addresses (some ip) l p = (iface, addresses, l, p)

  abbrev choice : Iface E → List IfaceAddr → Result (InterfaceError E) Bytes
  choice iface addresses =
      or_err (choose_addr (is_global ∷ is_link_local ∷ is_loopback ∷ []) addresses)
        (no_usable iface.name)

  listed-Answers :
      (iface : Iface E) (r : Result E (List IfaceAddr))
      → interface_by_index i ≡ ok iface
      → iface.addrs ≡ r
      → Answers (from_os r >>= choice iface)
  unfolding from_os
  listed-Answers iface (ok addresses) f e =
      chosen-Answers iface addresses _ (f, e) (choose_addr-Picks addresses)
  listed-Answers iface (err x) f e = inr (iface, f, e)
  listed-Answers iface fault f e = inr (iface, f, e)

  found-Answers :
      (r : Result E (Iface E))
      → interface_by_index i ≡ r
      → Answers (from_os r >>= λ iface. from_os iface.addrs >>= choice iface)
  unfolding from_os
  found-Answers (ok iface) e = listed-Answers iface iface.addrs e refl
  found-Answers (err x) e = inl e
  found-Answers fault e = inl e

  -- The result is an address only if the interface is found and lists it as the first of the least
  -- rank among its IPv4 addresses, with some use; the error that names the interface only if it is
  -- found and no IPv4 address of it is of use; and an error of the system only if looking up the
  -- interface or its addresses gave that error.
  pub interface_ip-Answers : Answers (interface_ip interface_by_index i)
  unfolding interface_ip
  interface_ip-Answers = found-Answers (interface_by_index i) refl

-- `To4` gives 4 bytes.
length-to4 : (a : Bytes) {ip : Bytes} → to4 a ≡ some ip → length ip ≡ 4
unfolding to4
length-to4 a h = ground (arith, length-drop 12 a)

ipv4s-length : (addresses : List IfaceAddr) → All (λ ip. length ip ≡ 4) (ipv4s addresses)
ipv4s-length [] = tt
ipv4s-length (other_addr ∷ addresses) = ipv4s-length addresses
ipv4s-length (ip_net a ∷ addresses) = with_length (to4 a) refl _ (ipv4s-length addresses)
  where
    with_length :
        (o : Option Bytes)
        → to4 a ≡ o
        → (ips : List Bytes) → All (λ ip. length ip ≡ 4) ips
        → All (λ ip. length ip ≡ 4) (with_v4 o ips)
    with_length none e ips h = h
    with_length (some ip) e ips h = (length-to4 a e, h)

pub length-interface_ip :
    {E : Type 0} (interface_by_index : ℕ → Result E (Iface E)) (i : ℕ) {ip : Bytes}
    → interface_ip interface_by_index i ≡ ok ip
    → length ip ≡ 4
length-interface_ip interface_by_index i h =
    let (_, addresses, _, (before, after, s, _, _, _)) =
      subst (Answers interface_by_index i) h (interface_ip-Answers interface_by_index i) in
    let four = subst (All (λ x. length x ≡ 4)) s (ipv4s-length addresses) in
    (All-split (λ x. length x ≡ 4) before (_ ∷ after) four).1.0
