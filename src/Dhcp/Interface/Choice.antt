-- ===== src/Dhcp/Interface/Choice.antt =====
-- dhcp/dhcp.go: which address `InterfaceIP` chooses.
use mathlib.Core.Path.{subst}
use pixiecore.Dhcp.Interface.{
  IfaceAddr, ip_net, other_addr, to4, is_global, is_link_local, is_loopback, first_addr, first_of,
  choose_addr, try_addr,
}
use pixiecore.Prelude.{
  ℕ, suc, ◌≤◌, ◌<◌, Bool, true, false, List, [], ◌∷◌, ◌++◌, Option, none, some, ◌≡◌, refl, ap,
  arith, Bytes, All, All-split, if◌then◌else◌,
}

abbrev pub with_v4 : Option Bytes → List Bytes → List Bytes
with_v4 none ips = ips
with_v4 (some ip) ips = ip ∷ ips

-- The IPv4 addresses among the addresses of an interface, in order.
abbrev pub ipv4s : List IfaceAddr → List Bytes
ipv4s [] = []
ipv4s (other_addr ∷ addresses) = ipv4s addresses
ipv4s (ip_net a ∷ addresses) = with_v4 (to4 a) (ipv4s addresses)

-- How an address is preferred: 0 for a global address, 1 for a link-local one, 2 for loopback, and 3
-- for an address of no use.
unfoldable pub rank : Bytes → ℕ
rank ip =
    if is_global ip then 0 else if is_link_local ip then 1 else if is_loopback ip then 2 else 3

-- `chosen` is the first of the addresses of the least rank, if one is of use.
abbrev pub Picks : List Bytes → Option Bytes → Type 0
Picks ips none = All (λ x. rank x ≡ 3) ips
Picks ips (some ip) =
    (before after : List Bytes) × (ips ≡ before ++ (ip ∷ after))
    × (rank ip < 3)
    × All (λ x. rank ip < rank x) before
    × All (λ x. rank ip ≤ rank x) after

-- the first that `f` holds for, with `f` false before it
abbrev Firsts : (Bytes → Bool) → List Bytes → Option Bytes → Type 0
Firsts f ips none = All (λ x. f x ≡ false) ips
Firsts f ips (some ip) =
    (before after : List Bytes) × (ips ≡ before ++ (ip ∷ after))
    × (f ip ≡ true)
    × All (λ x. f x ≡ false) before

try_addr-Firsts :
    (f : Bytes → Bool) (o : Option Bytes) (ips : List Bytes) (rest : Option Bytes)
    → Firsts f ips rest
    → Firsts f (with_v4 o ips) (try_addr f o rest)
try_addr-Firsts f none ips rest h = h
try_addr-Firsts f (some ip) ips rest h = by_test (f ip) refl rest h
  where
    by_test :
        (b : Bool)
        → f ip ≡ b
        → (r : Option Bytes) → Firsts f ips r
        → Firsts f (ip ∷ ips) (if b then some ip else r)
    by_test true e r h = ([], ips, refl, e, tt)
    by_test false e none h = (e, h)
    by_test false e (some x) (before, after, s, t, u) =
        (ip ∷ before, after, ap (◌∷◌ ip) s, t, (e, u))

first_addr-Firsts :
    (f : Bytes → Bool) (addresses : List IfaceAddr)
    → Firsts f (ipv4s addresses) (first_addr f addresses)
unfolding first_addr
first_addr-Firsts f [] = tt
first_addr-Firsts f (other_addr ∷ addresses) = first_addr-Firsts f addresses
first_addr-Firsts f (ip_net a ∷ addresses) =
    try_addr-Firsts f (to4 a) _ _ (first_addr-Firsts f addresses)

All-both :
    {P Q R : Bytes → Type 0} (ips : List Bytes)
    → ((x : Bytes) → P x → Q x → R x)
    → All P ips
    → All Q ips
    → All R ips
All-both [] f _ _ = tt
All-both (x ∷ ips) f (p, ps) (q, qs) = (f x p q, All-both ips f ps qs)

-- `f` holds for the addresses of rank `k`, where no lower rank is left.
abbrev IsTest : ℕ → (Bytes → Bool) → Type 0
IsTest k f = (x : Bytes) → k ≤ rank x → (f x ≡ true → rank x ≡ k) × (f x ≡ false → k < rank x)

-- One round of the outer loop.
first_of-Picks :
    (k : ℕ) (f : Bytes → Bool) (ips : List Bytes) (o rest : Option Bytes)
    → k < 3
    → IsTest k f
    → Firsts f ips o
    → All (λ x. k ≤ rank x) ips
    → (All (λ x. suc k ≤ rank x) ips → Picks ips rest)
    → Picks ips (first_of o rest)
first_of-Picks k f ips none rest lt test h low more =
    more (All-both ips (λ x p q. omega (arith, (test x p).1 q)) low h)
first_of-Picks k f ips (some ip) rest lt test (before, after, s, t, u) low more =
    let (low₁, (low₂, low₃)) =
      All-split (λ x. k ≤ rank x) before (ip ∷ after) (subst (All (λ x. k ≤ rank x)) s low) in
    let here : rank ip ≡ k = (test ip low₂).0 t in
    (
      before,
      after,
      s,
      omega arith,
      All-both before (λ x p q. omega (arith, here, (test x p).1 q)) low₁ u,
      All-both after (λ x p q. omega (arith, here)) low₃ low₃,
    )

rank-le : (x : Bytes) → rank x ≤ 3
unfolding rank
rank-le x = ground arith

global-IsTest : IsTest 0 is_global
unfolding rank
global-IsTest x h = ground arith

link_local-IsTest : IsTest 1 is_link_local
unfolding rank
link_local-IsTest x h = ground arith

loopback-IsTest : IsTest 2 is_loopback
unfolding rank
loopback-IsTest x h = ground arith

-- Of the IPv4 addresses of the interface, the loops choose the first of the least rank: a global
-- unicast address, or else a link-local, or else a loopback one; and they choose none only when
-- every address is of no use.
pub choose_addr-Picks :
    (addresses : List IfaceAddr)
    → Picks (ipv4s addresses) (choose_addr (is_global ∷ is_link_local ∷ is_loopback ∷ []) addresses)
unfolding choose_addr
choose_addr-Picks addresses =
    let ips = ipv4s addresses in
    first_of-Picks 0 is_global ips _ _ (omega arith) global-IsTest
      (first_addr-Firsts is_global addresses) (every ips)
      λ low₁.
        first_of-Picks 1 is_link_local ips _ _ (omega arith) link_local-IsTest
          (first_addr-Firsts is_link_local addresses) low₁
          λ low₂.
            first_of-Picks 2 is_loopback ips _ none (omega arith) loopback-IsTest
              (first_addr-Firsts is_loopback addresses) low₂
              λ low₃. All-both ips (λ x p q. omega (arith, rank-le x)) low₃ low₃
  where
    every : (ips : List Bytes) → All (λ x. 0 ≤ rank x) ips
    every [] = tt
    every (x ∷ ips) = (omega arith, every ips)
