-- ===== src/Strings.antt =====
-- Go's `strings` package on byte strings: `Split`, `Join`, `Replace`, `HasPrefix` and `HasSuffix`, for
-- separators of one byte.
pub mod Splitting
use pixiecore.Prelude.{
  ℕ, Bool, true, false, ◌&&◌, ◌||◌, List, [], ◌∷◌, ◌++◌, Option, none, some, ◌≡◌, refl, Bytes,
  codes, ◌==◌, if◌then◌else◌,
}

-- `c` in front of the first part
abbrev pub push_first : ℕ → List Bytes → List Bytes
push_first c [] = (c ∷ []) ∷ []
push_first c (part ∷ parts) = (c ∷ part) ∷ parts

-- `strings.Split`: at least one part
unfoldable pub split : ℕ → Bytes → List Bytes
split sep [] = [] ∷ []
split sep (c ∷ s) = let rest = split sep s in if c == sep then [] ∷ rest else push_first c rest

-- `strings.Join`
unfoldable pub join : ℕ → List Bytes → Bytes
join sep [] = []
join sep (part ∷ []) = part
join sep (part ∷ next ∷ parts) = part ++ (sep ∷ join sep (next ∷ parts))

-- `strings.Replace(s, old, new, -1)`
unfoldable pub replace : ℕ → Bytes → Bytes → Bytes
replace old new [] = []
replace old new (c ∷ s) = let rest = replace old new s in if c == old then new ++ rest else c ∷ rest

-- What follows `prefix` in a text that starts with it; `none` is `HasPrefix` false.
unfoldable pub after_prefix : Bytes → Bytes → Option Bytes
after_prefix [] s = some s
after_prefix (p ∷ prefix) [] = none
after_prefix (p ∷ prefix) (c ∷ s) =
    let rest = after_prefix prefix s in if p == c then rest else none

-- `strings.HasSuffix` of a suffix of one byte
unfoldable pub ends_with : ℕ → Bytes → Bool
ends_with b [] = false
ends_with b (c ∷ []) = c == b
ends_with b (c ∷ d ∷ s) = ends_with b (d ∷ s)

runs :
    (split b',' (codes "a,,b") ≡ codes "a" ∷ [] ∷ codes "b" ∷ [])
    × (join b',' (codes "a" ∷ codes "b" ∷ []) ≡ codes "a,b")
    × (replace b'\n' (codes "; ") (codes "a\nb\n") ≡ codes "a; b; ")
    × (after_prefix (codes "01-") (codes "01-52") ≡ some (codes "52"))
unfolding split join replace after_prefix
runs = (refl, refl, refl, refl)
