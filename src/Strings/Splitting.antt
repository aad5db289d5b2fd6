-- ===== src/Strings/Splitting.antt =====
-- Splitting a text at a separator that its parts lack.
use pixiecore.Strings.{push_first, split, join, after_prefix}
use pixiecore.Prelude.{
  ℕ, true, false, List, [], ◌∷◌, ◌++◌, some, ◌≡◌, refl, ap, ◌∙◌, arith, Bytes, All, Lacks, ◌==◌,
  ==_refl, ne→not-==, if◌then◌else◌,
}

-- A text without the separator is one part.
pub split-Lacks : (sep : ℕ) (s : Bytes) → Lacks sep s → split sep s ≡ s ∷ []
unfolding split
split-Lacks sep [] h = refl
split-Lacks sep (c ∷ s) (p, h) = rw (ne→not-== c sep p, split-Lacks sep s h)

pub split-append :
    (sep : ℕ) (part rest : Bytes)
    → Lacks sep part
    → split sep (part ++ (sep ∷ rest)) ≡ part ∷ split sep rest
unfolding split
split-append sep [] rest h = rw (==_refl sep)
split-append sep (c ∷ part) rest (p, h) = rw (ne→not-== c sep p, split-append sep part rest h)

pub split-ne-nil :
    (sep : ℕ) (s : Bytes) → (first : Bytes) × (parts : List Bytes) × (split sep s ≡ first ∷ parts)
unfolding split
split-ne-nil sep [] = ([], [], refl)
split-ne-nil sep (c ∷ s) =
    let (first, parts, e) = split-ne-nil sep s in
    elim (c == sep)
      as (λ b.
        (f : Bytes) × (ps : List Bytes) × ((if b
            then [] ∷ split sep s
            else push_first c (split sep s))
          ≡ f ∷ ps)) [ true ↦ ([], split sep s, refl) | false ↦ (c ∷ first, parts, rw e) ]

pub split-concat : (sep : ℕ) (s t : Bytes) → split sep (s ++ (sep ∷ t)) ≡ split sep s ++ split sep t
unfolding split
split-concat sep [] t = rw (==_refl sep)
split-concat sep (c ∷ s) t =
    let (first, parts, e) = split-ne-nil sep s in rw (split-concat sep s t, e) (ground arith)

pub split-join :
    (sep : ℕ) (part : Bytes) (parts : List Bytes)
    → All (Lacks sep) (part ∷ parts)
    → split sep (join sep (part ∷ parts)) ≡ part ∷ parts
unfolding join
split-join sep part [] (h, _) = split-Lacks sep part h
split-join sep part (next ∷ parts) (h, hs) =
    split-append sep part (join sep (next ∷ parts)) h ∙ ap (◌∷◌ part) (split-join sep next parts hs)

pub after_prefix-append : (prefix s : Bytes) → after_prefix prefix (prefix ++ s) ≡ some s
unfolding after_prefix
after_prefix-append [] s = refl
after_prefix-append (p ∷ prefix) s = rw (==_refl p) (after_prefix-append prefix s)
