-- ===== src/Filepath/Last.antt =====
-- The last element of a path is the name that was put there.
use pixiecore.Filepath.{slash, has_slash, is_empty, trim_slashes, after_slash, base}
use pixiecore.Prelude.{
  ℕ, true, false, [], ◌∷◌, ◌++◌, ◌≡◌, ◌≢◌, refl, arith, Bytes, Lacks, ne→not-==,
}

Lacks-has_slash : (s : Bytes) → Lacks slash s → has_slash s ≡ false
unfolding has_slash
Lacks-has_slash [] h = refl
Lacks-has_slash (c ∷ s) (p, h) = rw (ne→not-== c slash p) (Lacks-has_slash s h)

-- a name: not empty, and without a slash
trim_slashes-name : (s : Bytes) → Lacks slash s → trim_slashes s ≡ s
unfolding trim_slashes
trim_slashes-name [] h = refl
trim_slashes-name (c ∷ s) (p, h) = rw (ne→not-== c slash p, trim_slashes-name s h)

append-ne-nil : (dir s : Bytes) → s ≢ [] → dir ++ s ≢ []
append-ne-nil [] s ne = ne
append-ne-nil (c ∷ dir) s ne = λ e. cc

not-empty : (s : Bytes) → s ≢ [] → is_empty s ≡ false
not-empty [] ne = absurd (ne refl)
not-empty (c ∷ s) ne = refl

trim_slashes-cons : (c : ℕ) (s : Bytes) → s ≢ [] → trim_slashes s ≡ s → trim_slashes (c ∷ s) ≡ c ∷ s
unfolding trim_slashes
trim_slashes-cons c s ne h = rw (h, not-empty s ne) (ground arith)

trim_slashes-append :
    (dir s : Bytes) → s ≢ [] → trim_slashes s ≡ s → trim_slashes (dir ++ s) ≡ dir ++ s
trim_slashes-append [] s ne h = h
trim_slashes-append (c ∷ dir) s ne h =
    trim_slashes-cons c (dir ++ s) (append-ne-nil dir s ne) (trim_slashes-append dir s ne h)

has_slash-append : (dir s : Bytes) → has_slash (dir ++ (slash ∷ s)) ≡ true
unfolding has_slash
has_slash-append [] s = refl
has_slash-append (c ∷ dir) s = ground (arith, has_slash-append dir s)

after_slash-append :
    (dir name : Bytes) → Lacks slash name → after_slash (dir ++ (slash ∷ name)) ≡ name
unfolding after_slash
after_slash-append [] name h = rw (Lacks-has_slash name h)
after_slash-append (c ∷ dir) name h = rw (has_slash-append dir name) (after_slash-append dir name h)

pub base-append :
    (dir name : Bytes) → name ≢ [] → Lacks slash name → base (dir ++ (slash ∷ name)) ≡ name
unfolding base
base-append dir name ne h =
    let some_name : slash ∷ name ≢ [] = λ e. cc in
    rw (
      not-empty _ (append-ne-nil dir (slash ∷ name) some_name),
      trim_slashes-append dir (slash ∷ name) some_name
          (trim_slashes-cons slash name ne (trim_slashes-name name h)),
      after_slash-append dir name h,
      not-empty name ne,
    )
