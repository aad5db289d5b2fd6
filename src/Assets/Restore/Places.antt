-- ===== src/Assets/Restore/Places.antt =====
-- assets/pxelinux_autogen.go: the paths that the embedded files are written to.
use pixiecore.Assets.Loading.{name_of, name_of-Lacks}
use pixiecore.Assets.Restore.{file_path}
use pixiecore.Assets.{Generator, ldlinux_c32, lpxelinux_0, ldlinux_name, lpxelinux_name, canonical}
use pixiecore.Filepath.{slash}
use pixiecore.Filepath.Clean.{dir_part, enter, walked, above, shown, clean, join_paths}
use pixiecore.Strings.{split, join, replace}
use pixiecore.Strings.Splitting.{split-Lacks, split-concat}
use pixiecore.Prelude.{
  codes, ℕ, Bool, false, List, [], ◌∷◌, ◌++◌, ◌≡◌, ◌≢◌, ◌⊎◌, inl, inr, refl, sym, ap, ◌∙◌, arith,
  Bytes, get_or, equal, ◌==◌, length, drop, drop-append,
}

names_differ : ldlinux_name ≢ lpxelinux_name
names_differ h = omega (arith, ap (λ (s : Bytes). get_or s 1 0) h)

pub name_of-injective : (g k : Generator) → name_of g ≡ name_of k → g ≡ k
name_of-injective ldlinux_c32 ldlinux_c32 h = refl
name_of-injective ldlinux_c32 lpxelinux_0 h = absurd (names_differ h)
name_of-injective lpxelinux_0 ldlinux_c32 h = absurd (names_differ (sym h))
name_of-injective lpxelinux_0 lpxelinux_0 h = refl

append-injective : (xs ys zs : Bytes) → xs ++ ys ≡ xs ++ zs → ys ≡ zs
append-injective xs ys zs h = sym (drop-append xs ys) ∙ ap (drop (length xs)) h ∙ drop-append xs zs

walked-append :
    (rooted : Bool) (parts xs ys : List Bytes)
    → walked rooted parts (xs ++ ys) ≡ walked rooted (walked rooted parts xs) ys
unfolding walked
walked-append rooted parts [] ys = refl
walked-append rooted parts (x ∷ xs) ys = walked-append rooted (enter rooted x parts) xs ys

shown-name :
    (rooted : Bool) (parts : List Bytes) (g : Generator)
    → shown rooted (walked rooted parts (name_of g ∷ [])) ≡ above rooted parts ++ name_of g
unfolding shown walked enter equal
shown-name rooted parts ldlinux_c32 = refl
shown-name rooted parts lpxelinux_0 = refl

file_path-join :
    (dir : Bytes) (g : Generator) → file_path dir (name_of g) ≡ join_paths (dir ∷ name_of g ∷ [])
unfolding file_path canonical replace split
file_path-join dir ldlinux_c32 = refl
file_path-join dir lpxelinux_0 = refl

clean-name :
    (c : ℕ) (dir : Bytes) (g : Generator)
    → clean (c ∷ dir ++ (slash ∷ name_of g))
      ≡ above (c == slash) (walked (c == slash) [] (split slash (c ∷ dir))) ++ name_of g
unfolding clean
clean-name c dir g =
    let rooted = c == slash in
    ap (λ parts. shown rooted (walked rooted [] parts))
      (split-concat slash (c ∷ dir) (name_of g)
        ∙ ap (◌++◌ (split slash (c ∷ dir))) (split-Lacks slash (name_of g) (name_of-Lacks g)))
    ∙ ap (shown rooted) (walked-append rooted [] (split slash (c ∷ dir)) (name_of g ∷ []))
    ∙ shown-name rooted (walked rooted [] (split slash (c ∷ dir))) g

pub child-name : (g : Generator) → join_paths ([] ∷ name_of g ∷ []) ≡ name_of g
unfolding join_paths clean join split walked enter shown equal
child-name ldlinux_c32 = refl
child-name lpxelinux_0 = refl

-- The paths of the embedded files differ in their names alone.
file_path-above :
    (dir : Bytes)
    → (front : Bytes) × ((g : Generator) → file_path dir (name_of g) ≡ front ++ name_of g)
unfolding join_paths join above
file_path-above [] = (above false [], λ g. file_path-join [] g ∙ child-name g)
file_path-above (c ∷ dir) = (
  above (c == slash) (walked (c == slash) [] (split slash (c ∷ dir))),
  λ g. file_path-join (c ∷ dir) g ∙ clean-name c dir g,
)

-- The path of a name under a directory; without one, the name.
abbrev pub under : Bytes → Bytes → Bytes
under [] name = name
under (c ∷ dir) name = clean (c ∷ dir ++ (slash ∷ name))

pub file_path-under :
    (dir : Bytes) (g : Generator) → file_path dir (name_of g) ≡ under dir (name_of g)
unfolding join_paths join
file_path-under [] g = file_path-join [] g ∙ child-name g
file_path-under (c ∷ dir) g = file_path-join (c ∷ dir) g

pub file_path-parent :
    (dir : Bytes) (g : Generator) → file_path dir (dir_part (name_of g)) ≡ under dir (codes ".")
unfolding file_path dir_part canonical replace split join_paths join clean walked enter shown equal
file_path-parent [] ldlinux_c32 = refl
file_path-parent [] lpxelinux_0 = refl
file_path-parent (c ∷ dir) ldlinux_c32 = refl
file_path-parent (c ∷ dir) lpxelinux_0 = refl

pub file_path-injective :
    (dir : Bytes) (g k : Generator) → file_path dir (name_of g) ≡ file_path dir (name_of k) → g ≡ k
file_path-injective dir g k h =
    let (front, at) = file_path-above dir in
    name_of-injective g k (append-injective front (name_of g) (name_of k) (sym (at g) ∙ h ∙ at k))

pub Generator-cases : (g k : Generator) → (k ≡ g) ⊎ (k ≢ g)
Generator-cases ldlinux_c32 ldlinux_c32 = inl refl
Generator-cases ldlinux_c32 lpxelinux_0 = inr (λ h. cc)
Generator-cases lpxelinux_0 ldlinux_c32 = inr (λ h. cc)
Generator-cases lpxelinux_0 lpxelinux_0 = inl refl
