-- ===== src/Filepath.antt =====
-- `filepath.Base` on Unix, as http/http.go uses it.
pub mod Last
pub mod Clean
use pixiecore.Prelude.{
  ℕ, Bool, true, false, ◌&&◌, ◌||◌, [], ◌∷◌, ◌≡◌, refl, Bytes, codes, ◌==◌, if◌then◌else◌,
}

abbrev pub slash : ℕ
slash = b'/'

unfoldable pub has_slash : Bytes → Bool
has_slash [] = false
has_slash (c ∷ s) = c == slash || has_slash s

abbrev pub is_empty : Bytes → Bool
is_empty [] = true
is_empty (c ∷ s) = false

-- without the slashes at the end
unfoldable pub trim_slashes : Bytes → Bytes
trim_slashes [] = []
trim_slashes (c ∷ s) =
    let rest = trim_slashes s in if c == slash && is_empty rest then [] else c ∷ rest

-- what stands behind the last slash
unfoldable pub after_slash : Bytes → Bytes
unfolding has_slash
after_slash [] = []
after_slash (c ∷ s) =
    let rest = after_slash s in if has_slash s then rest else if c == slash then s else c ∷ s

-- `filepath.Base`
unfoldable pub base : Bytes → Bytes
unfolding after_slash trim_slashes
base path =
    if is_empty path
    then b'.' ∷ []
    else (let name = after_slash (trim_slashes path) in if is_empty name then slash ∷ [] else name)

runs :
    (base (codes "/f/a2VybmVs") ≡ codes "a2VybmVs")
    × (base (codes "/pxelinux.cfg//01-52//") ≡ codes "01-52")
    × (base (codes "//") ≡ codes "/")
    × (base [] ≡ codes ".")
unfolding base
runs = (refl, refl, refl, refl)
