-- ===== src/Filepath/Clean.antt =====
-- `filepath.Clean`, `filepath.Join` and `filepath.Dir` on Unix, as assets/pxelinux_autogen.go uses them.
use pixiecore.Filepath.{slash, has_slash, is_empty}
use pixiecore.Strings.{split, join}
use pixiecore.Prelude.{
  Bool, false, ◌||◌, List, [], ◌∷◌, ◌++◌, ◌≡◌, refl, Bytes, codes, equal, ◌==◌, if◌then◌else◌,
}

-- `..` leaves the last part, if there is one to leave.
unfoldable pub leave : Bool → List Bytes → List Bytes
leave rooted [] = if rooted then [] else codes ".." ∷ []
leave rooted (part ∷ parts) = if equal part (codes "..") then codes ".." ∷ part ∷ parts else parts

unfoldable pub enter : Bool → Bytes → List Bytes → List Bytes
unfolding leave
enter rooted part parts =
    if is_empty part || equal part (codes ".")
    then parts
    else if equal part (codes "..")
    then leave rooted parts
    else part ∷ parts

-- the parts that are left, the last one first
unfoldable pub walked : Bool → List Bytes → List Bytes → List Bytes
unfolding enter
walked rooted parts [] = parts
walked rooted parts (part ∷ rest) = walked rooted (enter rooted part parts) rest

-- what stands in front of the last part
unfoldable pub above : Bool → List Bytes → Bytes
above rooted [] = if rooted then slash ∷ [] else []
above rooted (part ∷ parts) = above rooted parts ++ (part ++ (slash ∷ []))

unfoldable pub shown : Bool → List Bytes → Bytes
unfolding above
shown rooted [] = if rooted then slash ∷ [] else codes "."
shown rooted (part ∷ parts) = above rooted parts ++ part

abbrev pub is_rooted : Bytes → Bool
is_rooted [] = false
is_rooted (c ∷ path) = c == slash

-- `filepath.Clean`
unfoldable pub clean : Bytes → Bytes
unfolding walked shown split
clean path = shown (is_rooted path) (walked (is_rooted path) [] (split slash path))

-- `filepath.Join`: the empty elements in front are left out
unfoldable pub join_paths : List Bytes → Bytes
unfolding clean join
join_paths [] = []
join_paths ([] ∷ elements) = join_paths elements
join_paths ((c ∷ element) ∷ elements) = clean (join slash ((c ∷ element) ∷ elements))

-- up to the last slash
unfoldable pub up_to_slash : Bytes → Bytes
unfolding has_slash
up_to_slash [] = []
up_to_slash (c ∷ path) =
    let rest = up_to_slash path in if c == slash || has_slash path then c ∷ rest else []

-- `filepath.Dir`
unfoldable pub dir_part : Bytes → Bytes
unfolding up_to_slash clean
dir_part path = clean (up_to_slash path)

runs :
    (clean (codes "/a/./b//../c/") ≡ codes "/a/c")
    × (clean (codes "../../a") ≡ codes "../../a")
    × (clean [] ≡ codes ".")
    × (clean (codes "/..") ≡ codes "/")
    × (join_paths ([] ∷ codes "a" ∷ [] ∷ codes "b/" ∷ []) ≡ codes "a/b")
    × (dir_part (codes "/srv/ldlinux.c32") ≡ codes "/srv")
    × (dir_part (codes "ldlinux.c32") ≡ codes ".")
unfolding join_paths dir_part equal
runs = (refl, refl, refl, refl, refl, refl, refl)
