-- ===== src/Tests/Booters.antt =====
-- api/api.go: a static booter with two initrds.
use pixiecore.Api.Static.{StaticBooter, static_booter, static_file}
use pixiecore.Strconv.{atoi, magnitude, scan_digits, signed}
use pixiecore.Prelude.{List, [], ◌∷◌, none, some, ◌≡◌, refl, Bytes, codes, equal}

abbrev two_initrds : List Bytes
two_initrds = codes "/a" ∷ codes "/b" ∷ []

abbrev local_booter : StaticBooter
local_booter = static_booter (codes "/k") two_initrds (codes "quiet")

abbrev a_machine : Bytes
a_machine = 2 ∷ 0 ∷ 0 ∷ 0 ∷ 0 ∷ 1 ∷ []

-- An opened file stands for its path.
abbrev os_open : Bytes → Bytes
os_open path = path

runs_file :
    (static_file os_open local_booter (codes "1") ≡ some (codes "/b", codes "initrd.1"))
    × (static_file os_open local_booter (codes "2") ≡ none)
    × (static_file os_open local_booter (codes "-1") ≡ none)
unfolding static_file atoi equal magnitude scan_digits signed
runs_file = (refl, refl, refl)

opens_b : static_file os_open local_booter (codes "1") ≡ some (codes "/b", codes "initrd.1")
unfolding static_file atoi equal magnitude scan_digits signed
opens_b = refl
