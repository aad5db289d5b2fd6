-- ===== src/Base64.antt =====
-- `base64.URLEncoding`, as http/http.go uses it: `EncodeToString` and `DecodeString`.
pub mod RoundTrip
use pixiecore.Prelude.{
  ℕ, ◌+◌, ◌-◌, ◌*◌, ◌/◌, ◌%◌, Bool, true, false, ◌&&◌, ◌||◌, [], ◌∷◌, Option, none, some, ◌≡◌, refl,
  Bytes, codes, ltb, leb, ◌==◌, if◌then◌else◌,
}

-- the digit for a number below 64
abbrev pub digit : ℕ → ℕ
digit v =
    if ltb v 26
    then b'A' + v
    else if ltb v 52
    then b'a' + (v - 26)
    else if ltb v 62
    then b'0' + (v - 52)
    else if v == 62
    then b'-'
    else b'_'

abbrev pub digit_value : ℕ → Option ℕ
digit_value c =
    if leb b'A' c && leb c b'Z'
    then some (c - b'A')
    else if leb b'a' c && leb c b'z'
    then some (c - b'a' + 26)
    else if leb b'0' c && leb c b'9'
    then some (c - b'0' + 52)
    else if c == b'-'
    then some 62
    else if c == b'_'
    then some 63
    else none

-- `EncodeToString`: three bytes are four digits, and `=` fills up the last four
unfoldable pub encode : Bytes → Bytes
encode [] = []
encode (a ∷ []) = digit (a / 4) ∷ digit (a % 4 * 16) ∷ b'=' ∷ b'=' ∷ []
encode (a ∷ b ∷ []) = digit (a / 4) ∷ digit (a % 4 * 16 + b / 16) ∷ digit (b % 16 * 4) ∷ b'=' ∷ []
encode (a ∷ b ∷ c ∷ s) =
    digit (a / 4)
    ∷ digit (a % 4 * 16 + b / 16)
    ∷ digit (b % 16 * 4 + c / 64)
    ∷ digit (c % 64)
    ∷ encode s

-- the bytes of four digits, of three and of two; the bits that are left over are not looked at
abbrev pub join4 : Option ℕ → Option ℕ → Option ℕ → Option ℕ → Option Bytes → Option Bytes
join4 (some u) (some v) (some w) (some x) (some out) =
    some ((u * 4 + v / 16) ∷ (v % 16 * 16 + w / 4) ∷ (w % 4 * 64 + x) ∷ out)
join4 _ _ _ _ _ = none

abbrev pub join3 : Option ℕ → Option ℕ → Option ℕ → Option Bytes
join3 (some u) (some v) (some w) = some ((u * 4 + v / 16) ∷ (v % 16 * 16 + w / 4) ∷ [])
join3 _ _ _ = none

abbrev pub join2 : Option ℕ → Option ℕ → Option Bytes
join2 (some u) (some v) = some ((u * 4 + v / 16) ∷ [])
join2 _ _ = none

abbrev pub is_nil : Bytes → Bool
is_nil [] = true
is_nil (c ∷ s) = false

-- four characters at a time; padding stands at the end only
unfoldable pub decode_groups : Bytes → Option Bytes
decode_groups [] = some []
decode_groups (a ∷ b ∷ c ∷ d ∷ s) =
    let rest = decode_groups s in
    if d == b'=' && is_nil s
    then (if c == b'='
        then join2 (digit_value a) (digit_value b)
        else join3 (digit_value a) (digit_value b) (digit_value c))
    else join4 (digit_value a) (digit_value b) (digit_value c) (digit_value d) rest
decode_groups (a ∷ b ∷ c ∷ []) = none
decode_groups (a ∷ b ∷ []) = none
decode_groups (a ∷ []) = none

-- line breaks are passed over
unfoldable pub drop_breaks : Bytes → Bytes
drop_breaks [] = []
drop_breaks (c ∷ s) =
    let rest = drop_breaks s in if c == b'\n' || c == b'\r' then rest else c ∷ rest

-- `DecodeString`, with `none` for its error
unfoldable pub decode : Bytes → Option Bytes
unfolding decode_groups drop_breaks
decode s = decode_groups (drop_breaks s)

runs :
    (encode (codes "kernel") ≡ codes "a2VybmVs")
    × (encode (codes "1") ≡ codes "MQ==")
    × (decode (codes "MT\nI=") ≡ some (codes "12"))
    × (decode (codes "MQ=") ≡ none)
    × (decode (codes "MQ==MQ==") ≡ none)
    × (decode (codes "M=Q=") ≡ none)
unfolding encode decode
runs = (refl, refl, refl, refl, refl, refl)
