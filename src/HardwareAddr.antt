-- ===== src/HardwareAddr.antt =====
-- `net.ParseMAC` and `HardwareAddr.String`, as http/http.go and api/api.go use them.
pub mod RoundTrip
use pixiecore.Prelude.{
  ℕ, zero, suc, ◌+◌, ◌-◌, ◌*◌, ◌/◌, ◌%◌, Bool, true, false, ◌&&◌, ◌||◌, List, [], ◌∷◌, ◌++◌, Option,
  none, some, ◌≡◌, refl, Bytes, codes, length, get_elem?, drop, ltb, leb, ◌==◌, if◌then◌else◌,
}

abbrev pub hex_value : ℕ → Option ℕ
hex_value c =
    if leb b'0' c && leb c b'9'
    then some (c - b'0')
    else if leb b'a' c && leb c b'f'
    then some (c - b'a' + 10)
    else if leb b'A' c && leb c b'F'
    then some (c - b'A' + 10)
    else none

abbrev pub hex_digit : ℕ → ℕ
hex_digit v = if ltb v 10 then b'0' + v else b'a' + (v - 10)

abbrev pub hex_byte : Option ℕ → Option ℕ → Option ℕ
hex_byte (some u) (some v) = some (u * 16 + v)
hex_byte _ _ = none

abbrev pub push_byte : Option ℕ → Option Bytes → Option Bytes
push_byte (some b) (some bs) = some (b ∷ bs)
push_byte _ _ = none

-- The groups of two digits with `sep` between them.
unfoldable pub parse_pairs : ℕ → Bytes → Option Bytes
parse_pairs sep (h ∷ l ∷ []) = push_byte (hex_byte (hex_value h) (hex_value l)) (some [])
parse_pairs sep (h ∷ l ∷ c ∷ s) =
    let rest = parse_pairs sep s in
    if c == sep then push_byte (hex_byte (hex_value h) (hex_value l)) rest else none
parse_pairs sep [] = none
parse_pairs sep (h ∷ []) = none

-- The groups of four digits with `.` between them.
unfoldable pub parse_quads : Bytes → Option Bytes
parse_quads (a ∷ b ∷ c ∷ d ∷ []) =
    push_byte (hex_byte (hex_value a) (hex_value b))
      (push_byte (hex_byte (hex_value c) (hex_value d)) (some []))
parse_quads (a ∷ b ∷ c ∷ d ∷ e ∷ s) =
    let rest = parse_quads s in
    if e == b'.'
    then push_byte (hex_byte (hex_value a) (hex_value b))
        (push_byte (hex_byte (hex_value c) (hex_value d)) rest)
    else none
parse_quads [] = none
parse_quads (a ∷ []) = none
parse_quads (a ∷ b ∷ []) = none
parse_quads (a ∷ b ∷ c ∷ []) = none

-- a hardware address has 6 or 8 bytes, or 20
abbrev pub sized : Option Bytes → Option Bytes
sized none = none
sized (some hw) = if length hw == 6 || length hw == 8 || length hw == 20 then some hw else none

-- `net.ParseMAC`, with `none` for its error: the form is told by the character behind two digits
unfoldable pub parse_mac : Bytes → Option Bytes
unfolding parse_pairs parse_quads
parse_mac (a ∷ b ∷ c ∷ s) =
    if c == b':' || c == b'-'
    then sized (parse_pairs c (a ∷ b ∷ c ∷ s))
    else sized (parse_quads (a ∷ b ∷ c ∷ s))
parse_mac [] = none
parse_mac (a ∷ []) = none
parse_mac (a ∷ b ∷ []) = none

-- two digits for each byte, with `sep` between them
unfoldable pub mac_text : ℕ → Bytes → Bytes
mac_text sep [] = []
mac_text sep (b ∷ []) = hex_digit (b / 16) ∷ hex_digit (b % 16) ∷ []
mac_text sep (b ∷ c ∷ hw) = hex_digit (b / 16) ∷ hex_digit (b % 16) ∷ sep ∷ mac_text sep (c ∷ hw)

runs :
    (parse_mac (codes "52-54-00-aB-02-03") ≡ some (0x52 ∷ 0x54 ∷ 0 ∷ 0xab ∷ 2 ∷ 3 ∷ []))
    × (parse_mac (codes "5254.00ab.0203") ≡ some (0x52 ∷ 0x54 ∷ 0 ∷ 0xab ∷ 2 ∷ 3 ∷ []))
    × (parse_mac (codes "52-54:00-ab-02-03") ≡ none)
    × (parse_mac (codes "52-54-00") ≡ none)
    × (mac_text b':' (0x52 ∷ 0 ∷ 0xab ∷ []) ≡ codes "52:00:ab")
unfolding parse_mac mac_text
runs = (refl, refl, refl, refl, refl)
