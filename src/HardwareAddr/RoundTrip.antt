-- ===== src/HardwareAddr/RoundTrip.antt =====
-- `ParseMAC` reads back an address in the form that pxelinux writes.
use pixiecore.HardwareAddr.{hex_value, hex_digit, hex_byte, parse_pairs, sized, parse_mac, mac_text}
use pixiecore.Prelude.{
  ℕ, ◌+◌, ◌*◌, ◌/◌, ◌%◌, ◌<◌, [], ◌∷◌, some, ◌≡◌, arith, Bytes, IsBytes, Lacks, ◌≢◌,
}

hex_value-digit : (v : ℕ) → v < 16 → hex_value (hex_digit v) ≡ some v
hex_value-digit v h = ground arith

hex_byte-digits :
    (b : ℕ)
    → b < 256
    → hex_byte (hex_value (hex_digit (b / 16))) (hex_value (hex_digit (b % 16))) ≡ some b
hex_byte-digits b h =
    let e : b / 16 * 16 + b % 16 ≡ b = omega arith in
    rw (hex_value-digit (b / 16) (omega arith), hex_value-digit (b % 16) (omega arith), e)

hex_digit-ne-slash : (v : ℕ) → hex_digit v ≢ b'/'
hex_digit-ne-slash v = ground arith

parse_pairs-mac_text :
    (sep b : ℕ) (hw : Bytes)
    → b < 256
    → IsBytes hw
    → parse_pairs sep (mac_text sep (b ∷ hw)) ≡ some (b ∷ hw)
unfolding parse_pairs mac_text
parse_pairs-mac_text sep b [] p h = rw (hex_byte-digits b p)
parse_pairs-mac_text sep b (c ∷ hw) p (q, h) =
    rw (hex_byte-digits b p, parse_pairs-mac_text sep c hw q h) (ground arith)

-- `h` says that the address has one of the sizes of a hardware address.
pub parse_mac-mac_text :
    (hw : Bytes) → IsBytes hw → sized (some hw) ≡ some hw → parse_mac (mac_text b'-' hw) ≡ some hw
parse_mac-mac_text [] _ h = cc
parse_mac-mac_text (b ∷ []) _ h = cc
parse_mac-mac_text (b ∷ c ∷ hw) (p, q) h =
    let read = parse_pairs-mac_text b'-' b (c ∷ hw) p q in unfold parse_mac mac_text in rw read h

-- Its characters are digits and dashes, and there are some.
pub mac_text-Lacks : (hw : Bytes) → IsBytes hw → Lacks b'/' (mac_text b'-' hw)
unfolding mac_text
mac_text-Lacks [] h = tt
mac_text-Lacks (b ∷ []) (p, h) = (hex_digit-ne-slash (b / 16), (hex_digit-ne-slash (b % 16), tt))
mac_text-Lacks (b ∷ c ∷ hw) (p, h) = (
  hex_digit-ne-slash (b / 16),
  (hex_digit-ne-slash (b % 16), (omega arith, mac_text-Lacks (c ∷ hw) h)),
)
