-- ===== src/Base64/RoundTrip.antt =====
-- Decoding reads back what was encoded, and an encoding has only digits and padding.
use pixiecore.Base64.{
  digit, digit_value, encode, join4, join3, join2, decode_groups, drop_breaks, decode,
}
use pixiecore.Prelude.{
  ℕ, ◌+◌, ◌*◌, ◌/◌, ◌%◌, ◌≤◌, ◌<◌, [], ◌∷◌, some, ◌≡◌, ◌≢◌, refl, arith, Bytes, All, IsBytes,
  ne→not-==,
}

-- A digit or padding: no separator of a path, a list or a line.
pub record IsSymbol (c : ℕ) : Type 0 where
  pub low : b'-' ≤ c
  pub high : c ≤ b'z'
  pub no_slash : c ≢ b'/'
  pub no_dot : c ≢ b'.'

digit_value-digit : (v : ℕ) → v < 64 → digit_value (digit v) ≡ some v
digit_value-digit v h = ground arith

digit-ne-pad : (v : ℕ) → v < 64 → digit v ≢ b'='
digit-ne-pad v h = ground arith

digit-IsSymbol : (v : ℕ) → IsSymbol (digit v)
digit-IsSymbol v = ground arith

pad-IsSymbol : IsSymbol b'='
pad-IsSymbol = ground arith

pub encode-IsSymbol : (s : Bytes) → All IsSymbol (encode s)
unfolding encode
encode-IsSymbol [] = tt
encode-IsSymbol (a ∷ []) =
    (digit-IsSymbol (a / 4), (digit-IsSymbol (a % 4 * 16), (pad-IsSymbol, (pad-IsSymbol, tt))))
encode-IsSymbol (a ∷ b ∷ []) = (
  digit-IsSymbol (a / 4),
  (digit-IsSymbol (a % 4 * 16 + b / 16), (digit-IsSymbol (b % 16 * 4), (pad-IsSymbol, tt))),
)
encode-IsSymbol (a ∷ b ∷ c ∷ s) = (
  digit-IsSymbol (a / 4),
  (
    digit-IsSymbol (a % 4 * 16 + b / 16),
    (digit-IsSymbol (b % 16 * 4 + c / 64), (digit-IsSymbol (c % 64), encode-IsSymbol s)),
  ),
)

drop_breaks-symbols : (s : Bytes) → All IsSymbol s → drop_breaks s ≡ s
unfolding drop_breaks
drop_breaks-symbols [] h = refl
drop_breaks-symbols (c ∷ s) (sym, h) = ground (arith, sym.low, drop_breaks-symbols s h)

join2-bytes : (a : ℕ) → a < 256 → join2 (some (a / 4)) (some (a % 4 * 16)) ≡ some (a ∷ [])
join2-bytes a p = let e : a / 4 * 4 + a % 4 * 16 / 16 ≡ a = omega arith in rw e

join3-bytes :
    (a b : ℕ)
    → a < 256
    → b < 256
    → join3 (some (a / 4)) (some (a % 4 * 16 + b / 16)) (some (b % 16 * 4)) ≡ some (a ∷ b ∷ [])
join3-bytes a b p q =
    let e : a / 4 * 4 + (a % 4 * 16 + b / 16) / 16 ≡ a = omega arith in
    let f : (a % 4 * 16 + b / 16) % 16 * 16 + b % 16 * 4 / 4 ≡ b = omega arith in rw (e, f)

join4-bytes :
    (a b c : ℕ) (s : Bytes)
    → a < 256
    → b < 256
    → c < 256
    → join4
        (some (a / 4))
        (some (a % 4 * 16 + b / 16))
        (some (b % 16 * 4 + c / 64))
        (some (c % 64))
        (some s)
      ≡ some (a ∷ b ∷ c ∷ s)
join4-bytes a b c s p q r =
    let e : a / 4 * 4 + (a % 4 * 16 + b / 16) / 16 ≡ a = omega arith in
    let f : (a % 4 * 16 + b / 16) % 16 * 16 + (b % 16 * 4 + c / 64) / 4 ≡ b = omega arith in
    let g : (b % 16 * 4 + c / 64) % 4 * 64 + c % 64 ≡ c = omega arith in rw (e, f, g)

decode_groups-encode : (s : Bytes) → IsBytes s → decode_groups (encode s) ≡ some s
unfolding encode decode_groups
decode_groups-encode [] h = refl
decode_groups-encode (a ∷ []) (p, _) =
    rw (digit_value-digit (a / 4) (omega arith), digit_value-digit (a % 4 * 16) (omega arith))
      (join2-bytes a p)
decode_groups-encode (a ∷ b ∷ []) (p, (q, _)) =
    rw
      (
        ne→not-== _ _ (digit-ne-pad (b % 16 * 4) (omega arith)),
        digit_value-digit (a / 4) (omega arith),
        digit_value-digit (a % 4 * 16 + b / 16) (omega arith),
        digit_value-digit (b % 16 * 4) (omega arith),
      )
      (join3-bytes a b p q)
decode_groups-encode (a ∷ b ∷ c ∷ s) (p, (q, (r, h))) =
    rw
      (
        ne→not-== _ _ (digit-ne-pad (c % 64) (omega arith)),
        digit_value-digit (a / 4) (omega arith),
        digit_value-digit (a % 4 * 16 + b / 16) (omega arith),
        digit_value-digit (b % 16 * 4 + c / 64) (omega arith),
        digit_value-digit (c % 64) (omega arith),
        decode_groups-encode s h,
      )
      (join4-bytes a b c s p q r)

pub decode-encode : (s : Bytes) → IsBytes s → decode (encode s) ≡ some s
unfolding decode
decode-encode s h =
    rw (drop_breaks-symbols (encode s) (encode-IsSymbol s)) (decode_groups-encode s h)
