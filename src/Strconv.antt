-- ===== src/Strconv.antt =====
-- Decimal numbers as the program reads and writes them: `strconv.Atoi`, `strconv.Itoa` and `%d`,
-- on a platform whose `int` has 64 bits.
pub mod RoundTrip
use pixiecore.Prelude.{
  ℕ, zero, suc, ◌+◌, ◌-◌, ◌*◌, ◌/◌, ◌%◌, ◌^◌, ◌<◌, Bool, true, false, ◌||◌, [], ◌∷◌, Option, none,
  some, ◌≡◌, refl, arith, Bytes, codes, ltb, ◌==◌, if◌then◌else◌, ℤ, pos, negsuc,
}

-- the digits of `s` behind the number `n`
unfoldable pub scan_digits : Bytes → ℕ → Option ℕ
scan_digits [] n = some n
scan_digits (c ∷ s) n =
    let rest = scan_digits s (n * 10 + (c - b'0')) in
    if ltb c b'0' || ltb b'9' c then none else rest

-- `strconv.ParseUint(s, 10, 64)` up to its bound: at least one digit, and nothing else
unfoldable pub magnitude : Bytes → Option ℕ
unfolding scan_digits
magnitude [] = none
magnitude (c ∷ s) = scan_digits (c ∷ s) 0

-- The range of int: -2^63 .. 2^63 - 1. Zero has no sign.
unfoldable pub signed : Bool → ℕ → Option ℤ
signed false n = if ltb n (2 ^ 63) then some (pos n) else none
signed true zero = some (pos 0)
signed true (suc n) = if ltb n (2 ^ 63) then some (negsuc n) else none

abbrev pub signed_of : Bool → Option ℕ → Option ℤ
signed_of sign none = none
signed_of sign (some n) = signed sign n

-- `strconv.Atoi`, with `none` for its error
unfoldable pub atoi : Bytes → Option ℤ
unfolding magnitude signed
atoi [] = none
atoi (c ∷ s) =
    if c == b'+'
    then signed_of false (magnitude s)
    else if c == b'-'
    then signed_of true (magnitude s)
    else signed_of false (magnitude (c ∷ s))

-- the digits of `n` in front of `out`, the last digit first; none for zero, at most `k`
unfoldable pub digits_onto : ℕ → ℕ → Bytes → Bytes
digits_onto zero n out = out
digits_onto (suc k) n out =
    let more = digits_onto k (n / 10) ((b'0' + n % 10) ∷ out) in if n == 0 then out else more

-- `strconv.Itoa` of a number that is not negative, and `%d`: an int has at most 19 digits
unfoldable pub itoa : ℕ → Bytes
itoa n = if n == 0 then b'0' ∷ [] else digits_onto 19 n []

-- `strconv.Itoa` and `%d` of any int
unfoldable pub int_text : ℤ → Bytes
unfolding itoa
int_text (pos n) = itoa n
int_text (negsuc n) = b'-' ∷ itoa (suc n)

itoa_runs : itoa 1450 ≡ codes "1450"
unfolding itoa digits_onto
itoa_runs = refl

atoi_runs :
    (atoi (codes "+0512") ≡ some (pos 512))
    × (atoi (codes "-7") ≡ some (negsuc 6))
    × (atoi (codes "9223372036854775808") ≡ none)
    × (atoi (codes "-") ≡ none)
unfolding atoi
atoi_runs = (refl, refl, refl, refl)
