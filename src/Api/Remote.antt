-- ===== src/Api/Remote.antt =====
-- api/api.go: the remote booter. `net/http`, `encoding/json`, `secretbox` and the rules of `url.Parse` for
-- what stands behind a scheme are parameters.
pub mod Safety
pub mod Links
pub mod Specs
use pixiecore.Api.{Content}
use pixiecore.HardwareAddr.{mac_text}
use pixiecore.Strings.{ends_with}
use pixiecore.Prelude.{
  ℕ, Bool, true, false, not, ◌&&◌, ◌||◌, List, [], ◌∷◌, ◌++◌, Option, none, some, Bytes, codes,
  zeros, length, take, drop, copy, slice, ltb, leb, ◌==◌, if◌then◌else◌, Result, ok, err, fault,
  ◌>>=◌, ◌>>◌, reject_if, or_err,
}

-- What `client.Get` returns, with the errors `E` of the system.
pub data Get (E : Type 0) : Type 0 where
  get_failed : E → Get E
  got : ℕ → Content → Get E

-- The three values that `getSpec` decodes and returns.
pub record Answer : Type 0 where
  pub kernel : Bytes
  pub initrd : List Bytes
  pub cmdline : Bytes

pub data RemoteError (E : Type 0) : Type 0 where
  transport : E → RemoteError E
  bad_status : Bytes → ℕ → RemoteError E
  not_json : Bytes → E → RemoteError E
  not_url not_absolute : Bytes → RemoteError E
  no_randomness too_short bad_signature : RemoteError E

-- `getscheme` of net/url: the scheme of a URL is missing, or not there, or there.
pub data Scheme : Type 0 where
  missing_scheme no_scheme some_scheme : Scheme

abbrev pub is_letter : ℕ → Bool
is_letter c = (leb b'a' c && leb c b'z') || (leb b'A' c && leb c b'Z')

abbrev pub is_scheme_mark : ℕ → Bool
is_scheme_mark c = (leb b'0' c && leb c b'9') || c == b'+' || c == b'-' || c == b'.'

unfoldable pub scan_scheme : Bool → Bytes → Scheme
scan_scheme first [] = no_scheme
scan_scheme first (c ∷ s) =
    let rest = scan_scheme false s in
    if is_letter c
    then rest
    else if is_scheme_mark c
    then (if first then no_scheme else rest)
    else if c == b':'
    then (if first then missing_scheme else some_scheme)
    else no_scheme

abbrev pub has_scheme : Scheme → Bool
has_scheme some_scheme = true
has_scheme no_scheme = false
has_scheme missing_scheme = false

abbrev pub lacks_scheme : Scheme → Bool
lacks_scheme missing_scheme = true
lacks_scheme no_scheme = false
lacks_scheme some_scheme = false

-- `remoteBooter`; the HTTP client is a parameter
pub record RemoteBooter : Type 0 where
  pub url_prefix : Bytes
  pub key : Bytes

-- `io.ReadFull(rand.Reader, …)`: what is left of the source of randomness, and `n` bytes if it had them
abbrev pub read_random : ℕ → Bytes → Bytes × Option Bytes
read_random n random =
    if ltb (length random) n then ([], none) else (drop n random, some (take n random))

abbrev pub with_slash : Bytes → Bytes
with_slash url = if ends_with b'/' url then url else url ++ (b'/' ∷ [])

abbrev pub with_key :
    {E : Type 0} → Bytes → Bytes × Option Bytes → Bytes × Result (RemoteError E) RemoteBooter
with_key prefix (random, none) = (random, err no_randomness)
with_key prefix (random, some key) = (random, ok (record { url_prefix = prefix; key = key }))

-- `RemoteBooter`
unfoldable pub remote_booter :
    {E : Type 0} → Bytes → Bytes → Bytes × Result (RemoteError E) RemoteBooter
remote_booter url random = with_key (with_slash url ++ codes "v1") (read_random 32 random)

module _ {E : Type 0} (url_valid : Bytes → Bool) where
  -- one URL of the answer: `url.Parse`, and `IsAbs`
  unfoldable pub check_url : Bytes → Result (RemoteError E) (Unit {0})
  check_url u = do
    reject_if (not (url_valid u) || lacks_scheme (scan_scheme true u)) (not_url u)
    reject_if (not (has_scheme (scan_scheme true u))) (not_absolute u)

  unfoldable pub check_urls : List Bytes → Result (RemoteError E) (Unit {0})
  unfolding check_url
  check_urls [] = ok tt
  check_urls (u ∷ us) = do check_url u; check_urls us

unfoldable pub spec_url : RemoteBooter → Bytes → Bytes
spec_url b hw = b.url_prefix ++ (codes "/boot/" ++ mac_text b':' hw)

module _ {E : Type 0} where
  -- the response, if its status is 200
  unfoldable pub accept : Bytes → Get E → Result (RemoteError E) Content
  accept url (get_failed e) = err (transport e)
  accept url (got status body) = if status == 200 then ok body else err (bad_status url status)

  unfoldable pub decoded : Bytes → Result E Answer → Result (RemoteError E) Answer
  decoded url (ok r) = ok r
  decoded url (err e) = err (not_json url e)
  decoded url fault = fault

module _ {E : Type 0} (client_get : Bytes → Get E) (json_decode : Content → Result E Answer)
    (url_valid : Bytes → Bool) where
  -- `getSpec`
  unfoldable pub get_spec : RemoteBooter → Bytes → Result (RemoteError E) Answer
  get_spec b hw = do
    body ← accept (spec_url b hw) (client_get (spec_url b hw))
    r ← decoded (spec_url b hw) (json_decode body)
    check_url url_valid r.kernel
    check_urls url_valid r.initrd
    ok r
