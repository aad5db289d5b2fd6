-- ===== src/Tests/Remote.antt =====
-- api/api.go: a remote booter, with an API server that has one answer and a box that only marks its
-- contents.
use pixiecore.Api.Plans.{IsBooter}
use pixiecore.Api.Remote.Links.Issuing.{
  issued, after_urls, remote_boot_spec-issued, Ready, Wanted, remote-IsBooter,
}
use pixiecore.Api.Remote.Links.Proxying.{remote_file_iff}
use pixiecore.Api.Remote.Links.Signing.{IsSecretBox, Signs, get_url_iff}
use pixiecore.Api.Remote.Links.{
  SecretBox, get_url, fetched, remote_boot_spec, remote_file, remote_as_booter,
}
use pixiecore.Api.Remote.Specs.{IsAbsolute, IsAnswer, get_spec_iff}
use pixiecore.Api.Remote.{
  Get, got, Answer, RemoteBooter, get_spec, accept, decoded, check_url, check_urls, scan_scheme,
}
use pixiecore.Api.{Content}
use pixiecore.Tests.Discovery.{a_mac}
use pixiecore.Prelude.{
  ℕ, Bool, true, [], ◌∷◌, ◌++◌, Option, none, some, ◌≡◌, ◌↔◌, refl, arith, Bytes, slice, copy,
  codes, zeros, ◌==◌, if◌then◌else◌, Result, ok,
}

abbrev open_marked : Bytes → Option Bytes
open_marked [] = none
open_marked (c ∷ m) = if c == 7 then some m else none

abbrev pub marking : SecretBox
marking = record { seal = λ m n k. 7 ∷ m; unseal = λ c n k. open_marked c }

open_marked-cons : (c m : Bytes) → open_marked c ≡ some m → c ≡ 7 ∷ m
open_marked-cons [] m h = cc
open_marked-cons (x ∷ c) m h = ground arith

pub marking-IsSecretBox : IsSecretBox marking
marking-IsSecretBox = record {
  opens = λ m n k. refl;
  authentic = λ c n k m. open_marked-cons c m;
  bytes = λ m n k hm hn hk. (omega arith, hm);
}

abbrev pub a_remote : RemoteBooter
a_remote = record { url_prefix = codes "http://api/v1"; key = zeros 32 }

abbrev pub an_answer : Answer
an_answer = record {
  kernel = codes "http://h/k";
  initrd = codes "http://h/a" ∷ [];
  cmdline = codes "quiet";
}

abbrev pub a_body : Content
a_body = record { bytes = codes "{}"; complete = true }

abbrev pub client_get : Bytes → Get Bytes
client_get url = got 200 a_body

-- Every page is missing.
abbrev pub web_get : Bytes → Get Bytes
web_get url = got 404 (record { bytes = url; complete = true })

abbrev pub json_decode : Content → Result Bytes Answer
json_decode c = ok an_answer

abbrev pub url_valid : Bytes → Bool
url_valid u = true

abbrev pub a_nonce : Bytes
a_nonce = zeros 24

abbrev a_link : Bytes
a_link = a_nonce ++ (7 ∷ codes "http://h/k")

runs_link :
    (get_url {E = Bytes} marking a_remote a_link ≡ ok (codes "http://h/k"))
    × (remote_file marking client_get web_get json_decode url_valid a_remote a_link
        ≡ ok (record { bytes = codes "http://h/k"; complete = true }, codes "http://h/k"))
unfolding get_url remote_file fetched slice copy
runs_link = (refl, refl)

absolute : (rest : Bytes) → IsAbsolute url_valid (codes "http:" ++ rest)
absolute rest = record {
  scheme = codes "http";
  rest = rest;
  starts = refl;
  well_formed = (refl, (refl, (refl, (refl, tt))));
  valid = refl;
}

pub an_answer-IsAnswer :
    (mac : Bytes) → IsAnswer client_get json_decode url_valid a_remote mac an_answer
an_answer-IsAnswer mac = record {
  body = a_body;
  reply = refl;
  json = refl;
  kernel = absolute (codes "//h/k");
  initrd = (absolute (codes "//h/a"), tt);
}

get_spec_iff_example :
    (get_spec client_get json_decode url_valid a_remote a_mac ≡ ok an_answer)
    ↔ IsAnswer client_get json_decode url_valid a_remote a_mac an_answer
get_spec_iff_example = get_spec_iff client_get json_decode url_valid a_remote a_mac an_answer

runs_spec : get_spec client_get json_decode url_valid a_remote a_mac ≡ ok an_answer
unfolding get_spec accept decoded check_url check_urls scan_scheme
runs_spec = refl

get_url_iff_example :
    (get_url {E = Bytes} marking a_remote a_link ≡ ok (codes "http://h/k"))
    ↔ Signs marking a_remote a_link (codes "http://h/k")
get_url_iff_example = get_url_iff marking marking-IsSecretBox a_remote a_link (codes "http://h/k")

abbrev pub some_random : Bytes
some_random = zeros 72

remote_boot_spec-issued_example :
    remote_boot_spec marking client_get web_get json_decode url_valid a_remote some_random a_mac ≡ (
      after_urls marking a_remote some_random (codes "http://h/k" ∷ codes "http://h/a" ∷ []),
      ok (issued marking a_remote some_random an_answer),
    )
remote_boot_spec-issued_example =
    remote_boot_spec-issued marking client_get web_get json_decode url_valid a_remote some_random
      a_mac an_answer runs_spec (omega arith)

remote_file_iff_example :
    (remote_file marking client_get web_get json_decode url_valid a_remote a_link
      ≡ ok (record { bytes = codes "http://h/k"; complete = true }, codes "http://h/k"))
    ↔ (Signs marking a_remote a_link (codes "http://h/k")
        × ((status : ℕ) × (web_get (codes "http://h/k")
              ≡ got status (record { bytes = codes "http://h/k"; complete = true }))))
remote_file_iff_example =
    remote_file_iff marking client_get web_get json_decode url_valid a_remote marking-IsSecretBox
      a_link (codes "http://h/k") (record { bytes = codes "http://h/k"; complete = true })

remote-IsBooter_example :
    IsBooter
      (remote_as_booter marking client_get web_get json_decode url_valid a_remote)
      (Ready marking client_get web_get json_decode url_valid a_remote)
      (Wanted marking client_get web_get json_decode url_valid a_remote)
remote-IsBooter_example =
    remote-IsBooter marking client_get web_get json_decode url_valid a_remote marking-IsSecretBox
      (omega arith)
