-- ===== src/Http/Served.antt =====
-- http/http.go with the booters of api/api.go: what a machine boots.
use pixiecore.Api.Remote.Links.Issuing.{
  issued, after_urls, remote_plan, remote_boot_spec-issued, issued-Issues,
}
use pixiecore.Api.Remote.Links.Signing.{IsSecretBox}
use pixiecore.Api.Remote.Links.{SecretBox, remote_as_booter}
use pixiecore.Api.Remote.Specs.{IsAnswer, get_spec_iff}
use pixiecore.Api.Remote.{Get, Answer, RemoteBooter}
use pixiecore.Api.Static.Booting.{as_booter, static_plan, static_booter-Issues}
use pixiecore.Api.Static.{static_booter, boot_spec}
use pixiecore.Api.{Content}
use pixiecore.HardwareAddr.{sized}
use pixiecore.Http.Config.{plain_text}
use pixiecore.Http.Files.Boots.{config_path, Boots, serve_http-Boots}
use pixiecore.Http.Files.{serve_http}
use pixiecore.Http.{answered}
use pixiecore.Prelude.{
  suc, ◌*◌, ◌^◌, ◌≤◌, ◌<◌, Bool, List, ◌∷◌, some, ◌≡◌, refl, Bytes, IsBytes, All, Lacks, length,
  Result,
}

-- In static mode, every machine that asks for its configuration boots the kernel and the initrds given,
-- in order, with the command line given, if there are fewer than 2^63 initrds and the command line
-- has no line break.
pub serve_http-static :
    {E : Type 0} (os_open : Bytes → Result E Content) (no_file : Bytes → E) (ldlinux kernel : Bytes)
    (paths : List Bytes) (cmdline mac : Bytes)
    → length paths < 2 ^ 63
    → Lacks b'\n' cmdline
    → IsBytes mac
    → sized (some mac) ≡ some mac
    → (body : Bytes) × (serve_http
          (as_booter os_open no_file (static_booter kernel paths cmdline))
          ldlinux
          tt
          (config_path mac)
        ≡ (tt, answered 200 plain_text body))
      × Boots
          (as_booter os_open no_file (static_booter kernel paths cmdline))
          ldlinux
          tt
          body
          (static_plan os_open no_file kernel paths cmdline)
serve_http-static os_open no_file ldlinux kernel paths cmdline mac few plain h size =
    serve_http-Boots (as_booter os_open no_file (static_booter kernel paths cmdline)) ldlinux tt tt
      mac (boot_spec (static_booter kernel paths cmdline) mac)
      (static_plan os_open no_file kernel paths cmdline) h size refl
      (static_booter-Issues os_open no_file kernel paths cmdline mac few) plain

-- In API mode, a machine for which the API server has an answer boots what the web server returns for
-- the URLs of the answer, in order, with its command line, if the source of randomness has the
-- 24 bytes that signing each URL takes. The command line has no line break.
pub serve_http-remote :
    {E : Type 0} (box : SecretBox) (client_get web_get : Bytes → Get E)
    (json_decode : Content → Result E Answer) (url_valid : Bytes → Bool) (b : RemoteBooter)
    (ldlinux random later : Bytes) (r : Answer) (mac : Bytes)
    → IsSecretBox box
    → IsAnswer client_get json_decode url_valid b mac r
    → IsBytes b.key
    → IsBytes random
    → All IsBytes (r.kernel ∷ r.initrd)
    → 24 * suc (length r.initrd) ≤ length random
    → Lacks b'\n' r.cmdline
    → IsBytes mac
    → sized (some mac) ≡ some mac
    → (body : Bytes) × (serve_http
          (remote_as_booter box client_get web_get json_decode url_valid b)
          ldlinux
          random
          (config_path mac)
        ≡ (after_urls box b random (r.kernel ∷ r.initrd), answered 200 plain_text body))
      × Boots
          (remote_as_booter box client_get web_get json_decode url_valid b)
          ldlinux
          later
          body
          (remote_plan box client_get web_get json_decode url_valid b r)
serve_http-remote box client_get web_get json_decode url_valid b ldlinux random later r mac laws
      answer kb rb ub enough plain h size =
    serve_http-Boots (remote_as_booter box client_get web_get json_decode url_valid b) ldlinux
      random later mac (issued box b random r)
      (remote_plan box client_get web_get json_decode url_valid b r) h size
      (remote_boot_spec-issued box client_get web_get json_decode url_valid b random mac r
        ((get_spec_iff client_get json_decode url_valid b mac r).1 answer) enough)
      (issued-Issues box client_get web_get json_decode url_valid b laws random r kb rb ub enough)
      plain
