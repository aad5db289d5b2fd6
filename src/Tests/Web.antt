-- ===== src/Tests/Web.antt =====
-- http/http.go: configurations and files of a static and of a remote booter.
use pixiecore.Api.Remote.Links.Issuing.{after_urls, remote_plan}
use pixiecore.Api.Remote.Links.{remote_as_booter}
use pixiecore.Api.Static.Booting.{as_booter, static_plan}
use pixiecore.Api.Static.{kernel_id, StaticBooter, static_booter}
use pixiecore.Api.{BootSpec, Content}
use pixiecore.Http.Config.Reading.{read_config, read_config-config_text}
use pixiecore.Http.Config.{link_spec, config_text, plain_text}
use pixiecore.Http.Files.Boots.{config_path, Boots}
use pixiecore.Http.Files.{serve_http}
use pixiecore.Http.Served.{serve_http-static, serve_http-remote}
use pixiecore.Http.Sharing.Isolation.{static_requests-replicate}
use pixiecore.Http.Sharing.{Heap, SharedSpec, view, static_requests}
use pixiecore.Http.{answered}
use pixiecore.Tests.Discovery.{a_mac}
use pixiecore.Tests.Remote.{
  marking, marking-IsSecretBox, a_remote, an_answer, client_get, web_get, json_decode, url_valid,
  an_answer-IsAnswer, some_random,
}
use pixiecore.Prelude.{replicate, true, [], ◌∷◌, some, ◌≡◌, refl, arith, Bytes, codes, Result, ok}

abbrev a_disk : Bytes → Result Bytes Content
a_disk path = ok (record { bytes = path; complete = true })

abbrev no_file : Bytes → Bytes
no_file id = id

abbrev a_static : StaticBooter
a_static = static_booter (codes "/k") (codes "/a" ∷ codes "/b" ∷ []) (codes "quiet")

abbrev a_loader : Bytes
a_loader = 1 ∷ 2 ∷ []

serve_http-static_example :
    (body : Bytes) × (serve_http (as_booter a_disk no_file a_static) a_loader tt (config_path a_mac)
      ≡ (tt, answered 200 plain_text body))
    × Boots
        (as_booter a_disk no_file a_static)
        a_loader
        tt
        body
        (static_plan a_disk no_file (codes "/k") (codes "/a" ∷ codes "/b" ∷ []) (codes "quiet"))
serve_http-static_example =
    serve_http-static a_disk no_file a_loader (codes "/k") (codes "/a" ∷ codes "/b" ∷ [])
      (codes "quiet") a_mac (omega arith) (omega arith) (omega arith) refl

serve_http-remote_example :
    (body : Bytes) × (serve_http
        (remote_as_booter marking client_get web_get json_decode url_valid a_remote)
        a_loader
        some_random
        (config_path a_mac)
      ≡ (
        after_urls marking a_remote some_random (codes "http://h/k" ∷ codes "http://h/a" ∷ []),
        answered 200 plain_text body,
      ))
    × Boots
        (remote_as_booter marking client_get web_get json_decode url_valid a_remote)
        a_loader
        []
        body
        (remote_plan marking client_get web_get json_decode url_valid a_remote an_answer)
serve_http-remote_example =
    serve_http-remote marking client_get web_get json_decode url_valid a_remote a_loader some_random
      [] an_answer a_mac marking-IsSecretBox (an_answer-IsAnswer a_mac) (omega arith) (omega arith)
      (omega arith) (omega arith) (omega arith) (omega arith) refl

abbrev a_spec : BootSpec
a_spec = record {
  kernel = codes "kernel";
  initrd = codes "0" ∷ codes "1" ∷ [];
  cmdline = codes "quiet splash";
}

read_config-config_text_example :
    read_config (config_text (link_spec a_spec)) ≡ some (link_spec a_spec)
read_config-config_text_example = read_config-config_text a_spec (omega arith)

-- The booter's spec, whose initrds are the first of two arrays.
abbrev shared : SharedSpec
shared = record { kernel = kernel_id; initrd = 0; cmdline = codes "quiet" }

abbrev a_heap : Heap
a_heap = (codes "0" ∷ codes "1" ∷ []) ∷ [] ∷ []

static_requests-replicate_example :
    static_requests 3 shared a_heap ≡ replicate 3 (config_text (link_spec (view a_heap shared)))
static_requests-replicate_example = static_requests-replicate 3 shared a_heap (omega arith)
