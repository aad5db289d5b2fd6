-- ===== src/Http/Files/Boots.antt =====
-- http/http.go: a machine that asks for its configuration boots what the booter planned for it.
use pixiecore.Api.{BootSpec, Content, Booter}
use pixiecore.Api.Plans.{Plan, Pairwise, content, IsIdOf, Issues}
use pixiecore.Base64.RoundTrip.{IsSymbol, encode-IsSymbol, decode-encode}
use pixiecore.Base64.{encode}
use pixiecore.Filepath.Last.{base-append}
use pixiecore.Filepath.{slash, base}
use pixiecore.HardwareAddr.RoundTrip.{parse_mac-mac_text, mac_text-Lacks}
use pixiecore.HardwareAddr.{sized, mac_text}
use pixiecore.Http.Config.Reading.{read_config, read_config-config_text}
use pixiecore.Http.Config.{
  boot_from_disk, link, link_spec, config_text, plain_text, config_of, config_for, config_named,
  pxelinux_config,
}
use pixiecore.Http.Files.{octet_stream, copy_file, file_of, serve_file, serve_http}
use pixiecore.Http.{Response, answered, aborted, http_error}
use pixiecore.Strings.Splitting.{after_prefix-append}
use pixiecore.Strings.{after_prefix}
use pixiecore.Prelude.{
  List, [], ◌∷◌, ◌++◌, map, some, ◌≡◌, ◌≢◌, refl, ap, ◌∙◌, arith, Bytes, IsBytes, codes, All-map,
  Lacks, equal, Result, ok, err, fault,
}

-- The path of the configuration that pxelinux asks for first: 01 for Ethernet, then its address.
abbrev pub config_path : Bytes → Bytes
config_path mac = codes "/pxelinux.cfg/01-" ++ mac_text b'-' mac

-- What a client gets for a file: its bytes, or status 500.
abbrev pub response : {E : Type 0} → Result E Content → Response
response (ok c) = answered 200 octet_stream c.bytes
response (err e) = http_error (codes "Couldn't get byte stream") 500
response fault = aborted

copy_file-content :
    {E : Type 0} (r : Result E (Content × Bytes)) → copy_file r ≡ response (content r)
unfolding copy_file
copy_file-content (ok (c, pretty)) = refl
copy_file-content (err e) = refl
copy_file-content fault = refl

encode-ne-nil : (id : Bytes) → id ≢ [] → encode id ≢ []
unfolding encode
encode-ne-nil [] ne = absurd (ne refl)
encode-ne-nil (a ∷ []) ne = λ e. cc
encode-ne-nil (a ∷ b ∷ []) ne = λ e. cc
encode-ne-nil (a ∷ b ∷ c ∷ s) ne = λ e. cc

base-link : (id : Bytes) → id ≢ [] → base (slash ∷ link id) ≡ encode id
base-link id ne =
    base-append (codes "/f") (encode id) (encode-ne-nil id ne)
      (All-map (encode id) (λ c (s : IsSymbol c). s.no_slash) (encode-IsSymbol id))

base-config_path :
    (mac : Bytes) → IsBytes mac → base (config_path mac) ≡ codes "01-" ++ mac_text b'-' mac
base-config_path mac h =
    base-append (codes "/pxelinux.cfg") (codes "01-" ++ mac_text b'-' mac) (λ e. cc)
      (omega arith, (omega arith, (omega arith, mac_text-Lacks mac h)))

module _ {S E : Type 0} (b : Booter S E) (ldlinux : Bytes) where
  -- The link is one that a client gets `source` by.
  abbrev pub Fetches : S → Bytes → Result E Content → Type 0
  Fetches s l source = serve_http b ldlinux s (slash ∷ l) ≡ (s, response source)

  -- From the configuration `body` a client takes what it is to boot: the kernel and the initrds of
  -- the plan, in order, by links that fetch them in the state `t`, and the command line.
  pub record Boots (t : S) (body : Bytes) (p : Plan E) : Type 0 where
    pub menu : BootSpec
    pub read : read_config body ≡ some menu
    pub kernel : Fetches t menu.kernel p.kernel
    pub initrd : Pairwise (Fetches t) menu.initrd p.initrd
    pub cmdline : menu.cmdline ≡ p.cmdline

  serve_http-link :
      (t : S) (id : Bytes)
      → serve_http b ldlinux t (slash ∷ link id) ≡ (t, serve_file b (slash ∷ link id))
  unfolding serve_http after_prefix equal
  serve_http-link t id = refl

  serve_http-config_path :
      (s : S) (mac : Bytes)
      → serve_http b ldlinux s (config_path mac) ≡ pxelinux_config b s (config_path mac)
  unfolding serve_http after_prefix equal
  serve_http-config_path s mac = refl

  IsIdOf-Fetches :
      (t : S) (id : Bytes) (source : Result E Content)
      → IsIdOf b id source
      → Fetches t (link id) source
  unfolding serve_file
  IsIdOf-Fetches t id source h =
      serve_http-link t id
      ∙ rw (base-link id h.some_byte, decode-encode id h.bytes)
          (unfold file_of in
            ap (λ (r : Response). (t, r)) (copy_file-content (b.file id) ∙ ap response h.opens))

  links-Fetches :
      (t : S) (ids : List Bytes) (sources : List (Result E Content))
      → Pairwise (IsIdOf b) ids sources
      → Pairwise (Fetches t) (map link ids) sources
  links-Fetches t [] [] h = tt
  links-Fetches t [] (source ∷ sources) h = h
  links-Fetches t (id ∷ ids) [] h = h
  links-Fetches t (id ∷ ids) (source ∷ sources) (first, rest) =
      (IsIdOf-Fetches t id source first, links-Fetches t ids sources rest)

  pxelinux_config-asks :
      (s : S) (mac : Bytes)
      → IsBytes mac
      → sized (some mac) ≡ some mac
      → pxelinux_config b s (config_path mac)
        ≡ ((b.boot_spec s mac).0, config_of (b.boot_spec s mac).1)
  unfolding pxelinux_config config_named config_for
  pxelinux_config-asks s mac h size = rw (
    base-config_path mac h,
    after_prefix-append (codes "01-") (mac_text b'-' mac),
    parse_mac-mac_text mac h size,
  )

  -- The configuration of a machine is made of what the booter returns for it.
  pub serve_http-config :
      (s : S) {s' : S} (mac : Bytes) (r : Result E BootSpec)
      → IsBytes mac
      → sized (some mac) ≡ some mac
      → b.boot_spec s mac ≡ (s', r)
      → serve_http b ldlinux s (config_path mac) ≡ (s', config_of r)
  serve_http-config s mac r h size made =
      serve_http-config_path s mac
      ∙ pxelinux_config-asks s mac h size
      ∙ ap (λ (x : S × Result E BootSpec). (x.0, config_of x.1)) made

  -- A machine with a hardware address of 6, 8 or 20 bytes that asks for its configuration gets, if the
  -- booter issues a boot spec for a plan to it, a configuration that boots that plan, from whatever
  -- state the server is in by then. The command line has no line break.
  pub serve_http-Boots :
      (s t : S) {s' : S} (mac : Bytes) (spec : BootSpec) (p : Plan E)
      → IsBytes mac
      → sized (some mac) ≡ some mac
      → b.boot_spec s mac ≡ (s', ok spec)
      → Issues b spec p
      → Lacks b'\n' p.cmdline
      → (body : Bytes) × (serve_http b ldlinux s (config_path mac)
          ≡ (s', answered 200 plain_text body))
        × Boots t body p
  serve_http-Boots s t mac spec p h size made issued plain =
      let body = config_text (link_spec spec) in
      (
        body,
        serve_http-config s mac (ok spec) h size made ∙ unfold config_of in refl,
        record {
          menu = link_spec spec;
          read = read_config-config_text spec (rw (← issued.cmdline) at plain);
          kernel = IsIdOf-Fetches t spec.kernel p.kernel issued.kernel;
          initrd = links-Fetches t spec.initrd p.initrd issued.initrd;
          cmdline = issued.cmdline;
        },
      )

  -- A machine that the booter has an error for is told to boot from its disk.
  pub serve_http-refused :
      (s : S) {s' : S} (mac : Bytes) (e : E)
      → IsBytes mac
      → sized (some mac) ≡ some mac
      → b.boot_spec s mac ≡ (s', err e)
      → serve_http b ldlinux s (config_path mac) ≡ (s', answered 200 plain_text boot_from_disk)
  serve_http-refused s mac e h size made =
      serve_http-config s mac (err e) h size made ∙ unfold config_of in refl
