-- ===== src/Api/Remote/Links/Issuing.antt =====
-- api/api.go: the boot specs that the remote booter issues.
use pixiecore.Api.Plans.{IsBooter, Plan, Pairwise, content, IsIdOf, Issues}
use pixiecore.Api.Remote.Links.Signing.{IsSecretBox, All-cut, Signs, get_url_iff}
use pixiecore.Api.Remote.Links.{
  SecretBox, sealed, sign_url, sign_urls, spec_of, remote_boot_spec, remote_should_boot, fetched,
  remote_file, remote_as_booter,
}
use pixiecore.Api.Remote.Specs.{IsAnswer, get_spec_iff}
use pixiecore.Api.Remote.{
  Get, get_failed, got, transport, Answer, RemoteError, RemoteBooter, get_spec,
}
use pixiecore.Api.{BootSpec, Content, Booter}
use pixiecore.Prelude.{
  suc, ◌*◌, ◌≤◌, ◌<◌, Bool, List, [], ◌∷◌, ◌++◌, map, ◌≡◌, refl, ap, arith, Bytes, IsBytes, All,
  All-append, length, length-append, length-take, length-drop, take, drop, le→not-ltb, Result, ok,
  err, fault, ◌>>=◌, after_ok,
}

module _ (box : SecretBox) (b : RemoteBooter) where
  -- The URL signed with the first 24 bytes of the source of randomness.
  abbrev pub signed_with : Bytes → Bytes → Bytes
  signed_with random u = take 24 random ++ box.seal u (take 24 random) b.key

  -- The URLs signed in order, each with the next 24 bytes.
  abbrev pub signed_all : Bytes → List Bytes → List Bytes
  signed_all random [] = []
  signed_all random (u ∷ us) = signed_with random u ∷ signed_all (drop 24 random) us

  abbrev pub after_urls : Bytes → List Bytes → Bytes
  after_urls random [] = random
  after_urls random (u ∷ us) = after_urls (drop 24 random) us

  -- The answer with its URLs signed: no two of them with the same bytes of the source.
  abbrev pub issued : Bytes → Answer → BootSpec
  issued random r = record {
    kernel = signed_with random r.kernel;
    initrd = signed_all (drop 24 random) r.initrd;
    cmdline = r.cmdline;
  }

module _ {E : Type 0} (box : SecretBox) (b : RemoteBooter) where
  sign_url-ok :
      (random u : Bytes)
      → 24 ≤ length random
      → sign_url {E = E} box b random u ≡ (drop 24 random, ok (signed_with box b random u))
  unfolding sign_url sealed
  sign_url-ok random u h = rw (le→not-ltb (length random) 24 h)

  sign_urls-ok :
      (random : Bytes) (us : List Bytes)
      → 24 * length us ≤ length random
      → sign_urls {E = E} box b random us
        ≡ (after_urls box b random us, ok (signed_all box b random us))
  unfolding sign_urls
  sign_urls-ok random [] h = refl
  sign_urls-ok random (u ∷ us) h = rw (
    sign_url-ok random u (omega arith),
    sign_urls-ok (drop 24 random) us (omega (arith, length-drop 24 random)),
  )

module _ {E : Type 0} where
  -- What a web server returns: the body, whatever the status of the response.
  abbrev pub body_of : Get E → Result (RemoteError E) Content
  body_of (get_failed e) = err (transport e)
  body_of (got status body) = ok body

  fetched-body_of : (g : Get E) → fetched g ≡ body_of g
  unfolding fetched
  fetched-body_of (get_failed e) = refl
  fetched-body_of (got status body) = refl

module _ {E : Type 0} (box : SecretBox) (client_get web_get : Bytes → Get E)
    (json_decode : Content → Result E Answer) (url_valid : Bytes → Bool) (b : RemoteBooter) where
  -- If `ShouldBoot` approves of a machine and the source of randomness has 24 bytes for each URL of the
  -- answer, `BootSpec` succeeds: it signs each URL with bytes of its own.
  pub remote_boot_spec-issued :
      (random hw : Bytes) (r : Answer)
      → get_spec client_get json_decode url_valid b hw ≡ ok r
      → 24 * suc (length r.initrd) ≤ length random
      → remote_boot_spec box client_get web_get json_decode url_valid b random hw
        ≡ (after_urls box b random (r.kernel ∷ r.initrd), ok (issued box b random r))
  unfolding remote_boot_spec
  remote_boot_spec-issued random hw r e h = rw (
    e,
    spec_of,
    sign_url-ok {E = E} box b random r.kernel (omega arith),
    sign_urls-ok {E = E} box b (drop 24 random) r.initrd (omega (arith, length-drop 24 random)),
  )

  -- What the machine is to boot: what the web server returns for the URLs of the answer.
  abbrev pub remote_plan : Answer → Plan (RemoteError E)
  remote_plan r = record {
    kernel = body_of (web_get r.kernel);
    initrd = map (λ u. body_of (web_get u)) r.initrd;
    cmdline = r.cmdline;
  }

  abbrev booter : Booter Bytes (RemoteError E)
  booter = remote_as_booter box client_get web_get json_decode url_valid b

  -- The source of randomness and the answers are bytes, and it has 24 of them for each URL of an answer.
  abbrev pub Ready : Bytes → Type 0
  Ready random =
      IsBytes random
      × ((mac : Bytes) (r : Answer)
          → IsAnswer client_get json_decode url_valid b mac r
          → All IsBytes (r.kernel ∷ r.initrd) × (24 * suc (length r.initrd) ≤ length random))

  abbrev pub Wanted : Bytes → Plan (RemoteError E) → Type 0
  Wanted mac p =
      (r : Answer) × IsAnswer client_get json_decode url_valid b mac r × (p ≡ remote_plan r)

  module _ (laws : IsSecretBox box) where
    opens-fetched :
        (id u : Bytes) → Signs box b id u → content (booter.file id) ≡ body_of (web_get u)
    opens-fetched id u signs =
        unfold remote_file in
        rw ((get_url_iff {E = E} box laws b id u).1 signs, fetched-body_of (web_get u))
          (any_reply (body_of (web_get u)))
      where
        any_reply : (f : Result (RemoteError E) Content) → content (f >>= λ body. ok (body, u)) ≡ f
        any_reply (ok c) = refl
        any_reply (err e) = refl
        any_reply fault = refl

    signed_with-IsIdOf :
        (random u : Bytes)
        → IsBytes b.key
        → IsBytes random
        → IsBytes u
        → 24 ≤ length random
        → IsIdOf booter (signed_with box b random u) (body_of (web_get u))
    signed_with-IsIdOf random u key_bytes rb ub h =
        let nonce = (All-cut (λ c. c < 256) 24 random rb).0 in
        let box_bytes = box.seal u (take 24 random) b.key in
        record {
          bytes =
              All-append (λ c. c < 256) (take 24 random) box_bytes nonce
                (laws.bytes u (take 24 random) b.key ub nonce key_bytes);
          some_byte = λ e. omega (
            arith,
            ap length e,
            length-take 24 random,
            length-append {0} (take 24 random) box_bytes,
          );
          opens =
              opens-fetched (signed_with box b random u) u
                (take 24 random, omega (arith, length-take 24 random), refl);
        }

    signed_all-IsIdOf :
        (random : Bytes) (us : List Bytes)
        → IsBytes b.key
        → IsBytes random
        → All IsBytes us
        → 24 * length us ≤ length random
        → Pairwise (IsIdOf booter) (signed_all box b random us) (map (λ u. body_of (web_get u)) us)
    signed_all-IsIdOf random [] kb rb ub h = tt
    signed_all-IsIdOf random (u ∷ us) kb rb (p, ub) h = (
      signed_with-IsIdOf random u kb rb p (omega arith),
      signed_all-IsIdOf (drop 24 random) us kb (All-cut (λ c. c < 256) 24 random rb).1 ub
          (omega (arith, length-drop 24 random)),
    )

    -- The boot spec that is made of an answer issues the plan to boot what its URLs name.
    pub issued-Issues :
        (random : Bytes) (r : Answer)
        → IsBytes b.key
        → IsBytes random
        → All IsBytes (r.kernel ∷ r.initrd)
        → 24 * suc (length r.initrd) ≤ length random
        → Issues booter (issued box b random r) (remote_plan r)
    issued-Issues random r keyb rb (kb, ib) h = record {
      kernel = signed_with-IsIdOf random r.kernel keyb rb kb (omega arith);
      initrd =
          signed_all-IsIdOf (drop 24 random) r.initrd keyb (All-cut (λ c. c < 256) 24 random rb).1
            ib (omega (arith, length-drop 24 random));
      cmdline = refl;
    }

    -- The remote booter keeps its promise: it wants what the API server has answered.
    pub remote-IsBooter : IsBytes b.key → IsBooter booter Ready Wanted
    unfolding remote_should_boot
    remote-IsBooter kb = record {
      issues = λ random mac ready approved.
          after_ok (get_spec client_get json_decode url_valid b mac) _ approved λ r e done.
            let answer = (get_spec_iff client_get json_decode url_valid b mac r).0 e in
            let (urls, enough) = ready.1 mac r answer in
            (
              issued box b random r,
              after_urls box b random (r.kernel ∷ r.initrd),
              remote_plan r,
              remote_boot_spec-issued random mac r e enough,
              issued-Issues random r kb ready.0 urls enough,
              (r, answer, refl),
            );
    }
