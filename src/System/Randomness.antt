-- ===== src/System/Randomness.antt =====
-- The running process: the source of randomness, which the start of the HTTP server and the configuration
-- handler read, and which signs the links of the remote booter.
use pixiecore.Api.Remote.Links.Issuing.{issued, after_urls, remote_boot_spec-issued}
use mathlib.Core.Path.{subst}
use pixiecore.Api.Remote.Links.{SecretBox}
use pixiecore.Api.Remote.Specs.{IsAnswer, get_spec_iff}
use pixiecore.Api.Remote.{Answer, RemoteBooter}
use pixiecore.Cli.Start.{Servers}
use pixiecore.Cli.{remote}
use pixiecore.Dhcp.Socket.{
  UdpAddr, Effect, log_read_error, not_parsed, not_approved, no_address, write,
}
use pixiecore.HardwareAddr.{sized}
use pixiecore.Http.Config.{link_spec, config_text, plain_text, config_of}
use pixiecore.Http.Files.Boots.{config_path, serve_http-config}
use pixiecore.Http.Files.{serve_http}
use pixiecore.Http.{Response, answered}
use pixiecore.System.Spending.{
  Spends, Spends-trans, Spends-refl, read_random-Spends, serve_http-Spends,
}
use pixiecore.System.{
  World, booter_of, open_proxy_dhcp, open_pxe, listen_and_serve, open_http, HttpError, or_exit,
  Process, responded, after_effect, spawn, dhcp_step, pxe_step, tftp_step, transfer_step, http_step,
  http_start, Step, start_dhcp, start_pxe, start_tftp, start_http, dhcp, pxe, tftp, finish, http,
  Reach, here, later,
}
use pixiecore.Tftp.Serve.{Action, log_error, reply, start}
use pixiecore.Prelude.{
  ℕ, suc, ◌+◌, ◌*◌, ◌≤◌, true, List, [], ◌∷◌, some, ◌≡◌, refl, sym, ap, ◌∙◌, arith, Bytes, IsBytes,
  length, drop, drop-drop, Result, ok, err, fault,
}

open_http-Spends :
    {E : Type 0} (listened : Result E (Unit {0})) (a : Bytes) → Spends a (open_http listened a).0
unfolding open_http
open_http-Spends listened a = read_random-Spends 32 a

module _ {E : Type 0} (a : Bytes) where
  or_exit-random :
      (r : Result E (Unit {0})) (ready p : Process)
      → Spends a ready.random
      → Spends a p.random
      → Spends a (or_exit r ready p).random
  unfolding or_exit
  or_exit-random (ok u) ready p hr hp = hr
  or_exit-random (err e) ready p hr hp = hp
  or_exit-random fault ready p hr hp = hp

  after_effect-random :
      (e : Effect E) (p : Process) → Spends a p.random → Spends a (after_effect e p).random
  after_effect-random Effect.crash p h = h
  after_effect-random log_read_error p h = h
  after_effect-random (not_parsed e) p h = h
  after_effect-random (not_approved mac) p h = h
  after_effect-random (no_address mac) p h = h
  after_effect-random (write i addr packet) p h = h

spawn-random :
    (a : Bytes) (action : Action UdpAddr) (p : Process)
    → Spends a p.random
    → Spends a (spawn action p).random
spawn-random a (start addr req) p h = h
spawn-random a log_error p h = h
spawn-random a (reply addr packet) p h = h
spawn-random a Action.crash p h = h

module _ {E : Type 0} (w : World E) (s : Servers) where
  or_exit-http :
      (listened : Result E (Unit {0})) (p : Process)
      → Spends p.random (open_http listened p.random).0
      → Spends p.random (http_start w s listened p).random
  unfolding http_start or_exit
  or_exit-http listened p spent = elim_result (open_http listened p.random).1
    where
      left : Bytes
      left = (open_http listened p.random).0

      elim_result :
          (r : Result (HttpError E) (Unit {0}))
          → Spends p.random
              (or_exit r
                (record p { random = left; http_open = true })
                (record p { random = left })).random
      elim_result (ok u) = spent
      elim_result (err e) = spent
      elim_result fault = spent

  Step-Spends : {p q : Process} → Step w s p q → Spends p.random q.random
  unfolding dhcp_step pxe_step tftp_step transfer_step http_step http_start
  Step-Spends {p} (start_dhcp listened set _ _) =
      or_exit-random p.random (open_proxy_dhcp listened set) (record p { dhcp_open = true }) p
        (Spends-refl _) (Spends-refl _)
  Step-Spends {p} (start_pxe listened set _ _) =
      or_exit-random p.random (open_pxe listened set) (record p { pxe_open = true }) p
        (Spends-refl _) (Spends-refl _)
  Step-Spends {p} (start_tftp listened _ _) =
      or_exit-random p.random (listen_and_serve listened) (record p { tftp_open = true }) p
        (Spends-refl _) (Spends-refl _)
  Step-Spends {p} (start_http listened _ _) =
      let spent = open_http-Spends listened p.random in or_exit-http listened p spent
  Step-Spends {p} (dhcp r _ _) = after_effect-random p.random _ _ (Spends-refl p.random)
  Step-Spends {p} (pxe r _ _) = after_effect-random p.random _ _ (Spends-refl p.random)
  Step-Spends {p} (tftp a _ _) = spawn-random p.random _ _ (Spends-refl p.random)
  Step-Spends {p} (finish running addr req rest dialed es _ e) = Spends-refl p.random
  Step-Spends {p} (http path _ _) = serve_http-Spends w s.http.booter s.http.ldlinux p.random path

  -- In any run the source of randomness only loses bytes from its front.
  pub Reach-Spends : {p q : Process} → Reach w s p q → Spends p.random q.random
  Reach-Spends {p} here = Spends-refl p.random
  Reach-Spends {p} (later {q} {r} run step) =
      Spends-trans p.random q.random r.random (Reach-Spends run) (Step-Spends step)

after_urls-drop :
    (w : SecretBox) (b : RemoteBooter) (random : Bytes) (us : List Bytes)
    → after_urls w b random us ≡ drop (24 * length us) random
after_urls-drop w b random [] = refl
after_urls-drop w b random (u ∷ us) =
    after_urls-drop w b (drop 24 random) us
    ∙ drop-drop (24 * length us) 24 (24 * suc (length us)) random (omega arith)

module _ {E : Type 0} (w : World E) (s : Servers) where
  -- In API mode, the configuration of a machine with an answer has links that are signed with the first
  -- bytes of the randomness that is left, 24 for each URL; and whatever happens from there on,
  -- the randomness that is left has lost those bytes, so that no later link is signed with them.
  pub signed_apart :
      (p : Process) {q : Process} (b : RemoteBooter) (r : Answer) (mac : Bytes)
      → s.http.booter ≡ remote b
      → IsAnswer w.client_get w.json_decode w.url_valid b mac r
      → 24 * suc (length r.initrd) ≤ length p.random
      → IsBytes mac
      → sized (some mac) ≡ some mac
      → Reach w s (http_step w s (config_path mac) p) q
      → ((http_step w s (config_path mac) p).history
          ≡ responded
              (config_path mac)
              (answered 200 plain_text (config_text (link_spec (issued w.box b p.random r))))
            ∷ p.history)
        × (n : ℕ) × (24 * suc (length r.initrd) ≤ n)
        × (q.random ≡ drop n p.random)
  unfolding http_step
  signed_apart p b r mac picked answer enough bytes size run =
      let made =
        remote_boot_spec-issued w.box w.client_get w.web_get w.json_decode w.url_valid b p.random
          mac r ((get_spec_iff w.client_get w.json_decode w.url_valid b mac r).1 answer) enough in
      let left = after_urls w.box b p.random (r.kernel ∷ r.initrd) in
      let response : Response =
        answered 200 plain_text (config_text (link_spec (issued w.box b p.random r))) in
      let served : serve_http (booter_of w s.http.booter) s.http.ldlinux p.random (config_path mac)
          ≡ (left, response) =
        subst
          (λ picked.
            serve_http (booter_of w picked) s.http.ldlinux p.random (config_path mac)
            ≡ (left, response))
          (sym picked)
          (serve_http-config (booter_of w (remote b)) s.http.ldlinux p.random mac
              (ok (issued w.box b p.random r)) bytes size made
            ∙ unfold config_of in refl) in
      let (m, e) = Reach-Spends w s run in
      let spent : (http_step w s (config_path mac) p).random
          ≡ drop (24 * suc (length r.initrd)) p.random =
        ap (λ (x : Bytes × Response). x.0) served
        ∙ after_urls-drop w.box b p.random (r.kernel ∷ r.initrd) in
      (
        ap (λ (x : Bytes × Response). responded (config_path mac) x.1 ∷ p.history) served,
        24 * suc (length r.initrd) + m,
        omega arith,
        e ∙ ap (drop m) spent ∙ drop-drop m (24 * suc (length r.initrd)) _ p.random refl,
      )
