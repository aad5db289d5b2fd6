-- ===== src/System/Spending.antt =====
-- What a configuration handler and a booter take from the source of randomness.
use pixiecore.Api.Remote.Links.{then_with, sealed, sign_url, sign_urls, spec_of, remote_boot_spec}
use pixiecore.Api.Remote.{Answer, RemoteError, RemoteBooter, read_random, get_spec}
use pixiecore.Cli.{Picked, remote, local}
use pixiecore.HardwareAddr.{parse_mac}
use pixiecore.Http.Config.{config_for, config_named, pxelinux_config}
use pixiecore.Http.Files.{is_under, serve_http}
use pixiecore.Strings.{after_prefix}
use pixiecore.Filepath.{base}
use pixiecore.System.{World, booter_of}
use pixiecore.Http.{Response}
use pixiecore.Prelude.{
  Bool, true, false, if◌then◌else◌, ℕ, ◌+◌, List, [], ◌∷◌, Option, none, some, ◌≡◌, refl, sym, ap,
  ◌∙◌, Bytes, length, drop, drop-length, drop-drop, ltb, Result, ok, err, fault, Bool-cases, inl,
  inr, codes, equal,
}

-- `b` is what is left of `a` when bytes from its front are spent.
abbrev pub Spends : Bytes → Bytes → Type 0
Spends a b = (n : ℕ) × (b ≡ drop n a)

pub Spends-trans : (a b c : Bytes) → Spends a b → Spends b c → Spends a c
Spends-trans a b c (m, e) (n, f) = (m + n, f ∙ ap (drop n) e ∙ drop-drop n m (m + n) a refl)

pub Spends-refl : (a : Bytes) → Spends a a
Spends-refl a = (0, refl)

pub read_random-Spends : (n : ℕ) (a : Bytes) → Spends a (read_random n a).0
read_random-Spends n a = elim (Bool-cases (ltb (length a) n)) [
  | inl short ↦ (length a, rw short (sym (drop-length a)))
  | inr enough ↦ (n, rw enough)
]

module _ {E A B : Type 0} where
  then_with-Spends :
      (a : Bytes) (m : Bytes × Result E A) (next : A → Bytes → Bytes × Result E B)
      → Spends a m.0
      → ((x : A) (b : Bytes) → Spends b (next x b).0)
      → Spends a (then_with m next).0
  then_with-Spends a (b, ok x) next h more = Spends-trans a b _ h (more x b)
  then_with-Spends a (b, err e) next h more = h
  then_with-Spends a (b, fault) next h more = h

module _ {E : Type 0} (w : World E) where
  sign_url-Spends : (b : RemoteBooter) (a u : Bytes) → Spends a (sign_url {E = E} w.box b a u).0
  unfolding sign_url
  sign_url-Spends b a u = with_nonce (read_random 24 a) (read_random-Spends 24 a)
    where
      with_nonce :
          (r : Bytes × Option Bytes) → Spends a r.0 → Spends a (sealed {E = E} w.box b u r).0
      with_nonce (a', none) h = h
      with_nonce (a', some nonce) h = h

  sign_urls-Spends :
      (b : RemoteBooter) (a : Bytes) (us : List Bytes) → Spends a (sign_urls {E = E} w.box b a us).0
  unfolding sign_urls
  sign_urls-Spends b a [] = Spends-refl a
  sign_urls-Spends b a (u ∷ us) =
      then_with-Spends a (sign_url w.box b a u) _ (sign_url-Spends b a u) λ id a'.
        then_with-Spends a' (sign_urls w.box b a' us) _ (sign_urls-Spends b a' us)
          λ ids a''. Spends-refl a''

  spec_of-Spends :
      (b : RemoteBooter) (a : Bytes) (r : Result (RemoteError E) Answer)
      → Spends a (spec_of w.box w.client_get w.web_get w.json_decode w.url_valid b a r).0
  unfolding spec_of
  spec_of-Spends b a (err e) = Spends-refl a
  spec_of-Spends b a fault = Spends-refl a
  spec_of-Spends b a (ok r) =
      then_with-Spends a (sign_url w.box b a r.kernel) _ (sign_url-Spends b a r.kernel) λ id a'.
        then_with-Spends a' (sign_urls w.box b a' r.initrd) _ (sign_urls-Spends b a' r.initrd)
          λ ids a''. Spends-refl a''

  boot_spec-Spends :
      (picked : Picked) (a mac : Bytes) → Spends a ((booter_of w picked).boot_spec a mac).0
  unfolding remote_boot_spec
  boot_spec-Spends (local b) a mac = Spends-refl a
  boot_spec-Spends (remote b) a mac =
      spec_of-Spends b a (get_spec w.client_get w.json_decode w.url_valid b mac)

  module _ (picked : Picked) where
    config_for-Spends :
        (a : Bytes) (mac : Option Bytes) → Spends a (config_for (booter_of w picked) a mac).0
    unfolding config_for
    config_for-Spends a none = Spends-refl a
    config_for-Spends a (some mac) = boot_spec-Spends picked a mac

    config_named-Spends :
        (a : Bytes) (mac : Option Bytes) → Spends a (config_named (booter_of w picked) a mac).0
    unfolding config_named
    config_named-Spends a none = Spends-refl a
    config_named-Spends a (some text) = config_for-Spends a (parse_mac text)

    if-Spends :
        (a : Bytes) (test : Bool) (x y : Bytes × Response)
        → Spends a x.0
        → Spends a y.0
        → Spends a (if test then x else y).0
    if-Spends a true x y h k = h
    if-Spends a false x y h k = k

    pub serve_http-Spends :
        (ldlinux a path : Bytes) → Spends a (serve_http (booter_of w picked) ldlinux a path).0
    unfolding serve_http pxelinux_config
    serve_http-Spends ldlinux a path =
        if-Spends a (equal path (codes "/ldlinux.c32")) _ _ (Spends-refl a) (
          if-Spends a (equal path (codes "/pxelinux.cfg")) _ _ (Spends-refl a) (
            if-Spends a (equal path (codes "/f")) _ _ (Spends-refl a) (
              if-Spends a
                (is_under (booter_of w picked) (after_prefix (codes "/pxelinux.cfg/") path)) _ _
                (config_named-Spends a (after_prefix (codes "01-") (base path)))
                (if-Spends a (is_under (booter_of w picked) (after_prefix (codes "/f/") path)) _ _
                  (Spends-refl a) (Spends-refl a)))))
