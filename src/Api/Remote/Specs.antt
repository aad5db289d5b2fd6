-- ===== src/Api/Remote/Specs.antt =====
-- api/api.go: which answers of the API server `getSpec` accepts.
use pixiecore.Api.Remote.{
  Get, get_failed, got, Answer, RemoteError, not_absolute, RemoteBooter, Scheme, missing_scheme,
  no_scheme, some_scheme, scan_scheme, has_scheme, lacks_scheme, is_letter, is_scheme_mark,
  check_url, check_urls, spec_url, accept, decoded, get_spec,
}
use pixiecore.Api.{Content}
use pixiecore.Prelude.{
  ℕ, Bool, true, false, not, ◌||◌, List, [], ◌∷◌, ◌++◌, ◌≡◌, ◌↔◌, refl, sym, ap, ◌∙◌, arith, Bytes,
  Bool-cases, inl, inr, All, ◌==◌, ==_iff, Result, ok, err, fault, ◌>>◌, reject_if, after_ok,
  ok-injective,
}

-- A letter, and then letters, digits and marks.
abbrev pub IsSchemeText : Bytes → Type 0
IsSchemeText [] = ⊥
IsSchemeText (c ∷ s) = (is_letter c ≡ true) × All (λ d. is_letter d || is_scheme_mark d ≡ true) s

-- An absolute URL starts with a scheme and a colon; what stands behind them is valid.
pub record IsAbsolute (url_valid : Bytes → Bool) (u : Bytes) : Type 0 where
  pub scheme : Bytes
  pub rest : Bytes
  pub starts : u ≡ scheme ++ (b':' ∷ rest)
  pub well_formed : IsSchemeText scheme
  pub valid : url_valid u ≡ true

scan_scheme-append :
    (s rest : Bytes)
    → All (λ d. is_letter d || is_scheme_mark d ≡ true) s
    → scan_scheme false (s ++ (b':' ∷ rest)) ≡ some_scheme
unfolding scan_scheme
scan_scheme-append [] rest h = refl
scan_scheme-append (c ∷ s) rest (p, h) = ground (arith, scan_scheme-append s rest h)

-- A text of a scheme, a colon and a rest.
abbrev HasScheme : Bytes → Type 0
HasScheme u =
    (s : Bytes) × (rest : Bytes) × (u ≡ s ++ (b':' ∷ rest))
    × All (λ d. is_letter d || is_scheme_mark d ≡ true) s

HasScheme-cons :
    (c : ℕ) (u : Bytes) → is_letter c || is_scheme_mark c ≡ true → HasScheme u → HasScheme (c ∷ u)
HasScheme-cons c u p (s, rest, e, h) = (c ∷ s, rest, ap (◌∷◌ c) e, (p, h))

scan_scheme-HasScheme : (u : Bytes) → scan_scheme false u ≡ some_scheme → HasScheme u
unfolding scan_scheme
scan_scheme-HasScheme [] h = cc
scan_scheme-HasScheme (c ∷ u) h = elim (Bool-cases (is_letter c)) [
  | inl l ↦ HasScheme-cons c u (rw l) (scan_scheme-HasScheme u (rw l at h))
  | inr nl ↦ elim (Bool-cases (is_scheme_mark c)) [
    | inl m ↦ HasScheme-cons c u (rw (nl, m)) (scan_scheme-HasScheme u (rw (nl, m) at h))
    | inr nm ↦ elim (Bool-cases (c == b':')) [
      | inl e ↦ ([], u, ap (λ (x : ℕ). x ∷ u) ((==_iff c b':').0 e), tt)
      | inr ne ↦ absurd (no_such (rw (nl, nm, ne) at h))
    ]
  ]
]
  where
    no_such : no_scheme ≡ some_scheme → ⊥
    no_such e = cc

-- From the start of a URL, where a scheme starts with a letter.
scan_scheme-IsScheme :
    (u : Bytes)
    → scan_scheme true u ≡ some_scheme
    → (s : Bytes) × (rest : Bytes) × (u ≡ s ++ (b':' ∷ rest)) × IsSchemeText s
unfolding scan_scheme
scan_scheme-IsScheme [] h = cc
scan_scheme-IsScheme (c ∷ u) h = elim (Bool-cases (is_letter c)) [
  | inl l ↦
      let (s, rest, e, a) = scan_scheme-HasScheme u (rw l at h) in
      (c ∷ s, rest, ap (◌∷◌ c) e, (l, a))
  | inr nl ↦ elim (Bool-cases (is_scheme_mark c)) [
    | inl m ↦ absurd (no_such (rw (nl, m) at h))
    | inr nm ↦ elim (Bool-cases (c == b':')) [
      | inl e ↦ absurd (missing (rw (nl, nm, e) at h))
      | inr ne ↦ absurd (no_such (rw (nl, nm, ne) at h))
    ]
  ]
]
  where
    no_such : no_scheme ≡ some_scheme → ⊥
    no_such e = cc

    missing : missing_scheme ≡ some_scheme → ⊥
    missing e = cc

IsSchemeText-scan_scheme :
    (s rest : Bytes) → IsSchemeText s → scan_scheme true (s ++ (b':' ∷ rest)) ≡ some_scheme
unfolding scan_scheme
IsSchemeText-scan_scheme [] rest h = absurd h
IsSchemeText-scan_scheme (c ∷ s) rest (l, h) = rw l (scan_scheme-append s rest h)

module _ {E : Type 0} (url_valid : Bytes → Bool) where
  accepted_scheme :
      (c : Scheme) (v : Bool) (e f : RemoteError E)
      → (reject_if (not v || lacks_scheme c) e >> reject_if (not (has_scheme c)) f) ≡ ok tt
      → (v ≡ true) × (c ≡ some_scheme)
  accepted_scheme missing_scheme v e f h = ground arith
  accepted_scheme no_scheme v e f h = ground arith
  accepted_scheme some_scheme v e f h = ground arith

  check_url_iff : (u : Bytes) → (check_url {E = E} url_valid u ≡ ok tt) ↔ IsAbsolute url_valid u
  unfolding check_url
  check_url_iff u = (forth, back)
    where
      forth : check_url {E = E} url_valid u ≡ ok tt → IsAbsolute url_valid u
      forth h =
          let (v, c) = accepted_scheme (scan_scheme true u) (url_valid u) _ _ h in
          let (s, rest, e, t) = scan_scheme-IsScheme u c in
          record { scheme = s; rest = rest; starts = e; well_formed = t; valid = v }

      back : IsAbsolute url_valid u → check_url {E = E} url_valid u ≡ ok tt
      back a =
          let scanned : scan_scheme true u ≡ some_scheme =
            ap (scan_scheme true) a.starts
            ∙ IsSchemeText-scan_scheme a.scheme a.rest a.well_formed in
          rw (a.valid, scanned)

  check_urls-All :
      (us : List Bytes) → check_urls {E = E} url_valid us ≡ ok tt → All (IsAbsolute url_valid) us
  unfolding check_urls
  check_urls-All [] h = tt
  check_urls-All (u ∷ us) h =
      after_ok (check_url url_valid u) _ h λ done e k. ((check_url_iff u).0 e, check_urls-All us k)

  All-check_urls :
      (us : List Bytes) → All (IsAbsolute url_valid) us → check_urls {E = E} url_valid us ≡ ok tt
  unfolding check_urls
  All-check_urls [] h = refl
  All-check_urls (u ∷ us) (a, h) = rw ((check_url_iff u).1 a) (All-check_urls us h)

module _ {E : Type 0} (client_get : Bytes → Get E) (json_decode : Content → Result E Answer)
    (url_valid : Bytes → Bool) where
  -- The answer `r` of the API server for a machine: its response has status 200 and a body that decodes
  -- to `r`, in which every URL is absolute.
  pub record IsAnswer (b : RemoteBooter) (hw : Bytes) (r : Answer) : Type 0 where
    pub body : Content
    pub reply : client_get (spec_url b hw) ≡ got 200 body
    pub json : json_decode body ≡ ok r
    pub kernel : IsAbsolute url_valid r.kernel
    pub initrd : All (IsAbsolute url_valid) r.initrd

  accept-got :
      (url : Bytes) (g : Get E) (body : Content) → accept url g ≡ ok body → g ≡ got 200 body
  unfolding accept
  accept-got url (get_failed e) body h = cc
  accept-got url (got status c) body h = ground arith

  decoded-ok : (url : Bytes) (d : Result E Answer) (r : Answer) → decoded url d ≡ ok r → d ≡ ok r
  unfolding decoded
  decoded-ok url (ok x) r h = ap ok (ok-injective h)
  decoded-ok url (err e) r h = cc
  decoded-ok url fault r h = cc

  -- `getSpec` succeeds exactly with the answers of the API server.
  pub get_spec_iff :
      (b : RemoteBooter) (hw : Bytes) (r : Answer)
      → (get_spec client_get json_decode url_valid b hw ≡ ok r) ↔ IsAnswer b hw r
  unfolding get_spec accept decoded
  get_spec_iff b hw r = (forth, back)
    where
      forth : get_spec client_get json_decode url_valid b hw ≡ ok r → IsAnswer b hw r
      forth h = after_ok (accept (spec_url b hw) (client_get (spec_url b hw))) _ h λ body e₁ h₁.
          after_ok (decoded (spec_url b hw) (json_decode body)) _ h₁ λ r' e₂ h₂.
            after_ok (check_url url_valid r'.kernel) _ h₂ λ u₁ e₃ h₃.
              after_ok (check_urls url_valid r'.initrd) _ h₃ λ u₂ e₄ h₄.
                let same = ok-injective h₄ in
                record {
                  body = body;
                  reply = accept-got _ _ body e₁;
                  json = decoded-ok _ _ r' e₂ ∙ ap ok same;
                  kernel =
                      (check_url_iff url_valid r.kernel).0
                        (ap (λ (x : Answer). check_url url_valid x.kernel) (sym same) ∙ e₃);
                  initrd =
                      check_urls-All url_valid r.initrd
                        (ap (λ (x : Answer). check_urls url_valid x.initrd) (sym same) ∙ e₄);
                }

      back : IsAnswer b hw r → get_spec client_get json_decode url_valid b hw ≡ ok r
      back a = rw (
        a.reply,
        accept,
        a.json,
        decoded,
        (check_url_iff url_valid r.kernel).1 a.kernel,
        All-check_urls url_valid r.initrd a.initrd,
      )

  -- An answer whose kernel is given by a path, such as `/kernel`, is refused, though its URL is valid.
  pub get_spec-path :
      (b : RemoteBooter) (hw : Bytes) (body : Content) (r : Answer) (path : Bytes)
      → client_get (spec_url b hw) ≡ got 200 body
      → json_decode body ≡ ok r
      → r.kernel ≡ b'/' ∷ path
      → url_valid r.kernel ≡ true
      → get_spec client_get json_decode url_valid b hw ≡ err (not_absolute r.kernel)
  unfolding get_spec accept decoded check_url scan_scheme
  get_spec-path b hw body r path reply json kernel valid =
      let scanned : scan_scheme true r.kernel ≡ no_scheme = ap (scan_scheme true) kernel in
      rw (reply, json, valid, scanned)
