-- ===== src/Api/Remote/Safety.antt =====
-- api/api.go: whether `getSpec` and `ShouldBoot` of the remote booter can panic.
use pixiecore.Api.Remote.Links.{SecretBox, remote_should_boot}
use pixiecore.Api.Remote.{
  Get, get_failed, got, Answer, RemoteBooter, spec_url, check_url, check_urls, accept, decoded,
  get_spec, scan_scheme, lacks_scheme, has_scheme, not_url, not_absolute,
}
use pixiecore.Api.{Content}
use pixiecore.Prelude.{
  Bool, true, false, List, [], ◌∷◌, ◌≢◌, refl, Bytes, ◌==◌, Bool-cases, inl, inr, Result, ok, err,
  fault, not, ◌||◌, arith, reject_if, >>=-ne-fault, reject-ne-fault,
}

module _ {E : Type 0} where
  reject_if-ne-fault : (b : Bool) (e : E) → reject_if b e ≢ fault
  reject_if-ne-fault true e h = cc
  reject_if-ne-fault false e h = cc

  accept-ne-fault : (url : Bytes) (g : Get E) → accept url g ≢ fault
  unfolding accept
  accept-ne-fault url (get_failed e) h = cc
  accept-ne-fault url (got status body) h = elim (Bool-cases (status == 200)) [
    | inl is ↦ absurd (ground arith)
    | inr not ↦ absurd (ground arith)
  ]

  decoded-ne-fault : (url : Bytes) (r : Result E Answer) → r ≢ fault → decoded url r ≢ fault
  unfolding decoded
  decoded-ne-fault url (ok r) ne h = cc
  decoded-ne-fault url (err e) ne h = cc
  decoded-ne-fault url fault ne h = ne refl

module _ {E : Type 0} (url_valid : Bytes → Bool) where
  check_url-ne-fault : (u : Bytes) → check_url {E = E} url_valid u ≢ fault
  unfolding check_url
  check_url-ne-fault u =
      reject-ne-fault (not (url_valid u) || lacks_scheme (scan_scheme true u)) (not_url u)
        (reject_if (not (has_scheme (scan_scheme true u))) (not_absolute u))
        (λ _. reject_if-ne-fault (not (has_scheme (scan_scheme true u))) (not_absolute u))

  check_urls-ne-fault : (us : List Bytes) → check_urls {E = E} url_valid us ≢ fault
  unfolding check_urls
  check_urls-ne-fault [] = λ h. cc
  check_urls-ne-fault (u ∷ us) =
      >>=-ne-fault (check_url url_valid u) _ (check_url-ne-fault u) (λ _ _. check_urls-ne-fault us)

module _ {E : Type 0} (box : SecretBox) (client_get web_get : Bytes → Get E)
    (json_decode : Content → Result E Answer) (url_valid : Bytes → Bool)
    (decodes : (c : Content) → json_decode c ≢ fault) (b : RemoteBooter) (hw : Bytes) where
  get_spec-ne-fault : get_spec client_get json_decode url_valid b hw ≢ fault
  unfolding get_spec
  get_spec-ne-fault =
      >>=-ne-fault (accept (spec_url b hw) (client_get (spec_url b hw))) _ (accept-ne-fault _ _)
        (λ body _.
          >>=-ne-fault (decoded (spec_url b hw) (json_decode body)) _
            (decoded-ne-fault _ _ (decodes body))
            (λ r _.
              >>=-ne-fault (check_url url_valid r.kernel) _ (check_url-ne-fault url_valid r.kernel)
                (λ _ _.
                  >>=-ne-fault (check_urls url_valid r.initrd) _
                    (check_urls-ne-fault url_valid r.initrd) (λ _ _ h. cc))))

  -- The decoder alone could make `ShouldBoot` panic.
  pub remote_should_boot-ne-fault :
      remote_should_boot box client_get web_get json_decode url_valid b hw ≢ fault
  unfolding remote_should_boot
  remote_should_boot-ne-fault =
      >>=-ne-fault (get_spec client_get json_decode url_valid b hw) _ get_spec-ne-fault
        (λ _ _ h. cc)
