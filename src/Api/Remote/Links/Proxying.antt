-- ===== src/Api/Remote/Links/Proxying.antt =====
-- api/api.go: which URLs the remote booter fetches for a client.
use pixiecore.Api.Remote.Links.Signing.{IsSecretBox, Signs, get_url_iff}
use pixiecore.Api.Remote.Links.{SecretBox, get_url, fetched, remote_file}
use pixiecore.Api.Remote.{Get, get_failed, got, Answer, RemoteBooter}
use pixiecore.Api.{Content}
use pixiecore.Prelude.{ℕ, Bool, ◌≡◌, ◌↔◌, sym, ap, ◌∙◌, Bytes, Result, ok, after_ok, ok-injective}

module _ {E : Type 0} (box : SecretBox) (client_get web_get : Bytes → Get E)
    (json_decode : Content → Result E Answer) (url_valid : Bytes → Bool) (b : RemoteBooter)
    (laws : IsSecretBox box) where
  fetched-got : (g : Get E) (c : Content) → fetched g ≡ ok c → (status : ℕ) × (g ≡ got status c)
  unfolding fetched
  fetched-got (get_failed e) c h = cc
  fetched-got (got status body) c h = (status, ap (got status) (ok-injective h))

  remote_file-Signs :
      (id u : Bytes) (c : Content)
      → remote_file box client_get web_get json_decode url_valid b id ≡ ok (c, u)
      → Signs box b id u × ((status : ℕ) × (web_get u ≡ got status c))
  unfolding remote_file
  remote_file-Signs id u c h = after_ok (get_url box b id) _ h λ u' e₁ h₁.
      after_ok (fetched (web_get u')) _ h₁ λ body e₂ h₂.
        let same = ok-injective h₂ in
        let url : u' ≡ u = ap (λ (x : Content × Bytes). x.1) same in
        let stream : body ≡ c = ap (λ (x : Content × Bytes). x.0) same in
        (
          (get_url_iff {E = E} box laws b id u).0 (e₁ ∙ ap ok url),
          fetched-got (web_get u) c
              (ap (λ (x : Bytes). fetched (web_get x)) (sym url) ∙ e₂ ∙ ap ok stream),
        )

  Signs-remote_file :
      (id u : Bytes) (c : Content) (status : ℕ)
      → Signs box b id u
      → web_get u ≡ got status c
      → remote_file box client_get web_get json_decode url_valid b id ≡ ok (c, u)
  Signs-remote_file id u c status signs e =
      unfold remote_file fetched in rw ((get_url_iff {E = E} box laws b id u).1 signs, e)

  -- A client gets no other stream from the remote booter than the response for a URL that was signed
  -- with the booter's key, and gets that whatever its status.
  pub remote_file_iff :
      (id u : Bytes) (c : Content)
      → (remote_file box client_get web_get json_decode url_valid b id ≡ ok (c, u))
        ↔ (Signs box b id u × ((status : ℕ) × (web_get u ≡ got status c)))
  remote_file_iff id u c =
      (remote_file-Signs id u c, λ (signs, (status, e)). Signs-remote_file id u c status signs e)
