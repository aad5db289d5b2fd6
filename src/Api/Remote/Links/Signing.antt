-- ===== src/Api/Remote/Links/Signing.antt =====
-- api/api.go: a signed link opens to the URL that was signed, and nothing else does.
use pixiecore.Api.Remote.Links.{SecretBox, get_url}
use pixiecore.Api.Remote.{RemoteError, RemoteBooter}
use pixiecore.Prelude.{
  ℕ, zero, suc, ◌≤◌, [], ◌∷◌, ◌++◌, Option, none, some, ◌≡◌, ◌↔◌, refl, sym, ap, ◌∙◌, arith, Bytes,
  IsBytes, All, zeros, length, length-append, length-take, take, drop, take-append-drop, copy,
  slice, slice-tail, ltb, not-ltb→le, le→not-ltb, ok, or_err, after_ok, after_reject, ok-injective,
}

-- What the documentation of secretbox promises: a box opens, with the nonce and the key that it was
-- sealed with, to the message; and whatever opens was sealed so. Boxes of bytes are bytes.
pub record IsSecretBox (box : SecretBox) : Type 0 where
  pub opens : (m n k : Bytes) → box.unseal (box.seal m n k) n k ≡ some m
  pub authentic : (c n k m : Bytes) → box.unseal c n k ≡ some m → c ≡ box.seal m n k
  pub bytes : (m n k : Bytes) → IsBytes m → IsBytes n → IsBytes k → IsBytes (box.seal m n k)

pub All-cut :
    (P : ℕ → Type 0) (n : ℕ) (xs : Bytes) → All P xs → All P (take n xs) × All P (drop n xs)
All-cut P zero xs h = (tt, h)
All-cut P (suc n) [] h = (tt, tt)
All-cut P (suc n) (x ∷ xs) (p, h) = let (a, d) = All-cut P n xs h in ((p, a), d)

copy_over : (dst src : Bytes) → length dst ≤ length src → copy dst 0 src ≡ take (length dst) src
unfolding copy
copy_over [] [] h = refl
copy_over [] (y ∷ src) h = refl
copy_over (x ∷ dst) [] h = absurd (omega arith)
copy_over (x ∷ dst) (y ∷ src) h = ap (◌∷◌ y) (copy_over dst src (omega arith))

pub take-append :
    (k : ℕ) (xs ys : Bytes) → length xs ≡ k → (take k (xs ++ ys) ≡ xs) × (drop k (xs ++ ys) ≡ ys)
take-append zero [] ys h = (refl, refl)
take-append (suc k) [] ys h = absurd (omega arith)
take-append zero (x ∷ xs) ys h = absurd (omega arith)
take-append (suc k) (x ∷ xs) ys h =
    let (t, d) = take-append k xs ys (omega arith) in (ap (◌∷◌ x) t, d)

-- The id signs the URL, by some nonce of 24 bytes.
abbrev pub Signs : SecretBox → RemoteBooter → Bytes → Bytes → Type 0
Signs box b id u = (n : Bytes) × (length n ≡ 24) × (id ≡ n ++ box.seal u n b.key)

module _ {E : Type 0} (box : SecretBox) (laws : IsSecretBox box) (b : RemoteBooter) where
  get_url-Signs : (id u : Bytes) → get_url {E = E} box b id ≡ ok u → Signs box b id u
  unfolding get_url
  get_url-Signs id u e = after_reject (ltb (length id) 24) _ _ e λ long e₁.
      let enough : 24 ≤ length id = not-ltb→le _ _ long in
      after_ok (slice id 24 (length id)) _ e₁ λ c c_is e₂.
        let tail : c ≡ drop 24 id =
          ok-injective {E = RemoteError E} (sym c_is ∙ slice-tail id 24 enough) in
        (
          take 24 id,
          omega (arith, length-take 24 id),
          sym (take-append-drop 24 id)
              ∙ ap (λ (t : Bytes). take 24 id ++ t)
                  (sym tail
                    ∙ laws.authentic c (take 24 id) b.key u
                        (rw (← copy_over (zeros 24) id enough) (or_err-ok _ _ e₂))),
        )
    where
      or_err-ok : (o : Option Bytes) (x : RemoteError E) → or_err o x ≡ ok u → o ≡ some u
      or_err-ok none x h = cc
      or_err-ok (some a) x h = ap (λ (t : Bytes). some t) (ok-injective h)

  Signs-get_url : (id u : Bytes) → Signs box b id u → get_url {E = E} box b id ≡ ok u
  unfolding get_url
  Signs-get_url id u (n, size, is) =
      let long : 24 ≤ length id =
        omega (arith, ap length is, length-append {0} n (box.seal u n b.key)) in
      let nonce : take 24 id ≡ n = ap (take 24) is ∙ (take-append 24 n _ size).0 in
      let tail : drop 24 id ≡ box.seal u n b.key = ap (drop 24) is ∙ (take-append 24 n _ size).1 in
      rw (
        le→not-ltb (length id) 24 long,
        slice-tail {E = RemoteError E} id 24 long,
        copy_over (zeros 24) id long,
        nonce,
        tail,
        laws.opens u n b.key,
      )

  -- `getURL` opens an id to a URL exactly when the id is that URL signed with the booter's key.
  pub get_url_iff : (id u : Bytes) → (get_url {E = E} box b id ≡ ok u) ↔ Signs box b id u
  get_url_iff id u = (get_url-Signs id u, Signs-get_url id u)
