-- ===== src/Api/Remote/Links.antt =====
-- api/api.go: the signed links of the remote booter, and its operations.
pub mod Signing
pub mod Issuing
pub mod Proxying
use pixiecore.Api.Remote.{
  Get, get_failed, got, Answer, RemoteError, transport, no_randomness, too_short, bad_signature,
  RemoteBooter, read_random, get_spec,
}
use pixiecore.Api.{BootSpec, Content, Booter}
use pixiecore.Prelude.{
  ℕ, Bool, List, [], ◌∷◌, ◌++◌, Option, none, some, Bytes, zeros, length, copy, slice, ltb,
  if◌then◌else◌, Result, ok, err, fault, ◌>>=◌, ◌>>◌, reject_if, or_err,
}

-- `secretbox.Seal` appends `seal message nonce key` to the nonce, and `secretbox.Open` is `unseal`.
pub record SecretBox : Type 0 where
  pub seal : Bytes → Bytes → Bytes → Bytes
  pub unseal : Bytes → Bytes → Bytes → Option Bytes

-- A step that changes a state, and what follows if it succeeds.
abbrev pub then_with :
    {S E A B : Type 0} → S × Result E A → (A → S → S × Result E B) → S × Result E B
then_with (s, ok a) next = next a s
then_with (s, err e) next = (s, err e)
then_with (s, fault) next = (s, fault)

module _ {E : Type 0} (box : SecretBox) (b : RemoteBooter) where
  unfoldable pub sealed : Bytes → Bytes × Option Bytes → Bytes × Result (RemoteError E) Bytes
  sealed u (random, none) = (random, err no_randomness)
  sealed u (random, some nonce) = (random, ok (nonce ++ box.seal u nonce b.key))

  -- `signURL`; the state is the source of randomness
  unfoldable pub sign_url : Bytes → Bytes → Bytes × Result (RemoteError E) Bytes
  unfolding sealed
  sign_url random u = sealed u (read_random 24 random)

  -- the loop over the initrds
  unfoldable pub sign_urls : Bytes → List Bytes → Bytes × Result (RemoteError E) (List Bytes)
  unfolding sign_url
  sign_urls random [] = (random, ok [])
  sign_urls random (u ∷ us) =
      then_with (sign_url random u)
        λ id random'. then_with (sign_urls random' us) λ ids random''. (random'', ok (id ∷ ids))

  -- `getURL`; the nonce is an array of 24 bytes
  unfoldable pub get_url : Bytes → Result (RemoteError E) Bytes
  get_url signed = do
    reject_if (ltb (length signed) 24) too_short
    sealed_url ← slice signed 24 (length signed)
    or_err (box.unseal sealed_url (copy (zeros 24) 0 signed) b.key) bad_signature

module _ {E : Type 0} where
  -- the response to `http.Get`, whatever its status
  unfoldable pub fetched : Get E → Result (RemoteError E) Content
  fetched (get_failed e) = err (transport e)
  fetched (got status body) = ok body

module _ {E : Type 0} (box : SecretBox) (client_get web_get : Bytes → Get E)
    (json_decode : Content → Result E Answer) (url_valid : Bytes → Bool) (b : RemoteBooter) where
  unfoldable pub spec_of :
      Bytes → Result (RemoteError E) Answer → Bytes × Result (RemoteError E) BootSpec
  spec_of random (err e) = (random, err e)
  spec_of random fault = (random, fault)
  spec_of random (ok r) = then_with (sign_url box b random r.kernel) λ kernel random'.
      then_with (sign_urls box b random' r.initrd) λ initrd random''.
        (random'', ok (record { kernel = kernel; initrd = initrd; cmdline = r.cmdline }))

  -- `remoteBooter.BootSpec`
  unfoldable pub remote_boot_spec : Bytes → Bytes → Bytes × Result (RemoteError E) BootSpec
  unfolding spec_of
  remote_boot_spec random hw = spec_of random (get_spec client_get json_decode url_valid b hw)

  -- `remoteBooter.ShouldBoot`
  unfoldable pub remote_should_boot : Bytes → Result (RemoteError E) (Unit {0})
  remote_should_boot hw = do r ← get_spec client_get json_decode url_valid b hw; ok tt

  -- `remoteBooter.File`
  unfoldable pub remote_file : Bytes → Result (RemoteError E) (Content × Bytes)
  remote_file id = do u ← get_url box b id; body ← fetched (web_get u); ok (body, u)

  abbrev pub remote_as_booter : Booter Bytes (RemoteError E)
  remote_as_booter = record {
    should_boot = remote_should_boot;
    boot_spec = remote_boot_spec;
    file = remote_file;
  }
