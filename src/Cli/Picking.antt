-- ===== src/Cli/Picking.antt =====
-- pixiecore/pixiecore.go: which flags `pickBooter` accepts, and what it makes of them.
use pixiecore.Api.Remote.{with_slash, remote_booter, no_randomness}
use pixiecore.Api.Static.{static_booter}
use pixiecore.Cli.{Flags, no_remote, Picked, remote, local, is_set, picked_remote, pick_booter}
use pixiecore.Strings.{split}
use pixiecore.Prelude.{
  ◌≤◌, true, false, [], ◌∷◌, ◌++◌, ◌≡◌, ◌≢◌, ◌↔◌, ◌⊎◌, inl, inr, refl, sym, Bytes, Bool-cases,
  codes, length, take, drop, ltb, le→not-ltb, not-ltb→le, Result, ok, err, ok-injective,
}

-- API mode: -api is given, and no other flag.
pub record IsApiMode (f : Flags) : Type 0 where
  pub api : f.api_server ≢ []
  pub no_kernel : f.kernel_file ≡ []
  pub no_initrds : f.initrd_file ≡ []
  pub no_cmdline : f.kernel_cmdline ≡ []

-- Static mode: -kernel and -initrd are given, and not -api.
pub record IsStaticMode (f : Flags) : Type 0 where
  pub no_api : f.api_server ≡ []
  pub kernel : f.kernel_file ≢ []
  pub initrds : f.initrd_file ≢ []

-- The booter of the flags: the static one, or the remote one with 32 bytes of randomness as its key.
abbrev pub Picks : Flags → Bytes → Picked → Type 0
Picks f random p =
    (IsStaticMode f
      × (p ≡ local (static_booter f.kernel_file (split b',' f.initrd_file) f.kernel_cmdline)))
    ⊎ (IsApiMode f
        × (32 ≤ length random)
        × (p
            ≡ remote (record {
              url_prefix = with_slash f.api_server ++ codes "v1";
              key = take 32 random;
            })))

set_iff : (s : Bytes) → (is_set s ≡ true) ↔ (s ≢ [])
set_iff [] = ((λ e. cc), (λ ne. absurd (ne refl)))
set_iff (c ∷ s) = ((λ e k. cc), (λ ne. refl))

unset : (s : Bytes) → is_set s ≡ false → s ≡ []
unset [] e = refl
unset (c ∷ s) e = cc

err-ne-ok : {E A : Type 0} {e : E} {a : A} → ◌≡◌ {A = Result E A} (err e) (ok a) → ⊥
err-ne-ok h = cc

module _ {E : Type 0} where
  remote_enough :
      (url random : Bytes)
      → 32 ≤ length random
      → picked_remote {E = E} (remote_booter url random) ≡ (
        drop 32 random,
        ok (remote (record { url_prefix = with_slash url ++ codes "v1"; key = take 32 random })),
      )
  unfolding picked_remote remote_booter
  remote_enough url random h = rw (le→not-ltb (length random) 32 h)

  remote_short :
      (url random : Bytes)
      → ltb (length random) 32 ≡ true
      → picked_remote {E = E} (remote_booter url random) ≡ ([], err (no_remote no_randomness))
  unfolding picked_remote remote_booter
  remote_short url random h = rw h

  remote-Picks :
      (f : Flags) (random : Bytes) (p : Picked)
      → IsApiMode f
      → (picked_remote {E = E} (remote_booter f.api_server random)).1 ≡ ok p
      → Picks f random p
  remote-Picks f random p mode h = elim (Bool-cases (ltb (length random) 32)) [
    | inl short ↦ absurd (err-ne-ok (rw (remote_short f.api_server random short) at h))
    | inr long ↦
        let enough : 32 ≤ length random = not-ltb→le _ _ long in
        inr (mode, enough, sym (ok-injective (rw (remote_enough f.api_server random enough) at h)))
  ]

  pick_booter-Picks :
      (f : Flags) (random : Bytes) (p : Picked)
      → (pick_booter {E = E} f random).1 ≡ ok p
      → Picks f random p
  unfolding pick_booter
  pick_booter-Picks f random p h = elim (Bool-cases (is_set f.api_server)) [
    | inl a ↦ elim (Bool-cases (is_set f.kernel_file)) [
      | inl k ↦ absurd (err-ne-ok (rw (a, k) at h))
      | inr k ↦ elim (Bool-cases (is_set f.initrd_file)) [
        | inl i ↦ absurd (err-ne-ok (rw (a, k, i) at h))
        | inr i ↦ elim (Bool-cases (is_set f.kernel_cmdline)) [
          | inl c ↦ absurd (err-ne-ok (rw (a, k, i, c) at h))
          | inr c ↦
              remote-Picks f random p
                (record {
                  api = (set_iff f.api_server).0 a;
                  no_kernel = unset f.kernel_file k;
                  no_initrds = unset f.initrd_file i;
                  no_cmdline = unset f.kernel_cmdline c;
                })
                (rw (a, k, i, c) at h)
        ]
      ]
    ]
    | inr a ↦ elim (Bool-cases (is_set f.kernel_file)) [
      | inl k ↦ elim (Bool-cases (is_set f.initrd_file)) [
        | inl i ↦ inl (
          record {
            no_api = unset f.api_server a;
            kernel = (set_iff f.kernel_file).0 k;
            initrds = (set_iff f.initrd_file).0 i;
          },
          sym (ok-injective (rw (a, k, i) at h)),
        )
        | inr i ↦ absurd (err-ne-ok (rw (a, k, i) at h))
      ]
      | inr k ↦ absurd (err-ne-ok (rw (a, k) at h))
    ]
  ]

  Picks-pick_booter :
      (f : Flags) (random : Bytes) (p : Picked)
      → Picks f random p
      → (pick_booter {E = E} f random).1 ≡ ok p
  unfolding pick_booter
  Picks-pick_booter f random p (inl (mode, e)) = rw (
    mode.no_api,
    (set_iff f.kernel_file).1 mode.kernel,
    (set_iff f.initrd_file).1 mode.initrds,
    e,
  )
  Picks-pick_booter f random p (inr (mode, enough, e)) = rw (
    (set_iff f.api_server).1 mode.api,
    mode.no_kernel,
    mode.no_initrds,
    mode.no_cmdline,
    remote_enough f.api_server random enough,
    e,
  )

  -- `pickBooter` picks a booter exactly when the flags are those of one of the two modes and, in API
  -- mode, 32 bytes of randomness can be read; and it picks the booter of that mode.
  pub pick_booter_iff :
      (f : Flags) (random : Bytes) (p : Picked)
      → ((pick_booter {E = E} f random).1 ≡ ok p) ↔ Picks f random p
  pick_booter_iff f random p = (pick_booter-Picks f random p, Picks-pick_booter f random p)
