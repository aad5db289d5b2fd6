-- ===== src/Pxe/Parse/Accepts.antt =====
-- pxe/pxe.go: the packets that `ParsePXE` accepts, described without the parser.
use pixiecore.Dhcp.Options.Checks.{walk-check_all, Folds, check_all-Folds, Folds-check_all}
use pixiecore.Dhcp.Options.Walk.{IsOptions, bytes-IsOptions}
use pixiecore.Dhcp.Options.{dhcp_option, walk}
use pixiecore.Dhcp.Packet.{dhcp_magic}
use pixiecore.Dhcp.Parse.Checks.{IsGuid, parse_guid_iff}
use pixiecore.Dhcp.Parse.{parse_guid}
use pixiecore.Pxe.Parse.Safety.{first_71, find_boot_type-first_71}
use pixiecore.Pxe.Parse.{PxePacket, PxeError, Found, check_option, parse_pxe, malformed_97}
use pixiecore.Prelude.{
  ℕ, suc, ◌≤◌, not, List, [], none, some, ◌≡◌, ◌≢◌, ◌↔◌, ◌⊎◌, inl, inr, refl, sym, ap, ◌∙◌, arith,
  Bytes, Bool-cases, length, take, drop, ltb, not-ltb→le, le→not-ltb, ◌==◌, ==_iff, ne→not-==,
  not-false, equal, equal_iff, slice, slice-ok, slice-tail, ok, after_ok, after_some, after_reject,
  ok-injective,
}

-- Vendor options set the boot type to the value of their first option 71, and leave it if they have
-- none; a UUID option sets the UUID; other options are passed over.
abbrev pub Adds : ℕ → Bytes → Found → Found → Type 0
Adds t v s s' =
    ((t ≡ 43)
      × (os : List (ℕ × Bytes)) × IsOptions os v
      × (s' ≡ record { guid = s.guid; boot_type = first_71 os s.boot_type }))
    ⊎ ((t ≡ 97) × IsGuid v s'.guid × (s'.boot_type ≡ s.boot_type))
    ⊎ ((t ≢ 43) × (t ≢ 97) × (s ≡ s'))

abbrev pub nothing_found : Found
nothing_found = record { guid = none; boot_type = none }

-- What `ParsePXE` takes for the request `p`, which has no server address and no URL yet.
pub record IsBootRequest (b : Bytes) (p : PxePacket) : Type 0 where
  pub long : 240 ≤ length b
  pub magic : take 4 (drop 236 b) ≡ dhcp_magic
  pub options : List (ℕ × Bytes)
  pub holds : IsOptions options (drop 240 b)
  pub pass :
      Folds Adds options nothing_found (record { guid = some p.guid; boot_type = some p.boot_type })
  pub fields : p ≡ record {
    dhcp = record {
      tid = take 4 (drop 4 b);
      mac = take 6 (drop 28 b);
      guid = p.guid;
      server_ip = [];
    };
    client_ip = take 4 (drop 12 b);
    boot_type = p.boot_type;
    http_server = [];
  }

module _ (mac ip : Bytes) where
  check_43 :
      (v : Bytes) (s : Found) {os : List (ℕ × Bytes)}
      → IsOptions os v
      → check_option mac ip 43 v s
        ≡ ok (record { guid = s.guid; boot_type = first_71 os s.boot_type })
  unfolding check_option
  check_43 v s o = rw (find_boot_type-first_71 (suc (length v)) s.boot_type o (omega arith))

  check_97 :
      (v : Bytes) (s s' : Found)
      → check_option mac ip 97 v s ≡ ok s'
      → IsGuid v s'.guid × (s'.boot_type ≡ s.boot_type)
  unfolding check_option
  check_97 v s s' h = after_ok (parse_guid (malformed_97 mac ip) v) _ h λ g e k.
      let same = ok-injective k in
      (
        (parse_guid_iff (malformed_97 mac ip) v s'.guid).0 (e ∙ ap (λ (x : Found). ok x.guid) same),
        ap (λ (x : Found). x.boot_type) (sym same),
      )

  check_option-Adds :
      (t : ℕ) (v : Bytes) (s s' : Found) → check_option mac ip t v s ≡ ok s' → Adds t v s s'
  check_option-Adds t v s s' h = elim (Bool-cases (t == 43)) [
    | inl e ↦
        let is : t ≡ 43 = (==_iff t 43).0 e in
        let (os, o) = bytes-IsOptions v in
        inl (is, os, o, ok-injective (sym (rw is at h) ∙ check_43 v s o))
    | inr ne ↦ elim (Bool-cases (t == 97)) [
      | inl e ↦
          let is : t ≡ 97 = (==_iff t 97).0 e in
          let (g, bt) = check_97 v s s' (rw is at h) in inr (inl (is, g, bt))
      | inr ne' ↦ inr (
          inr (
            ground arith,
            ground arith,
            ok-injective {E = PxeError} (unfold check_option in rw (ne, ne') at h),
          ))
    ]
  ]

  Adds-check_option :
      (t : ℕ) (v : Bytes) (s s' : Found) → Adds t v s s' → check_option mac ip t v s ≡ ok s'
  Adds-check_option t v s s' (inl (is, os, o, e)) = rw (is, check_43 v s o, e) refl
  Adds-check_option t v s s' (inr (inl (is, g, bt))) = rw is (
      unfold check_option in
      rw ((parse_guid_iff (malformed_97 mac ip) v s'.guid).1 g)
        (λ i. ok (record { guid = s'.guid; boot_type = sym bt i })))
  Adds-check_option t v s s' (inr (inr (n₁, n₂, e))) =
      unfold check_option in rw (ne→not-== t 43 n₁, ne→not-== t 97 n₂) (ap ok e)

  pub check_option_iff :
      (t : ℕ) (v : Bytes) (s s' : Found) → (check_option mac ip t v s ≡ ok s') ↔ Adds t v s s'
  check_option_iff t v s s' = (check_option-Adds t v s s', Adds-check_option t v s s')

walk-Folds :
    (mac ip opts : Bytes) {s : Found}
    → walk (check_option mac ip) (suc (length opts)) (dhcp_option opts) nothing_found ≡ ok s
    → (os : List (ℕ × Bytes)) × IsOptions os opts × Folds Adds os nothing_found s
walk-Folds mac ip opts {s} h =
    let (os, o) = bytes-IsOptions opts in
    (
      os,
      o,
      check_all-Folds (check_option mac ip) Adds (check_option_iff mac ip) os nothing_found s (
          rw
            (walk-check_all (check_option mac ip) (suc (length opts)) nothing_found o (omega arith))
            at h),
    )

parse_pxe-IsBootRequest : (b : Bytes) {p : PxePacket} → parse_pxe b ≡ ok p → IsBootRequest b p
unfolding parse_pxe
parse_pxe-IsBootRequest b {p} e = after_reject (ltb (length b) 240) _ _ e λ short h₁.
    let long : 240 ≤ length b = not-ltb→le _ _ short in
    let part =
      λ (i j : ℕ) (x : Bytes) (le : i ≤ j) (le' : j ≤ length b)
          (r : slice {E = PxeError} b i j ≡ ok x).
        ok-injective (sym r ∙ slice-ok b i j le le') in
    after_ok (slice b 4 8) _ h₁ λ tid tid_is h₂. after_ok (slice b 28 34) _ h₂ λ mac mac_is h₃.
      after_ok (slice b 12 16) _ h₃ λ ip ip_is h₄.
        after_ok (slice b 236 240) _ h₄ λ magic magic_is h₅.
          after_reject (not (equal magic dhcp_magic)) _ _ h₅ λ dhcp h₆.
            after_ok (slice b 240 (length b)) _ h₆ λ opts opts_is h₇.
              after_ok
                (walk (check_option mac ip) (suc (length opts)) (dhcp_option opts) nothing_found) _
                h₇
                λ s walked h₈. after_some s.guid _ _ h₈ λ g guid_is h₉.
                  after_some s.boot_type _ _ h₉ λ bt boot_is h₁₀.
                    let same = ok-injective h₁₀ in
                    let tail : opts ≡ drop 240 b =
                      ok-injective (sym opts_is ∙ slice-tail {E = PxeError} b 240 long) in
                    let g_same : g ≡ p.guid = ap (λ (q : PxePacket). q.guid) same in
                    let bt_same : bt ≡ p.boot_type = ap (λ (q : PxePacket). q.boot_type) same in
                    let found : s ≡ record { guid = some p.guid; boot_type = some p.boot_type } =
                      λ i. record {
                        guid = (guid_is ∙ ap (λ (x : Bytes). some x) g_same) i;
                        boot_type = (boot_is ∙ ap (λ (x : Bytes). some x) bt_same) i;
                      } in
                    let read = walk-Folds mac ip (drop 240 b) (rw (tail, found) at walked) in
                    record {
                      long = long;
                      magic =
                          sym (part 236 240 magic (omega arith) (omega arith) magic_is)
                          ∙ (equal_iff magic dhcp_magic).0 (not-false _ dhcp);
                      options = read.0;
                      holds = read.1;
                      pass = read.2;
                      fields = sym same ∙ λ i. record {
                        dhcp = record {
                          tid = part 4 8 tid (omega arith) (omega arith) tid_is i;
                          mac = part 28 34 mac (omega arith) (omega arith) mac_is i;
                          guid = g_same i;
                          server_ip = [];
                        };
                        client_ip = part 12 16 ip (omega arith) (omega arith) ip_is i;
                        boot_type = bt_same i;
                        http_server = [];
                      };
                    }

IsBootRequest-parse_pxe : (b : Bytes) {p : PxePacket} → IsBootRequest b p → parse_pxe b ≡ ok p
unfolding parse_pxe
IsBootRequest-parse_pxe b {p} d =
    let long : 240 ≤ length b = d.long in
    let mac = take 6 (drop 28 b) in
    let ip = take 4 (drop 12 b) in
    let magic_is = (equal_iff (take 4 (drop 236 b)) dhcp_magic).1 d.magic in
    let checks =
      Folds-check_all (check_option mac ip) Adds (check_option_iff mac ip) d.options nothing_found _
        d.pass in
    let walked =
      walk-check_all (check_option mac ip) (suc (length (drop 240 b))) nothing_found d.holds
        (omega arith) in
    rw
      (
        le→not-ltb (length b) 240 long,
        slice-ok {E = PxeError} b 4 8 (omega arith) (omega arith),
        slice-ok {E = PxeError} b 28 34 (omega arith) (omega arith),
        slice-ok {E = PxeError} b 12 16 (omega arith) (omega arith),
        slice-ok {E = PxeError} b 236 240 (omega arith) (omega arith),
        magic_is,
        slice-tail {E = PxeError} b 240 long,
        walked,
        checks,
      )
      (ap (λ (q : PxePacket). ok q) (sym d.fields))

-- A datagram is accepted exactly when it has at least 240 bytes, the DHCP magic, and options that
-- can be read in order, with every UUID option well formed, and leave both a UUID and a boot type.
-- The packet returned has these two, and the other fields from their places in the datagram.
pub parse_pxe_iff : (b : Bytes) (p : PxePacket) → (parse_pxe b ≡ ok p) ↔ IsBootRequest b p
parse_pxe_iff b p = (parse_pxe-IsBootRequest b, IsBootRequest-parse_pxe b)
