-- ===== src/Pxe/Parse/Safety.antt =====
-- pxe/pxe.go: `ParsePXE` does not panic, and its loops end.
use pixiecore.Dhcp.Options.Checks.{walk-check_all, check_all-ne-fault}
use pixiecore.Dhcp.Options.Walk.{
  IsOptions, stop, option, bytes-IsOptions, dhcp_option-stop, dhcp_option-append,
}
use pixiecore.Dhcp.Options.{dhcp_option, walk}
use pixiecore.Dhcp.Packet.{dhcp_magic}
use pixiecore.Dhcp.Parse.Safety.{parse_guid-ne-fault}
use pixiecore.Dhcp.Parse.{parse_guid}
use pixiecore.Pxe.Parse.{PxeError, Found, find_boot_type, check_option, parse_pxe}
use pixiecore.Prelude.{
  ℕ, zero, suc, ◌≤◌, ◌<◌, not, List, [], ◌∷◌, Option, some, ◌≡◌, ◌≢◌, ap, arith, Bytes, Bool-cases,
  length, length-append, ltb, not-ltb→le, ◌==◌, ne→not-==, if◌then◌else◌, equal, slice,
  slice-ne-fault, Result, ok, fault, >>=-ne-fault, reject-ne-fault, or_err-ne-fault, inl, inr,
}

-- The value of the first option 71, else `before`.
abbrev pub first_71 : List (ℕ × Bytes) → Option Bytes → Option Bytes
first_71 [] before = before
first_71 ((t, v) ∷ os) before = if t == 71 then some v else first_71 os before

pub find_boot_type-first_71 :
    (f : ℕ) {os : List (ℕ × Bytes)} {b : Bytes} (before : Option Bytes)
    → IsOptions os b
    → length b < f
    → find_boot_type f (dhcp_option b) before ≡ ok (first_71 os before)
unfolding find_boot_type
find_boot_type-first_71 zero before o h = absurd (omega arith)
find_boot_type-first_71 (suc f) {b = b} before (stop s) h = rw (dhcp_option-stop b s)
find_boot_type-first_71 (suc f) before (option {v = v} {t = t} {os = os} rest e ne o) h =
    let later =
      find_boot_type-first_71 f before o (omega (arith, ap length e, length-append {0} v rest)) in
    rw (e, dhcp_option-append t v rest ne)
      (by_type (find_boot_type f (dhcp_option rest) before) later)
  where
    by_type :
        (r : Result PxeError (Option Bytes))
        → r ≡ ok (first_71 os before)
        → (if t == 255 then ok before else if t == 71 then ok (some v) else r)
          ≡ ok (if t == 71 then some v else first_71 os before)
    by_type r l = rw (ne→not-== t 255 ne, l) (ground arith)

check_option-ne-fault :
    (mac ip : Bytes) (t : ℕ) (v : Bytes) (s : Found) → check_option mac ip t v s ≢ fault
unfolding check_option
check_option-ne-fault mac ip t v s = elim (Bool-cases (t == 43)) [
  | inl e ↦
      let (os, o) = bytes-IsOptions v in
      rw (e, find_boot_type-first_71 (suc (length v)) s.boot_type o (omega arith)) (λ k. cc)
  | inr ne ↦ elim (Bool-cases (t == 97)) [
    | inl e ↦ rw (ne, e) (>>=-ne-fault (parse_guid _ v) _ (parse_guid-ne-fault _ v) (λ g _ k. cc))
    | inr ne' ↦ rw (ne, ne') (λ k. cc)
  ]
]

-- Whatever the datagram, `ParsePXE` neither panics nor loops on.
pub parse_pxe-ne-fault : (b : Bytes) → parse_pxe b ≢ fault
unfolding parse_pxe
parse_pxe-ne-fault b = reject-ne-fault (ltb (length b) 240) _ _ λ short.
    let long : 240 ≤ length b = not-ltb→le _ _ short in
    >>=-ne-fault (slice b 4 8) _ (slice-ne-fault b 4 8 (omega arith) (omega arith)) λ tid _.
      >>=-ne-fault (slice b 28 34) _ (slice-ne-fault b 28 34 (omega arith) (omega arith)) λ mac _.
        >>=-ne-fault (slice b 12 16) _ (slice-ne-fault b 12 16 (omega arith) (omega arith)) λ ip _.
          >>=-ne-fault (slice b 236 240) _ (slice-ne-fault b 236 240 (omega arith) (omega arith))
            λ magic _. reject-ne-fault (not (equal magic dhcp_magic)) _ _ λ _.
              >>=-ne-fault (slice b 240 (length b)) _
                (slice-ne-fault b 240 (length b) (omega arith) (omega arith))
                λ opts _.
                  let (os, o) = bytes-IsOptions opts in
                  >>=-ne-fault (walk (check_option mac ip) (suc (length opts)) (dhcp_option opts) _)
                    _
                    (rw (walk-check_all (check_option mac ip) (suc (length opts)) _ o (omega arith))
                      (check_all-ne-fault (check_option mac ip) (check_option-ne-fault mac ip) os
                        _))
                    λ s _.
                      >>=-ne-fault _ _ (or_err-ne-fault s.guid _)
                        λ g _. >>=-ne-fault _ _ (or_err-ne-fault s.boot_type _) λ bt _ k. cc
