-- ===== src/Dhcp/Parse/Safety.antt =====
-- dhcp/dhcp.go: `ParseDHCP` does not panic, and its loop ends.
use pixiecore.Dhcp.Options.Checks.{walk-check_all, check_all-ne-fault}
use pixiecore.Dhcp.Options.Walk.{bytes-IsOptions}
use pixiecore.Dhcp.Options.{dhcp_option, walk}
use pixiecore.Dhcp.Packet.{dhcp_magic}
use pixiecore.Dhcp.Parse.{parse_guid, check_option, parse_dhcp}
use pixiecore.Prelude.{
  ℕ, suc, ◌≤◌, not, ◌&&◌, Option, none, ◌≡◌, ◌≢◌, arith, Bytes, Bool-cases, length, ltb, not-ltb→le,
  ◌==◌, ==_iff, equal, slice, slice-ne-fault, index, index-ne-fault, uint16, uint16-ne-fault, fault,
  >>=-ne-fault, reject-ne-fault, or_err-ne-fault, not-false, inl, inr,
}

pub parse_guid-ne-fault : {E : Type 0} (e : E) (val : Bytes) → parse_guid e val ≢ fault
unfolding parse_guid
parse_guid-ne-fault e val = reject-ne-fault (not (length val == 17)) _ _ λ size.
    let is17 : length val ≡ 17 = (==_iff (length val) 17).0 (not-false _ size) in
    >>=-ne-fault (index val 0) _ (index-ne-fault val 0 (omega arith)) λ z _.
      reject-ne-fault (not (z == 0)) _ _ λ _.
        >>=-ne-fault (slice val 1 (length val)) _
          (slice-ne-fault val 1 (length val) (omega arith) (omega arith)) λ g _ k. cc

pub check_option-ne-fault :
    (mac : Bytes) (t : ℕ) (v : Bytes) (g : Option Bytes) → check_option mac t v g ≢ fault
unfolding check_option
check_option-ne-fault mac t v g = elim (Bool-cases (t == 53)) [
  | inl e ↦ rw e (
      reject-ne-fault (not (length v == 1)) _ _ λ size.
        let is1 : length v ≡ 1 = (==_iff (length v) 1).0 (not-false _ size) in
        >>=-ne-fault (index v 0) _ (index-ne-fault v 0 (omega arith))
          λ kind _. reject-ne-fault (not (kind == 1)) _ _ λ _ k. cc)
  | inr ne ↦ elim (Bool-cases (t == 93)) [
    | inl e ↦
        rw (ne, e)
          (reject-ne-fault (not (length v == 2)) _ _ λ size.
            let is2 : length v ≡ 2 = (==_iff (length v) 2).0 (not-false _ size) in
            >>=-ne-fault (uint16 v 0) _ (uint16-ne-fault v 0 (omega arith))
              λ arch _. reject-ne-fault (not (arch == 0)) _ _ λ _ k. cc)
    | inr ne' ↦ elim (Bool-cases (t == 97)) [
      | inl e ↦ rw (ne, ne', e) (parse_guid-ne-fault _ v)
      | inr ne'' ↦ rw (ne, ne', ne'') (λ k. cc)
    ]
  ]
]

-- Whatever the datagram, `ParseDHCP` neither panics nor loops on.
pub parse_dhcp-ne-fault : (b : Bytes) → parse_dhcp b ≢ fault
unfolding parse_dhcp
parse_dhcp-ne-fault b = reject-ne-fault (ltb (length b) 240) _ _ λ short.
    let long : 240 ≤ length b = not-ltb→le _ _ short in
    >>=-ne-fault (slice b 4 8) _ (slice-ne-fault b 4 8 (omega arith) (omega arith)) λ tid _.
      >>=-ne-fault (slice b 28 34) _ (slice-ne-fault b 28 34 (omega arith) (omega arith)) λ mac _.
        >>=-ne-fault (index b 0) _ (index-ne-fault b 0 (omega arith)) λ op _.
          reject-ne-fault (not (op == 1)) _ _ λ _.
            >>=-ne-fault (index b 1) _ (index-ne-fault b 1 (omega arith)) λ htype _.
              >>=-ne-fault (index b 2) _ (index-ne-fault b 2 (omega arith)) λ hlen _.
                reject-ne-fault (not (htype == 1) && not (hlen == 6)) _ _ λ _.
                  >>=-ne-fault (slice b 236 240) _
                    (slice-ne-fault b 236 240 (omega arith) (omega arith))
                    λ magic _. reject-ne-fault (not (equal magic dhcp_magic)) _ _ λ _.
                      >>=-ne-fault (slice b 240 (length b)) _
                        (slice-ne-fault b 240 (length b) (omega arith) (omega arith))
                        λ opts _.
                          let (os, o) = bytes-IsOptions opts in
                          >>=-ne-fault
                            (walk (check_option mac) (suc (length opts)) (dhcp_option opts) none) _
                            (rw
                              (walk-check_all (check_option mac) (suc (length opts)) none o
                                (omega arith))
                              (check_all-ne-fault (check_option mac) (check_option-ne-fault mac) os
                                none))
                            λ guid _. >>=-ne-fault _ _ (or_err-ne-fault guid _) λ g _ k. cc
