-- ===== src/Dhcp/Parse/Accepts.antt =====
-- dhcp/dhcp.go: the packets that `ParseDHCP` accepts, described without the parser.
use pixiecore.Dhcp.Options.Checks.{walk-check_all, Folds, check_all-Folds, Folds-check_all}
use pixiecore.Dhcp.Options.Walk.{IsOptions, bytes-IsOptions}
use pixiecore.Dhcp.Options.{dhcp_option, walk}
use pixiecore.Dhcp.Packet.{DhcpPacket, dhcp_magic}
use pixiecore.Dhcp.Parse.Checks.{Passes, check_option_iff}
use pixiecore.Dhcp.Parse.{DhcpError, check_option, parse_dhcp}
use pixiecore.Prelude.{
  ℕ, suc, ◌≤◌, false, not, ◌&&◌, List, [], Option, none, some, ◌≡◌, ◌↔◌, ◌⊎◌, inl, inr, sym, ap,
  ◌∙◌, arith, Bytes, length, take, drop, get_elem?, ltb, not-ltb→le, le→not-ltb, ◌==◌, ==_iff,
  not-false, equal, equal_iff, slice, slice-ok, slice-tail, index, index-get_elem?, get_elem?-index,
  index-ok, ok, after_ok, after_some, after_reject, ok-injective,
}

-- What `ParseDHCP` takes for the PXE discovery `p`, which has no server address yet.
pub record IsDiscover (b : Bytes) (p : DhcpPacket) : Type 0 where
  pub long : 240 ≤ length b
  pub request : get_elem? b 0 ≡ some 1
  pub ethernet : (get_elem? b 1 ≡ some 1) ⊎ (get_elem? b 2 ≡ some 6)
  pub magic : take 4 (drop 236 b) ≡ dhcp_magic
  pub tid : p.tid ≡ take 4 (drop 4 b)
  pub mac : p.mac ≡ take 6 (drop 28 b)
  pub no_server : p.server_ip ≡ []
  pub options : List (ℕ × Bytes)
  pub holds : IsOptions options (drop 240 b)
  pub pass : Folds Passes options none (some p.guid)

either : (x y : ℕ) → not (x == 1) && not (y == 6) ≡ false → (x ≡ 1) ⊎ (y ≡ 6)
either x y h = ground arith

neither : (x y : ℕ) → (x ≡ 1) ⊎ (y ≡ 6) → not (x == 1) && not (y == 6) ≡ false
neither x y h = ground arith

ethernet_bytes :
    (b : Bytes) {x y : ℕ}
    → get_elem? b 1 ≡ some x
    → get_elem? b 2 ≡ some y
    → (x ≡ 1) ⊎ (y ≡ 6)
    → (get_elem? b 1 ≡ some 1) ⊎ (get_elem? b 2 ≡ some 6)
ethernet_bytes b e f (inl h) = inl (e ∙ ap (λ (z : ℕ). some z) h)
ethernet_bytes b e f (inr h) = inr (f ∙ ap (λ (z : ℕ). some z) h)

walk-Folds :
    (mac opts : Bytes) {g : Option Bytes}
    → walk (check_option mac) (suc (length opts)) (dhcp_option opts) none ≡ ok g
    → (os : List (ℕ × Bytes)) × IsOptions os opts × Folds Passes os none g
walk-Folds mac opts {g} h =
    let (os, o) = bytes-IsOptions opts in
    (
      os,
      o,
      check_all-Folds (check_option mac) Passes (check_option_iff mac) os none g
          (rw (walk-check_all (check_option mac) (suc (length opts)) none o (omega arith)) at h),
    )

parse_dhcp-IsDiscover : (b : Bytes) {p : DhcpPacket} → parse_dhcp b ≡ ok p → IsDiscover b p
unfolding parse_dhcp
parse_dhcp-IsDiscover b {p} e = after_reject (ltb (length b) 240) _ _ e λ short h₁.
    let long : 240 ≤ length b = not-ltb→le _ _ short in
    after_ok (slice b 4 8) _ h₁ λ tid tid_is h₂. after_ok (slice b 28 34) _ h₂ λ mac mac_is h₃.
      after_ok (index b 0) _ h₃ λ op op_is h₄. after_reject (not (op == 1)) _ _ h₄ λ bootp h₅.
        after_ok (index b 1) _ h₅ λ htype htype_is h₆. after_ok (index b 2) _ h₆ λ hlen hlen_is h₇.
          after_reject (not (htype == 1) && not (hlen == 6)) _ _ h₇ λ phy h₈.
            after_ok (slice b 236 240) _ h₈ λ magic magic_is h₉.
              after_reject (not (equal magic dhcp_magic)) _ _ h₉ λ dhcp h₁₀.
                after_ok (slice b 240 (length b)) _ h₁₀ λ opts opts_is h₁₁.
                  after_ok (walk (check_option mac) (suc (length opts)) (dhcp_option opts) none) _
                    h₁₁
                    λ guid walked h₁₂. after_some guid _ _ h₁₂ λ g guid_is h₁₃.
                      let same = ok-injective h₁₃ in
                      let part =
                        λ (i j : ℕ) (x : Bytes) (le : i ≤ j) (le' : j ≤ length b)
                            (r : slice {E = DhcpError} b i j ≡ ok x).
                          ok-injective (sym r ∙ slice-ok b i j le le') in
                      let tail : opts ≡ drop 240 b =
                        ok-injective (sym opts_is ∙ slice-tail {E = DhcpError} b 240 long) in
                      let guid_of : guid ≡ some p.guid =
                        guid_is ∙ ap (λ (q : DhcpPacket). some q.guid) same in
                      let read = walk-Folds mac (drop 240 b) (rw (tail, guid_of) at walked) in
                      record {
                        long = long;
                        request =
                            index-get_elem? b 0 op_is
                            ∙ ap (λ (x : ℕ). some x) ((==_iff op 1).0 (not-false _ bootp));
                        ethernet =
                            ethernet_bytes b (index-get_elem? b 1 htype_is)
                              (index-get_elem? b 2 hlen_is) (either htype hlen phy);
                        magic =
                            sym (part 236 240 magic (omega arith) (omega arith) magic_is)
                            ∙ (equal_iff magic dhcp_magic).0 (not-false _ dhcp);
                        tid =
                            ap (λ (q : DhcpPacket). q.tid) (sym same)
                            ∙ part 4 8 tid (omega arith) (omega arith) tid_is;
                        mac =
                            ap (λ (q : DhcpPacket). q.mac) (sym same)
                            ∙ part 28 34 mac (omega arith) (omega arith) mac_is;
                        no_server = ap (λ (q : DhcpPacket). q.server_ip) (sym same);
                        options = read.0;
                        holds = read.1;
                        pass = read.2;
                      }

parse_header :
    (b : Bytes) {x y : ℕ}
    → (get_elem? b 1 ≡ some 1) ⊎ (get_elem? b 2 ≡ some 6)
    → index {E = DhcpError} b 1 ≡ ok x
    → index {E = DhcpError} b 2 ≡ ok y
    → not (x == 1) && not (y == 6) ≡ false
parse_header b {x} {y} (inl h) e f =
    neither x y (inl (ok-injective {E = DhcpError} (sym e ∙ get_elem?-index b 1 h)))
parse_header b {x} {y} (inr h) e f =
    neither x y (inr (ok-injective {E = DhcpError} (sym f ∙ get_elem?-index b 2 h)))

IsDiscover-parse_dhcp : (b : Bytes) {p : DhcpPacket} → IsDiscover b p → parse_dhcp b ≡ ok p
unfolding parse_dhcp
IsDiscover-parse_dhcp b {p} d =
    let long : 240 ≤ length b = d.long in
    let mac = take 6 (drop 28 b) in
    let (htype, e₁) = index-ok {E = DhcpError} b 1 (omega arith) in
    let (hlen, e₂) = index-ok {E = DhcpError} b 2 (omega arith) in
    let magic_is = (equal_iff (take 4 (drop 236 b)) dhcp_magic).1 d.magic in
    let checks =
      Folds-check_all (check_option mac) Passes (check_option_iff mac) d.options none (some p.guid)
        d.pass in
    let walked =
      walk-check_all (check_option mac) (suc (length (drop 240 b))) none d.holds (omega arith) in
    let header : record { tid = take 4 (drop 4 b); mac = mac; guid = p.guid; server_ip = [] } ≡ p =
      λ i. record {
        tid = sym d.tid i;
        mac = sym d.mac i;
        guid = p.guid;
        server_ip = sym d.no_server i;
      } in
    rw
      (
        le→not-ltb (length b) 240 long,
        slice-ok {E = DhcpError} b 4 8 (omega arith) (omega arith),
        slice-ok {E = DhcpError} b 28 34 (omega arith) (omega arith),
        get_elem?-index {E = DhcpError} b 0 d.request,
        e₁,
        e₂,
        parse_header b d.ethernet e₁ e₂,
        slice-ok {E = DhcpError} b 236 240 (omega arith) (omega arith),
        magic_is,
        slice-tail {E = DhcpError} b 240 long,
        walked,
        checks,
      )
      (ap (λ (q : DhcpPacket). ok q) header)

-- `ParseDHCP` accepts a datagram exactly when it has at least 240 bytes, the opcode of a request,
-- hardware type 1 or address length 6, the DHCP magic, and options that all pass: a message type
-- of DISCOVER, an architecture of 0 and a 17-byte UUID behind a zero byte, where they occur, and a
-- UUID at least once. It returns the transaction id and the hardware address of the packet, the
-- last UUID, and no server address.
pub parse_dhcp_iff : (b : Bytes) (p : DhcpPacket) → (parse_dhcp b ≡ ok p) ↔ IsDiscover b p
parse_dhcp_iff b p = (λ e. parse_dhcp-IsDiscover b e, λ d. IsDiscover-parse_dhcp b d)
