-- ===== src/Pxe/Reply/Layout.antt =====
-- pxe/pxe.go: when a reply is a well-formed DHCP packet.
use mathlib.Core.List.{append_cancel_left}
use pixiecore.Dhcp.Offer.Layout.{reply_header, tlv}
use pixiecore.Dhcp.Options.Walk.{IsOptions, stop, option}
use pixiecore.Dhcp.Packet.{dhcp_magic}
use pixiecore.Pxe.Parse.{PxePacket}
use pixiecore.Pxe.Reply.{reply_bootp, reply_pxe}
use pixiecore.Prelude.{
  ℕ, ◌%◌, ◌<◌, List, [], ◌∷◌, ◌++◌, ◌≡◌, ◌≢◌, refl, sym, ap, ap₂, ◌∙◌, arith, Bytes, codes, length,
  length-append, copy, zeros, append_assoc,
}

-- A packet whose fields have the lengths that the server gives them, but for the boot type.
pub record IsSized (p : PxePacket) : Type 0 where
  pub tid_size : length p.tid ≡ 4
  pub mac_size : length p.mac ≡ 6
  pub guid_size : length p.guid ≡ 16
  pub ip_size : length p.server_ip ≡ 4
  pub client_size : length p.client_ip ≡ 4
  pub url_size : length p.http_server < 256

reply_bootp_lem :
    (tid client server mac : Bytes)
    → length tid ≡ 4
    → length client ≡ 4
    → length server ≡ 4
    → length mac ≡ 6
    → reply_bootp tid client server mac
      ≡ reply_header tid client server mac (zeros 74 ++ (codes "boot" ++ zeros 124))
unfolding reply_bootp copy
reply_bootp_lem (a ∷ b ∷ c ∷ d ∷ []) (e ∷ f ∷ g ∷ h ∷ []) (i ∷ j ∷ k ∷ l ∷ [])
      (m ∷ n ∷ o ∷ p ∷ q ∷ r ∷ []) _ _ _ _ =
    refl
reply_bootp_lem tid client server mac t c s m = absurd (omega arith)

-- The options of a reply: DHCPACK, the server, the vendor class, the client's UUID, the vendor options,
-- the path prefix of pxelinux and its reboot time.
abbrev pub replied : PxePacket → Bytes → List (ℕ × Bytes)
replied p vendor =
    (53, 5 ∷ [])
    ∷ (54, p.server_ip)
    ∷ (60, codes "PXEClient")
    ∷ (97, 0 ∷ p.guid)
    ∷ (43, vendor)
    ∷ (210, p.http_server)
    ∷ (211, 0 ∷ 0 ∷ 0 ∷ 5 ∷ [])
    ∷ []

-- `b` is a reply to the client of `p`, from its server address.
pub record IsReply (p : PxePacket) (b : Bytes) : Type 0 where
  pub options : Bytes
  pub layout :
      b
      ≡ reply_header p.tid p.client_ip p.server_ip p.mac (zeros 74 ++ (codes "boot" ++ zeros 124))
        ++ (dhcp_magic ++ options)
  pub vendor : Bytes
  pub holds : IsOptions (replied p vendor) options
  pub mirrored : IsOptions ((71, p.boot_type) ∷ []) vendor

-- The request with the address and the URL that it is answered with.
abbrev pub answered_with : PxePacket → Bytes → Bytes → PxePacket
answered_with p server url = record {
  dhcp = record (p.dhcp) { server_ip = server };
  client_ip = p.client_ip;
  boot_type = p.boot_type;
  http_server = url;
}

-- what stands behind the magic of a reply
abbrev behind_vendor : PxePacket → Bytes
behind_vendor p =
    (255 ∷ [])
    ++ ((210 ∷ (length p.http_server % 256) ∷ [])
        ++ (p.http_server ++ ((211 ∷ 4 ∷ 0 ∷ 0 ∷ 0 ∷ 5 ∷ []) ++ (255 ∷ []))))

abbrev reply_options : PxePacket → Bytes
reply_options p =
    (53 ∷ 1 ∷ 5 ∷ [])
    ++ ((54 ∷ 4 ∷ [])
        ++ (p.server_ip
            ++ ((60 ∷ 9 ∷ [])
                ++ (codes "PXEClient"
                    ++ ((97 ∷ 17 ∷ 0 ∷ [])
                        ++ (p.guid
                            ++ ((43 ∷ 7 ∷ 71 ∷ 4 ∷ []) ++ (p.boot_type ++ behind_vendor p))))))))

tlv_43 :
    {os : List (ℕ × Bytes)} (bt rest : Bytes)
    → length bt ≡ 4
    → IsOptions os rest
    → IsOptions ((43, 71 ∷ 4 ∷ (bt ++ (255 ∷ []))) ∷ os) (43 ∷ 7 ∷ 71 ∷ 4 ∷ (bt ++ (255 ∷ rest)))
tlv_43 bt rest n o = rw (append_assoc bt (255 ∷ []) rest) at (
    tlv 43 7 (71 ∷ 4 ∷ (bt ++ (255 ∷ []))) rest (omega (arith, length-append {0} bt (255 ∷ [])))
      (omega arith) o)

-- A reply to a packet whose fields have their lengths, with a boot type of 4 bytes, is a DHCP reply
-- that echoes the client's transaction id, IP address and hardware address. A reader of its
-- options finds DHCPACK, the server, the class PXEClient, the UUID, the boot type mirrored as
-- vendor option 71, the URL of the HTTP server and a reboot time of 5 seconds.
pub reply_pxe-IsReply :
    (p : PxePacket) → IsSized p → length p.boot_type ≡ 4 → IsReply p (reply_pxe p)
unfolding reply_pxe
reply_pxe-IsReply p h n = record {
  options = reply_options p;
  layout = rw (
      reply_bootp_lem p.tid p.client_ip p.server_ip p.mac h.tid_size h.client_size h.ip_size
        h.mac_size);
  vendor = 71 ∷ 4 ∷ (p.boot_type ++ (255 ∷ []));
  holds = tlv 53 1 (5 ∷ []) _ refl (omega arith) (
      tlv 54 4 p.server_ip _ (sym h.ip_size) (omega arith) (
        tlv 60 9 (codes "PXEClient") _ refl (omega arith) (
          tlv 97 17 (0 ∷ p.guid) _ (omega (arith, h.guid_size)) (omega arith) (
            tlv_43 p.boot_type _ n (
              tlv 210 (length p.http_server % 256) p.http_server _ (omega (arith, h.url_size))
                (omega arith)
                (tlv 211 4 (0 ∷ 0 ∷ 0 ∷ 5 ∷ []) (255 ∷ []) refl (omega arith) (stop tt)))))));
  mirrored = tlv 71 4 p.boot_type (255 ∷ []) (sym n) (omega arith) (stop tt);
}

append_inj : (v w : Bytes) {r s : Bytes} → v ++ r ≡ w ++ s → length v ≡ length w → (v ≡ w) × (r ≡ s)
append_inj [] [] e n = (refl, e)
append_inj [] (y ∷ w) e n = absurd (omega arith)
append_inj (x ∷ v) [] e n = absurd (omega arith)
append_inj (x ∷ v) (y ∷ w) {r} {s} e n =
    let tails : v ++ r ≡ w ++ s = cc in
    let heads : x ≡ y = cc in
    let (vs, rs) = append_inj v w tails (omega arith) in
    (ap₂ (λ (a : ℕ) (b : Bytes). a ∷ b) heads vs, rs)

-- A reader of `t`, a length and a value of that length finds that value, and goes on behind it.
read_tlv :
    {os : List (ℕ × Bytes)} {t' : ℕ} {v' : Bytes} (t n : ℕ) (v rest : Bytes)
    → n ≡ length v
    → IsOptions ((t', v') ∷ os) (t ∷ n ∷ (v ++ rest))
    → (v ≡ v') × IsOptions os rest
read_tlv {v' = v'} t n v rest h (option rest' e ne o) =
    let lengths : n ≡ length v' = cc in
    let tails : v ++ rest ≡ v' ++ rest' = cc in
    let (vs, rs) = append_inj v v' tails (omega arith) in (vs, rw rs o)

-- The length byte of an option is the length of its value.
read_length :
    {os : List (ℕ × Bytes)} {t' : ℕ} {v' : Bytes} (t n : ℕ) (rest : Bytes)
    → IsOptions ((t', v') ∷ os) (t ∷ n ∷ rest)
    → (n ≡ length v') × ((r : Bytes) × (rest ≡ v' ++ r))
read_length t n rest (option rest' e ne o) = (cc, (rest', cc))

boot_type_length :
    {vendor bt : Bytes} (r x : Bytes)
    → 71 ∷ 4 ∷ x ≡ vendor ++ r
    → IsOptions ((71, bt) ∷ []) vendor
    → length bt ≡ 4
boot_type_length r x e (option {v = bt} rest f ne o) =
    let g : 71 ∷ 4 ∷ x ≡ 71 ∷ length bt ∷ ((bt ++ rest) ++ r) = e ∙ ap (λ (t : Bytes). t ++ r) f in
    cc

reply_options-boot_type :
    (p : PxePacket) (vendor : Bytes)
    → IsSized p
    → IsOptions (replied p vendor) (reply_options p)
    → IsOptions ((71, p.boot_type) ∷ []) vendor
    → length p.boot_type ≡ 4
reply_options-boot_type p vendor h o m =
    let (_, o₁) = read_tlv 53 1 (5 ∷ []) _ refl o in
    let (_, o₂) = read_tlv 54 4 p.server_ip _ (sym h.ip_size) o₁ in
    let (_, o₃) = read_tlv 60 9 (codes "PXEClient") _ refl o₂ in
    let (_, o₄) = read_tlv 97 17 (0 ∷ p.guid) _ (omega (arith, h.guid_size)) o₃ in
    let (_, (r, e)) = read_length 43 7 _ o₄ in boot_type_length r _ e m

-- A reply with a boot type of any other length is not such a packet: its length bytes are fixed, so
-- no vendor options that a reader finds in it hold the boot type.
pub reply_pxe-not_IsReply :
    (p : PxePacket) → IsSized p → length p.boot_type ≢ 4 → ¬ IsReply p (reply_pxe p)
unfolding reply_pxe
reply_pxe-not_IsReply p h bad r =
    let lay =
      rw
        (reply_bootp_lem p.tid p.client_ip p.server_ip p.mac h.tid_size h.client_size h.ip_size
          h.mac_size)
        at r.layout in
    let options_same = append_cancel_left dhcp_magic _ _ (
      append_cancel_left
        (reply_header p.tid p.client_ip p.server_ip p.mac (zeros 74 ++ (codes "boot" ++ zeros 124)))
        _ _ lay) in
    bad (reply_options-boot_type p r.vendor h (rw (← options_same) at r.holds) r.mirrored)
