-- ===== src/Tests/Requests.antt =====
-- tftp/tftp.go: requests, parsed and answered.
use pixiecore.Prelude.{ℕ, [], ◌∷◌, ◌++◌, ◌≡◌, ◌≢◌, ◌↔◌, refl, Bytes, codes, ok, err, fault}
use pixiecore.Strconv.{atoi}
use pixiecore.Tftp.Packet.{nul_str}
use pixiecore.Tftp.Request.Accepts.{IsRequest, parse_rrq_iff}
use pixiecore.Tftp.Request.Safety.{InRange, parse_rrq-ne-fault, parse_rrq-InRange}
use pixiecore.Tftp.Request.{Rrq, RrqError, bad_mode, unterminated_name, parse_rrq}
use pixiecore.Tftp.Serve.Replies.{Answered, serve_one-Answered}
use pixiecore.Tftp.Serve.{arrived, serve_one}

-- a request for "a" in octet mode, with the given options
abbrev rrq_for : Bytes → Bytes
rrq_for options = 0 ∷ 1 ∷ (codes "a" ++ (0 ∷ (codes "octet" ++ (0 ∷ options))))

abbrev with_blksize : Bytes
with_blksize = rrq_for (
    codes "tsize"
    ++ (0 ∷ (codes "0" ++ (0 ∷ (codes "blksize" ++ (0 ∷ (codes "1468" ++ (0 ∷ []))))))))

abbrev clamped : Rrq
clamped = record { filename = codes "a"; block_size = 1450 }

runs_blksize : parse_rrq with_blksize ≡ ok clamped
unfolding parse_rrq atoi nul_str
runs_blksize = refl

runs_errors :
    (parse_rrq (0 ∷ 1 ∷ (codes "a" ++ (0 ∷ (codes "OCTET" ++ (0 ∷ [])))))
      ≡ err (bad_mode (codes "OCTET")))
    × (parse_rrq (rrq_for (codes "x")) ≡ err unterminated_name)
unfolding parse_rrq atoi nul_str
runs_errors = (refl, refl)

parse_rrq_iff_example : (parse_rrq with_blksize ≡ ok clamped) ↔ IsRequest with_blksize clamped
parse_rrq_iff_example = parse_rrq_iff with_blksize clamped

parse_rrq-ne-fault_example : parse_rrq with_blksize ≢ fault
parse_rrq-ne-fault_example = parse_rrq-ne-fault with_blksize

parse_rrq-InRange_example : InRange 1450
parse_rrq-InRange_example = parse_rrq-InRange with_blksize {req = clamped} runs_blksize

-- a message that names the client alone
abbrev short_text : ℕ → RrqError → Bytes
short_text addr e = codes "client " ++ (addr ∷ [])

serve_one-Answered_example :
    Answered short_text 7 with_blksize (serve_one short_text (arrived 7 with_blksize))
serve_one-Answered_example = serve_one-Answered short_text 7 with_blksize
