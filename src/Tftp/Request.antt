-- ===== src/Tftp/Request.antt =====
-- tftp/tftp.go: `rrq` and `parseRRQ`.
mod Inversion
pub mod Safety
pub mod Accepts
use pixiecore.Prelude.{
  ℕ, zero, suc, Bool, true, false, not, ◌||◌, [], ◌∷◌, Option, none, some, ◌≡◌, refl, Bytes, codes,
  length, ltb, ◌==◌, if◌then◌else◌, equal, slice, index, uint16, ℤ, pos, pos_part, ltb_ℤ, Result,
  ok, err, fault, ◌>>=◌, ◌>>◌, reject_if, or_err,
}
use pixiecore.Strconv.{atoi}
use pixiecore.Tftp.Packet.{nul_str}

pub record Rrq : Type 0 where
  pub filename : Bytes
  pub block_size : ℕ

-- One constructor for each error that `parseRRQ` formats, with what the message quotes.
pub data RrqError : Type 0 where
  too_small not_rrq no_filename no_mode unterminated_name : RrqError
  bad_mode : Bytes → RrqError
  unterminated_value : Bytes → RrqError
  not_integer : Bytes → Bytes → RrqError
  bad_block_size : ℤ → RrqError

-- The `switch opt`: only blksize means anything, and it is clamped to 1450.
unfoldable pub apply_option : Bytes → ℤ → Rrq → Result RrqError Rrq
unfolding equal
apply_option opt val req =
    if equal opt (codes "blksize")
    then (if ltb_ℤ val (pos 8) || ltb_ℤ (pos 65464) val
        then err (bad_block_size val)
        else ok
            (record req { block_size = if ltb 1450 (pos_part val) then 1450 else pos_part val }))
    else ok req

-- `for len(b) > 0`, on fuel
unfoldable pub parse_options : ℕ → Bytes → Rrq → Result RrqError Rrq
unfolding apply_option
parse_options zero b req = fault
parse_options (suc f) [] req = ok req
parse_options (suc f) (c ∷ b) req = do
  (opt, b₁) ← or_err (nul_str (c ∷ b)) unterminated_name
  (val_str, b₂) ← or_err (nul_str b₁) (unterminated_value opt)
  val ← or_err (atoi val_str) (not_integer val_str opt)
  req' ← apply_option opt val req
  parse_options f b₂ req'

-- `parseRRQ`. Each round of its loop takes at least two bytes, so the length is fuel enough.
unfoldable pub parse_rrq : Bytes → Result RrqError Rrq
unfolding parse_options slice uint16 equal
parse_rrq b = do
  reject_if (ltb (length b) 6) too_small
  op ← uint16 b 0
  reject_if (not (op == 1)) not_rrq
  b₀ ← slice b 2 (length b)
  (fname, b₁) ← or_err (nul_str b₀) no_filename
  (mode, b₂) ← or_err (nul_str b₁) no_mode
  reject_if (not (equal mode (codes "octet"))) (bad_mode mode)
  parse_options (suc (length b₂)) b₂ (record { filename = fname; block_size = 0 })
