-- ===== src/Logging.antt =====
-- log/logging.go: `Log`, `Debug` and the loop of `RecordLogs`, over the entries that arrive on its channel.
use pixiecore.Prelude.{
  Bool, true, false, not, ◌&&◌, List, [], ◌∷◌, ◌++◌, ◌≡◌, refl, Bytes, codes, if◌then◌else◌,
}

-- `LogEntry`
pub record LogEntry : Type 0 where
  pub subsystem : Bytes
  pub is_debug : Bool
  pub msg : Bytes

-- What `Log` and `Debug` send, for a message that is formatted.
abbrev pub log_entry : Bytes → Bytes → LogEntry
log_entry subsystem msg = record { subsystem = subsystem; is_debug = false; msg = msg }

abbrev pub debug_entry : Bytes → Bytes → LogEntry
debug_entry subsystem msg = record { subsystem = subsystem; is_debug = true; msg = msg }

-- the line that `log.Printf` is given
abbrev pub log_line : LogEntry → Bytes
log_line l = b'[' ∷ (l.subsystem ++ (b']' ∷ b' ' ∷ l.msg))

-- `RecordLogs`: the lines printed
unfoldable pub record_logs : Bool → List LogEntry → List Bytes
record_logs debug [] = []
record_logs debug (l ∷ ls) =
    let rest = record_logs debug ls in if l.is_debug && not debug then rest else log_line l ∷ rest

runs :
    (record_logs false
        (log_entry (codes "PXE") (codes "a") ∷ debug_entry (codes "PXE") (codes "b") ∷ [])
      ≡ codes "[PXE] a" ∷ [])
    × (record_logs true (debug_entry (codes "PXE") (codes "b") ∷ []) ≡ codes "[PXE] b" ∷ [])
unfolding record_logs
runs = (refl, refl)
