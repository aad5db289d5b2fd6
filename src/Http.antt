-- ===== src/Http.antt =====
-- http/http.go: the HTTP server that pxelinux talks to.
pub mod Config
pub mod Files
pub mod Served
pub mod Sharing
use pixiecore.Prelude.{ℕ, ◌++◌, [], ◌∷◌, Bytes, codes}

-- What a handler writes: status, content type and body. A panic aborts the response. The mux
-- sends a client to another path with status 301.
pub data Response : Type 0 where
  answered : ℕ → Bytes → Bytes → Response
  aborted : Response
  moved : Bytes → Response

-- `http.Error`
abbrev pub http_error : Bytes → ℕ → Response
http_error message status =
    answered status (codes "text/plain; charset=utf-8") (message ++ (b'\n' ∷ []))
