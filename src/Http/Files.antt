-- ===== src/Http/Files.antt =====
-- http/http.go: `Ldlinux`, `File`, and the handlers that `ServeHTTP` registers.
pub mod Boots
use pixiecore.Api.{Content, Booter}
use pixiecore.Base64.{decode}
use pixiecore.Filepath.{base}
use pixiecore.Http.Config.{pxelinux_config}
use pixiecore.Http.{Response, answered, aborted, moved, http_error}
use pixiecore.Strings.{after_prefix}
use pixiecore.Prelude.{
  Bool, true, false, [], ◌∷◌, Option, none, some, Bytes, codes, equal, if◌then◌else◌, Result, ok,
  err, fault,
}

abbrev pub octet_stream : Bytes
octet_stream = codes "application/octet-stream"

-- `io.Copy` writes what the stream holds; an error at its end is logged, and the response ends there.
unfoldable pub copy_file : {E : Type 0} → Result E (Content × Bytes) → Response
copy_file (ok (c, pretty)) = answered 200 octet_stream c.bytes
copy_file (err e) = http_error (codes "Couldn't get byte stream") 500
copy_file fault = aborted

module _ {S E : Type 0} (booter : Booter S E) where
  unfoldable pub file_of : Option Bytes → Response
  unfolding copy_file
  file_of none = http_error (codes "Malformed file ID") 400
  file_of (some id) = copy_file (booter.file id)

  -- `File`, for a path
  unfoldable pub serve_file : Bytes → Response
  unfolding file_of
  serve_file path = file_of (decode (base path))

  abbrev pub is_under : Option Bytes → Bool
  is_under none = false
  is_under (some rest) = true

  -- The handlers of `ServeHTTP`, for a path that is clean; `ldlinux` is the embedded file.
  unfoldable pub serve_http : Bytes → S → Bytes → S × Response
  unfolding serve_file
  serve_http ldlinux s path =
      if equal path (codes "/ldlinux.c32")
      then (s, answered 200 octet_stream ldlinux)
      else if equal path (codes "/pxelinux.cfg")
      then (s, moved (codes "/pxelinux.cfg/"))
      else if equal path (codes "/f")
      then (s, moved (codes "/f/"))
      else if is_under (after_prefix (codes "/pxelinux.cfg/") path)
      then pxelinux_config booter s path
      else if is_under (after_prefix (codes "/f/") path)
      then (s, serve_file path)
      else (s, http_error (codes "404 page not found") 404)
