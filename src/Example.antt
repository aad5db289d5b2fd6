-- ===== src/Example.antt =====
-- example/main.go: the sample API server. `json_encode` is the encoder, and `copied` the stream that
-- `io.Copy` reads.
pub mod Answers
use pixiecore.Api.Remote.{Answer}
use pixiecore.Api.{Content}
use pixiecore.Strings.{after_prefix}
use pixiecore.Prelude.{
  ℕ, Bool, true, false, [], ◌∷◌, ◌++◌, Option, none, some, Bytes, codes, equal, if◌then◌else◌,
  Result, ok, err, fault,
}

-- The flags of the sample server.
pub record SampleFlags : Type 0 where
  pub kernel_file : Bytes
  pub initrd_file : Bytes
  pub kernel_cmdline : Bytes

-- What a client reads: a status and a body. A panic breaks the connection.
pub data Served : Type 0 where
  sent : ℕ → Content → Served
  broken : Served

abbrev pub file_url : Bytes → Bytes → Bytes
file_url host name = codes "http://" ++ (host ++ (b'/' ∷ name))

-- `resp` of `API`
abbrev pub api_answer : SampleFlags → Bytes → Answer
api_answer f host = record {
  kernel = file_url host (codes "kernel");
  initrd = file_url host (codes "initrd") ∷ [];
  cmdline = f.kernel_cmdline;
}

-- `serveFile`: an error of the file, also at its end, is a panic
unfoldable pub sample_file : {E : Type 0} → Result E Content → Served
sample_file (ok c) = if c.complete then sent 200 c else broken
sample_file (err e) = broken
sample_file fault = broken

module _ {E : Type 0} (json_encode : Answer → Bytes) (os_open : Bytes → Result E Content) where
  -- `API`
  unfoldable pub sample_api : SampleFlags → Bytes → Served
  sample_api f host = sent 200 (record { bytes = json_encode (api_answer f host); complete = true })

  abbrev pub is_under : Option Bytes → Bool
  is_under none = false
  is_under (some rest) = true

  -- the handlers of `main`, for the host of a request and its path
  unfoldable pub sample_http : SampleFlags → Bytes → Bytes → Served
  unfolding sample_api sample_file
  sample_http f host path =
      if equal path (codes "/kernel")
      then sample_file (os_open f.kernel_file)
      else if equal path (codes "/initrd")
      then sample_file (os_open f.initrd_file)
      else if is_under (after_prefix (codes "/v1/boot/") path)
      then sample_api f host
      else sent 404 (record { bytes = codes "404 page not found\n"; complete = true })
