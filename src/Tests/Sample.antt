-- ===== src/Tests/Sample.antt =====
-- example/main.go: a remote booter of the sample API server, over a client that reaches nothing else.
use pixiecore.Api.Remote.{Get, get_failed, Answer, RemoteBooter}
use pixiecore.Api.{Content}
use pixiecore.Example.Answers.{reply_of, on_host}
use pixiecore.Example.{SampleFlags, sample_http}
use pixiecore.Strings.{split, join, after_prefix}
use pixiecore.Tests.Modes.{disk}
use pixiecore.Prelude.{
  Bool, List, [], ◌∷◌, Option, none, some, Bytes, codes, zeros, equal, ◌||◌, Result, ok, err,
}

abbrev sample_flags : SampleFlags
sample_flags = record {
  kernel_file = codes "/k";
  initrd_file = codes "/a";
  kernel_cmdline = codes "quiet";
}

-- One line for the kernel, one for the command line, and one for each initrd.
abbrev encoder : Answer → Bytes
encoder r = join b'\n' (r.kernel ∷ r.cmdline ∷ r.initrd)

abbrev of_lines : List Bytes → Result Bytes Answer
of_lines [] = err (codes "no kernel")
of_lines (kernel ∷ []) = err (codes "no command line")
of_lines (kernel ∷ cmdline ∷ initrd) =
    ok (record { kernel = kernel; initrd = initrd; cmdline = cmdline })

abbrev decoder : Content → Result Bytes Answer
decoder c = of_lines (split b'\n' c.bytes)

abbrev lost : Bytes
lost = codes "connection lost"

abbrev request : Option Bytes → Get Bytes
request none = get_failed lost
request (some path) = reply_of lost (sample_http encoder disk sample_flags (codes "h") path)

abbrev sample_get : Bytes → Get Bytes
sample_get url = request (after_prefix (codes "http://h") url)

abbrev plain_url : Bytes → Bool
plain_url u =
    equal u (on_host (codes "h") (codes "kernel")) || equal u (on_host (codes "h") (codes "initrd"))

abbrev sample_booter : RemoteBooter
sample_booter = record { url_prefix = codes "http://h/v1"; key = zeros 32 }
