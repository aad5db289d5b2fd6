-- ===== src/Example/Answers.antt =====
-- example/main.go with api/api.go: a remote booter of the sample API server.
use pixiecore.Api.Remote.{Get, get_failed, got, Answer}
use pixiecore.Api.{Content}
use pixiecore.Example.{SampleFlags, Served, sent, broken, sample_http}
use pixiecore.Prelude.{[], ◌∷◌, ◌++◌, ◌≡◌, Bytes, codes, Result}

-- What the HTTP client makes of a response.
abbrev pub reply_of : {E : Type 0} → E → Served → Get E
reply_of lost (sent status c) = got status c
reply_of lost broken = get_failed lost

-- A URL on the host, for what stands behind the slash.
abbrev pub on_host : Bytes → Bytes → Bytes
on_host host rest = codes "http://" ++ (host ++ (b'/' ∷ rest))

-- What the sample server tells every machine to boot.
abbrev pub told : SampleFlags → Bytes → Answer
told f host = record {
  kernel = on_host host (codes "kernel");
  initrd = on_host host (codes "initrd") ∷ [];
  cmdline = f.kernel_cmdline;
}

-- Requests for a URL on the host reach the sample server, with the path of the URL.
abbrev pub Reaches :
    {E : Type 0}
    → (Bytes → Get E)
    → (Answer → Bytes)
    → (Bytes → Result E Content)
    → E
    → SampleFlags
    → Bytes
    → Type 0
Reaches get json_encode os_open lost f host =
    (rest : Bytes)
    → get (on_host host rest) ≡ reply_of lost (sample_http json_encode os_open f host (b'/' ∷ rest))
