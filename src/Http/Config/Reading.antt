-- ===== src/Http/Config/Reading.antt =====
-- http/http.go: a reader of a configuration finds the kernel, the initrds and the command line.
use pixiecore.Api.{BootSpec}
use pixiecore.Base64.RoundTrip.{IsSymbol, encode-IsSymbol}
use pixiecore.Base64.{encode}
use pixiecore.Http.Config.{link, link_spec, preamble, config_text}
use pixiecore.Strings.Splitting.{split-append, split-concat, split-join}
use pixiecore.Strings.{split, join, replace, after_prefix}
use pixiecore.Prelude.{
  ℕ, ◌<◌, List, [], ◌∷◌, ◌++◌, map, Option, none, some, ◌≡◌, ◌≢◌, refl, sym, ap, ◌∙◌, arith,
  append_assoc, Bytes, codes, All, All-append, All-map, Lacks, ◌==◌, ==_refl, ne→not-==,
  if◌then◌else◌,
}

abbrev pub or_else : Option Bytes → Option Bytes → Option Bytes
or_else none o = o
or_else (some rest) o = some rest

-- The rest of the first line that starts with `key`.
abbrev pub directive : Bytes → List Bytes → Option Bytes
directive key [] = none
directive key (line ∷ lines) = or_else (after_prefix key line) (directive key lines)

abbrev pub with_char : ℕ → Option (Bytes × Bytes) → Option (Bytes × Bytes)
with_char c none = none
with_char c (some (before, after)) = some (c ∷ before, after)

-- The text in front of the first `sep`, and behind it.
unfoldable pub cut : ℕ → Bytes → Option (Bytes × Bytes)
cut sep [] = none
cut sep (c ∷ s) = let rest = cut sep s in if c == sep then some ([], s) else with_char c rest

-- An empty list of initrds is an empty text.
abbrev pub read_list : Bytes → List Bytes
read_list [] = []
read_list (c ∷ s) = split b',' (c ∷ s)

abbrev read_append : Bytes → Option (Bytes × Bytes) → Option BootSpec
read_append kernel none = none
read_append kernel (some (initrds, cmdline)) =
    some (record { kernel = kernel; initrd = read_list initrds; cmdline = cmdline })

abbrev read_lines : Option Bytes → Option Bytes → Option BootSpec
read_lines (some kernel) (some rest) = read_append kernel (cut b' ' rest)
read_lines _ _ = none

-- What pxelinux takes from a configuration: the kernel of LINUX, and of APPEND the initrds and the
-- arguments of the kernel.
pub read_config : Bytes → Option BootSpec
unfolding cut
read_config cfg =
    let lines = split b'\n' cfg in
    read_lines (directive (codes "LINUX ") lines) (directive (codes "APPEND initrd=") lines)

pub cut-append : (sep : ℕ) (s t : Bytes) → Lacks sep s → cut sep (s ++ (sep ∷ t)) ≡ some (s, t)
unfolding cut
cut-append sep [] t h = rw (==_refl sep)
cut-append sep (c ∷ s) t (p, h) = rw (cut-append sep s t h, ne→not-== c sep p)

link-Lacks : (b : ℕ) (id : Bytes) → b < b'-' → Lacks b (link id)
link-Lacks b id h = (
  omega arith,
  (
    omega arith,
    All-map (encode id) (λ c (s : IsSymbol c). omega (arith, s.low)) (encode-IsSymbol id),
  ),
)

links-Lacks : (b : ℕ) (ids : List Bytes) → b < b'-' → All (Lacks b) (map link ids)
links-Lacks b [] h = tt
links-Lacks b (id ∷ ids) h = (link-Lacks b id h, links-Lacks b ids h)

join-Lacks :
    (b sep : ℕ) (parts : List Bytes) → sep ≢ b → All (Lacks b) parts → Lacks b (join sep parts)
unfolding join
join-Lacks b sep [] ne h = tt
join-Lacks b sep (part ∷ []) ne (h, _) = h
join-Lacks b sep (part ∷ next ∷ parts) ne (h, hs) =
    All-append (λ c. c ≢ b) part (sep ∷ join sep (next ∷ parts)) h
      (ne, join-Lacks b sep (next ∷ parts) ne hs)

-- a link is not empty, so neither is a list of them
read_list-cons :
    (id : Bytes) (ids : List Bytes)
    → read_list (join b',' (map link (id ∷ ids))) ≡ split b',' (join b',' (map link (id ∷ ids)))
unfolding join
read_list-cons id [] = refl
read_list-cons id (next ∷ ids) = refl

read_list-join : (ids : List Bytes) → read_list (join b',' (map link ids)) ≡ map link ids
read_list-join [] = unfold join in refl
read_list-join (id ∷ ids) =
    read_list-cons id ids
    ∙ split-join b',' (link id) (map link ids) (links-Lacks b',' (id ∷ ids) (omega arith))

preamble-lines :
    (directive (codes "LINUX ") (split b'\n' preamble) ≡ none)
    × (directive (codes "APPEND initrd=") (split b'\n' preamble) ≡ none)
unfolding preamble split replace after_prefix
preamble-lines = (refl, refl)

directive-append :
    (key : Bytes) (lines others : List Bytes)
    → directive key lines ≡ none
    → directive key (lines ++ others) ≡ directive key others
directive-append key [] others h = refl
directive-append key (line ∷ lines) others h =
    past (after_prefix key line) h (directive-append key lines others)
  where
    past :
        (o : Option Bytes)
        → or_else o (directive key lines) ≡ none
        → (directive key lines ≡ none → directive key (lines ++ others) ≡ directive key others)
        → or_else o (directive key (lines ++ others)) ≡ directive key others
    past none e ih = ih e
    past (some rest) e ih = cc

-- the lines behind the preamble
abbrev last_lines : BootSpec → List Bytes
last_lines spec =
    (codes "LINUX " ++ spec.kernel)
    ∷ (codes "APPEND initrd=" ++ (join b',' spec.initrd ++ (b' ' ∷ spec.cmdline)))
    ∷ []
    ∷ []

linux_line-Lacks : (id : Bytes) → Lacks b'\n' (codes "LINUX " ++ link id)
linux_line-Lacks id =
    All-append (λ c. c ≢ b'\n') (codes "LINUX ") (link id) (omega arith)
      (link-Lacks b'\n' id (omega arith))

append_line-Lacks :
    (ids : List Bytes) (cmdline : Bytes)
    → Lacks b'\n' cmdline
    → Lacks b'\n' (codes "APPEND initrd=" ++ (join b',' (map link ids) ++ (b' ' ∷ cmdline)))
append_line-Lacks ids cmdline h =
    All-append (λ c. c ≢ b'\n') (codes "APPEND initrd=")
      (join b',' (map link ids) ++ (b' ' ∷ cmdline)) (omega arith)
      (All-append (λ c. c ≢ b'\n') (join b',' (map link ids)) (b' ' ∷ cmdline)
        (join-Lacks b'\n' b',' (map link ids) (omega arith) (links-Lacks b'\n' ids (omega arith)))
        (omega arith, h))

config_text-lines :
    (spec : BootSpec)
    → Lacks b'\n' spec.cmdline
    → split b'\n' (config_text (link_spec spec))
      ≡ split b'\n' preamble ++ last_lines (link_spec spec)
unfolding config_text
config_text-lines spec h =
    let links = join b',' (map link spec.initrd) in
    let first = codes "LINUX " ++ link spec.kernel in
    let second = codes "APPEND initrd=" ++ (links ++ (b' ' ∷ spec.cmdline)) in
    let ended : second ++ (b'\n' ∷ [])
        ≡ codes "APPEND initrd=" ++ (links ++ (b' ' ∷ (spec.cmdline ++ (b'\n' ∷ [])))) =
      ap (λ (t : Bytes). codes "APPEND initrd=" ++ t)
        (append_assoc links (b' ' ∷ spec.cmdline) (b'\n' ∷ [])) in
    split-concat b'\n' preamble (
      first
      ++ (b'\n' ∷ (codes "APPEND initrd=" ++ (links ++ (b' ' ∷ (spec.cmdline ++ (b'\n' ∷ [])))))))
    ∙ ap (λ (t : List Bytes). split b'\n' preamble ++ t)
        (split-append b'\n' first _ (linux_line-Lacks spec.kernel)
          ∙ ap (◌∷◌ first) (
              ap (split b'\n') (sym ended)
              ∙ split-append b'\n' second [] (append_line-Lacks spec.initrd spec.cmdline h)
              ∙ unfold split in refl))

last_lines-directives :
    (spec : BootSpec)
    → (directive (codes "LINUX ") (last_lines spec) ≡ some spec.kernel)
      × (directive (codes "APPEND initrd=") (last_lines spec)
          ≡ some (join b',' spec.initrd ++ (b' ' ∷ spec.cmdline)))
unfolding after_prefix
last_lines-directives spec = (refl, refl)

config_text-directive :
    (key : Bytes) (spec : BootSpec)
    → Lacks b'\n' spec.cmdline
    → directive key (split b'\n' preamble) ≡ none
    → directive key (split b'\n' (config_text (link_spec spec)))
      ≡ directive key (last_lines (link_spec spec))
config_text-directive key spec h none_yet =
    ap (directive key) (config_text-lines spec h)
    ∙ directive-append key (split b'\n' preamble) (last_lines (link_spec spec)) none_yet

-- Of the configuration that is made of a boot spec, with its ids turned into links, a reader takes the
-- kernel's link, the initrds' links in order and the command line, if that has no line break.
pub read_config-config_text :
    (spec : BootSpec)
    → Lacks b'\n' spec.cmdline
    → read_config (config_text (link_spec spec)) ≡ some (link_spec spec)
unfolding read_config
read_config-config_text spec h = rw (
  config_text-directive (codes "LINUX ") spec h preamble-lines.0,
  config_text-directive (codes "APPEND initrd=") spec h preamble-lines.1,
  (last_lines-directives (link_spec spec)).0,
  (last_lines-directives (link_spec spec)).1,
  cut-append b' ' (join b',' (map link spec.initrd)) spec.cmdline (
      join-Lacks b' ' b',' (map link spec.initrd) (omega arith)
        (links-Lacks b' ' spec.initrd (omega arith))),
  read_list-join spec.initrd,
)
