-- ===== src/Cli/Start/Started.antt =====
-- pixiecore/pixiecore.go: when `main` starts servers, and what it gives them.
use pixiecore.Cli.Picking.{Picks, pick_booter_iff}
use pixiecore.Cli.Start.{
  Ports, Servers, Start, serving, servers, with_ldlinux, with_pxelinux, with_booter, start,
}
use pixiecore.Cli.{Flags, PickError, Picked, pick_booter}
use pixiecore.Strconv.{int_text}
use pixiecore.Tftp.Transfer.{blob, opened}
use pixiecore.Prelude.{
  ◌++◌, none, ◌↔◌, ◌≡◌, refl, sym, ap, ◌∙◌, Bytes, codes, Result, ok, err, fault,
}

-- The servers are those of the booter that the flags pick, and of the two assets.
pub record IsStarted {A : Type 0} (asset : Bytes → Result A Bytes) (p : Ports) (b : Picked)
    (s : Servers) : Type 0 where
  pub pxelinux : Bytes
  pub ldlinux : Bytes
  pub has_pxelinux : asset (codes "lpxelinux.0") ≡ ok pxelinux
  pub has_ldlinux : asset (codes "ldlinux.c32") ≡ ok ldlinux
  pub started : s ≡ record {
    dhcp = record { port = p.dhcp; booter = b };
    pxe = record { port = p.pxe; http_port = p.http };
    tftp = record {
      address = codes ":" ++ int_text p.tftp;
      handler = λ path. opened (record { content = pxelinux; ending = none });
    };
    http = record { port = p.http; booter = b; ldlinux = ldlinux };
    debug = p.debug;
  }

serving-injective :
    {E A : Type 0} {s t : Servers} → ◌≡◌ {A = Start E A} (serving s) (serving t) → s ≡ t
serving-injective h = cc

module _ {E A : Type 0} (asset : Bytes → Result A Bytes) (p : Ports) (s : Servers) where
  with_ldlinux-IsStarted :
      (b : Picked) (pxelinux : Bytes)
      → asset (codes "lpxelinux.0") ≡ ok pxelinux
      → (r : Result A Bytes) → asset (codes "ldlinux.c32") ≡ r
      → with_ldlinux {E = E} asset p b pxelinux r ≡ serving s
      → IsStarted asset p b s
  unfolding with_ldlinux servers blob
  with_ldlinux-IsStarted b pxelinux has (ok ldlinux) e h = record {
    pxelinux = pxelinux;
    ldlinux = ldlinux;
    has_pxelinux = has;
    has_ldlinux = e;
    started = sym (serving-injective h);
  }
  with_ldlinux-IsStarted b pxelinux has (err x) e h = absurd cc
  with_ldlinux-IsStarted b pxelinux has fault e h = absurd cc

  with_pxelinux-IsStarted :
      (b : Picked) (r : Result A Bytes)
      → asset (codes "lpxelinux.0") ≡ r
      → with_pxelinux {E = E} asset p b r ≡ serving s
      → IsStarted asset p b s
  unfolding with_pxelinux
  with_pxelinux-IsStarted b (ok pxelinux) e h =
      with_ldlinux-IsStarted b pxelinux e (asset (codes "ldlinux.c32")) refl h
  with_pxelinux-IsStarted b (err x) e h = absurd cc
  with_pxelinux-IsStarted b fault e h = absurd cc

  with_booter-IsStarted :
      (r : Result (PickError E) Picked)
      → with_booter asset p r ≡ serving s
      → (b : Picked) × (r ≡ ok b) × IsStarted asset p b s
  unfolding with_booter
  with_booter-IsStarted (ok b) h =
      (b, refl, with_pxelinux-IsStarted b (asset (codes "lpxelinux.0")) refl h)
  with_booter-IsStarted (err x) h = absurd cc
  with_booter-IsStarted fault h = absurd cc

  IsStarted-with_booter :
      (b : Picked) → IsStarted asset p b s → with_booter {E = E} asset p (ok b) ≡ serving s
  unfolding with_booter with_pxelinux with_ldlinux servers blob
  IsStarted-with_booter b h = rw (h.has_pxelinux, h.has_ldlinux, h.started)

  -- `main` starts servers exactly when the flags pick a booter and both assets are there; they are given
  -- that booter, those assets and the ports of the flags.
  pub start_iff :
      (f : Flags) (random : Bytes)
      → ((start {E = E} asset p f random).1 ≡ serving s)
        ↔ ((b : Picked) × Picks f random b × IsStarted asset p b s)
  unfolding start
  start_iff f random = (
    (λ h.
        let (b, picked, started) = with_booter-IsStarted (pick_booter f random).1 h in
        (b, (pick_booter_iff f random b).0 picked, started)),
    (λ h.
        ap (with_booter asset p) ((pick_booter_iff f random h.0).1 h.1)
        ∙ IsStarted-with_booter h.0 h.2),
  )
