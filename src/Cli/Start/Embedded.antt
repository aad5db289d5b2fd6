-- ===== src/Cli/Start/Embedded.antt =====
-- pixiecore/pixiecore.go with assets/pxelinux_autogen.go: `main` and the files embedded in the program.
use pixiecore.Assets.Loading.{name_of, image_of, Unpacks, asset_iff}
use pixiecore.Assets.{
  Gunzip, Images, Generator, ldlinux_c32, lpxelinux_0, ldlinux_name, lpxelinux_name, asset,
}
use pixiecore.Cli.Picking.{Picks}
use pixiecore.Cli.Start.Started.{start_iff}
use pixiecore.Cli.Start.{Ports, Servers, serving, start}
use pixiecore.Cli.{Flags, Picked}
use pixiecore.Strconv.{int_text}
use pixiecore.Tftp.Transfer.{opened}
use pixiecore.Prelude.{codes, ◌++◌, none, ◌≡◌, ◌≢◌, ◌↔◌, refl, sym, ap, arith, Bytes, get_or, ok}

names_differ : ldlinux_name ≢ lpxelinux_name
names_differ h = omega (arith, ap (λ (s : Bytes). get_or s 1 0) h)

module _ {F : Type 0} (gunzip : Bytes → Gunzip F) (images : Images) where
  asset-ldlinux :
      (content : Bytes)
      → asset gunzip images ldlinux_name ≡ ok content
      → Unpacks (gunzip images.ldlinux_c32) content
  asset-ldlinux content h = by_generator ((asset_iff gunzip images ldlinux_name content).0 h)
    where
      by_generator :
          (g : Generator) × (ldlinux_name ≡ name_of g)
            × Unpacks (gunzip (image_of images g)) content
          → Unpacks (gunzip images.ldlinux_c32) content
      by_generator (ldlinux_c32, e, u) = u
      by_generator (lpxelinux_0, e, u) = absurd (names_differ e)

  asset-lpxelinux :
      (content : Bytes)
      → asset gunzip images lpxelinux_name ≡ ok content
      → Unpacks (gunzip images.lpxelinux_0) content
  asset-lpxelinux content h = by_generator ((asset_iff gunzip images lpxelinux_name content).0 h)
    where
      by_generator :
          (g : Generator) × (lpxelinux_name ≡ name_of g)
            × Unpacks (gunzip (image_of images g)) content
          → Unpacks (gunzip images.lpxelinux_0) content
      by_generator (lpxelinux_0, e, u) = u
      by_generator (ldlinux_c32, e, u) = absurd (names_differ (sym e))

  -- The servers are those of the booter that the flags pick and of what the embedded files unpack to.
  pub record IsEmbedded (p : Ports) (b : Picked) (s : Servers) : Type 0 where
    pub pxelinux : Bytes
    pub ldlinux : Bytes
    pub pxelinux_unpacks : Unpacks (gunzip images.lpxelinux_0) pxelinux
    pub ldlinux_unpacks : Unpacks (gunzip images.ldlinux_c32) ldlinux
    pub started : s ≡ record {
      dhcp = record { port = p.dhcp; booter = b };
      pxe = record { port = p.pxe; http_port = p.http };
      tftp = record {
        address = codes ":" ++ int_text p.tftp;
        handler = λ path. opened (record { content = pxelinux; ending = none });
      };
      http = record { port = p.http; booter = b; ldlinux = ldlinux };
      debug = p.debug;
    }

  -- `main` of the program, with its embedded files, starts servers exactly when the flags pick a booter and
  -- both files unpack; they are given that booter, what the files unpack to, and the ports. A file
  -- that is read but whose reader fails to close unpacks to nothing.
  pub start-IsEmbedded_iff :
      {E : Type 0} (p : Ports) (s : Servers) (f : Flags) (random : Bytes)
      → ((start {E = E} (asset gunzip images) p f random).1 ≡ serving s)
        ↔ ((b : Picked) × Picks f random b × IsEmbedded p b s)
  start-IsEmbedded_iff p s f random = (
    λ h.
        let (b, picks, it) = (start_iff (asset gunzip images) p s f random).0 h in
        (
          b,
          picks,
          record {
            pxelinux = it.pxelinux;
            ldlinux = it.ldlinux;
            pxelinux_unpacks = asset-lpxelinux it.pxelinux it.has_pxelinux;
            ldlinux_unpacks = asset-ldlinux it.ldlinux it.has_ldlinux;
            started = it.started;
          },
        ),
    λ (b, picks, it). (start_iff (asset gunzip images) p s f random).1 (
      b,
      picks,
      record {
        pxelinux = it.pxelinux;
        ldlinux = it.ldlinux;
        has_pxelinux =
            (asset_iff gunzip images lpxelinux_name it.pxelinux).1
              (lpxelinux_0, refl, it.pxelinux_unpacks);
        has_ldlinux =
            (asset_iff gunzip images ldlinux_name it.ldlinux).1
              (ldlinux_c32, refl, it.ldlinux_unpacks);
        started = it.started;
      },
    ),
  )
