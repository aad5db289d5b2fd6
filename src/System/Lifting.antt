-- ===== src/System/Lifting.antt =====
-- The running process: a booter that does not use the source of randomness keeps its promise.
use pixiecore.Api.Plans.{Plan, Pairwise, IsIdOf, IsBooter}
use pixiecore.Api.{BootSpec, Content, Booter}
use pixiecore.System.{with_random}
use pixiecore.Prelude.{List, [], ◌∷◌, ap, Bytes, Result}

module _ {E : Type 0} (b : Booter (Unit {0}) E) where
  with_random-IsIdOf :
      (id : Bytes) (source : Result E Content)
      → IsIdOf b id source
      → IsIdOf (with_random b) id source
  with_random-IsIdOf id source h = record {
    bytes = h.bytes;
    some_byte = h.some_byte;
    opens = h.opens;
  }

  with_random-Pairwise :
      (ids : List Bytes) (sources : List (Result E Content))
      → Pairwise (IsIdOf b) ids sources
      → Pairwise (IsIdOf (with_random b)) ids sources
  with_random-Pairwise [] [] h = tt
  with_random-Pairwise [] (source ∷ sources) h = h
  with_random-Pairwise (id ∷ ids) [] h = h
  with_random-Pairwise (id ∷ ids) (source ∷ sources) (first, rest) =
      (with_random-IsIdOf id source first, with_random-Pairwise ids sources rest)

  -- A booter keeps its promise also where it is given a source of randomness that it leaves alone.
  pub with_random-IsBooter :
      (Wanted : Bytes → Plan E → Type 0)
      → IsBooter b (λ u. Unit {0}) Wanted
      → IsBooter (with_random b) (λ random. Unit {0}) Wanted
  with_random-IsBooter Wanted keeps = record {
    issues = λ random mac ready approved.
        let (spec, s', p, made, issued, wanted) = keeps.issues tt mac tt approved in
        (
          spec,
          random,
          p,
          ap (λ (x : Unit {0} × Result E BootSpec). (random, x.1)) made,
          record {
            kernel = with_random-IsIdOf spec.kernel p.kernel issued.kernel;
            initrd = with_random-Pairwise spec.initrd p.initrd issued.initrd;
            cmdline = issued.cmdline;
          },
          wanted,
        );
  }
