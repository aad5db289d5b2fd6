-- ===== src/Api/Static/Booting.antt =====
-- api/api.go: the static booter keeps what the interface `Booter` promises.
use pixiecore.Api.Plans.{IsBooter, Plan, Pairwise, content, IsIdOf, Issues}
use pixiecore.Api.Static.Files.{itoa-ne-kernel}
use pixiecore.Api.Static.{
  StaticBooter, initrd_ids, kernel_id, static_booter, should_boot, boot_spec, static_file,
}
use pixiecore.Api.{Content, Booter}
use pixiecore.Strconv.RoundTrip.{atoi-itoa, itoa-IsDigit, itoa-ne-nil, IsDigit}
use pixiecore.Strconv.{itoa}
use pixiecore.Prelude.{
  ℕ, suc, ◌+◌, ◌^◌, ◌<◌, List, [], ◌∷◌, ◌++◌, map, Option, none, some, ◌≡◌, refl, sym, ap, ◌∙◌,
  arith, Bytes, All-map, codes, length, get_elem?, equal_refl, ne→not-equal, Result, ok, err, fault,
}

-- What `staticBooter.File` returns: the error for an unknown id, or what `os.Open` returned.
abbrev pub unpack :
    {E : Type 0} → E → Option (Result E Content × Bytes) → Result E (Content × Bytes)
unpack e none = err e
unpack e (some (ok c, pretty)) = ok (c, pretty)
unpack e (some (err x, pretty)) = err x
unpack e (some (fault, pretty)) = fault

content-unpack :
    {E : Type 0} (e : E) (r : Result E Content) (pretty : Bytes)
    → content (unpack e (some (r, pretty))) ≡ r
content-unpack e (ok c) pretty = refl
content-unpack e (err x) pretty = refl
content-unpack e fault pretty = refl

module _ {E : Type 0} (os_open : Bytes → Result E Content) (no_file : Bytes → E) where
  -- The static booter as a `Booter`. It changes nothing when it makes a boot spec.
  abbrev pub as_booter : StaticBooter → Booter (Unit {0}) E
  as_booter b = record {
    should_boot = should_boot b;
    boot_spec = λ s mac. (s, ok (boot_spec b mac));
    file = λ id. unpack (no_file id) (static_file os_open b id);
  }

  -- Every machine is to boot the kernel and the initrds given.
  abbrev pub static_plan : Bytes → List Bytes → Bytes → Plan E
  static_plan kernel paths cmdline = record {
    kernel = os_open kernel;
    initrd = map os_open paths;
    cmdline = cmdline;
  }

  module _ (kernel : Bytes) (paths : List Bytes) (cmdline : Bytes) where
    abbrev booter : Booter (Unit {0}) E
    booter = as_booter (static_booter kernel paths cmdline)

    kernel-IsIdOf : IsIdOf booter kernel_id (os_open kernel)
    kernel-IsIdOf = record {
      bytes = omega arith;
      some_byte = λ e. cc;
      opens =
          unfold static_file in
          rw (equal_refl kernel_id) (content-unpack (no_file kernel_id) (os_open kernel) kernel_id);
    }

    initrd-IsIdOf :
        (k : ℕ) (path : Bytes)
        → k < 2 ^ 63
        → get_elem? paths k ≡ some path
        → IsIdOf booter (itoa k) (os_open path)
    initrd-IsIdOf k path small h = record {
      bytes = All-map (itoa k) (λ c (d : IsDigit c). omega (arith, d.1)) (itoa-IsDigit k);
      some_byte = itoa-ne-nil k;
      opens =
          unfold static_file in
          rw (ne→not-equal (itoa k) kernel_id (itoa-ne-kernel k), atoi-itoa k small, h)
            (content-unpack (no_file (itoa k)) (os_open path) (codes "initrd." ++ itoa k));
    }

    -- the ids of the last paths, which start at the `i`th
    ids-IsIdOf :
        (i : ℕ) (rest : List Bytes)
        → i + length rest < 2 ^ 63
        → ((j : ℕ) → get_elem? rest j ≡ get_elem? paths (i + j))
        → Pairwise (IsIdOf booter) (initrd_ids i rest) (map os_open rest)
    unfolding initrd_ids
    ids-IsIdOf i [] few same = tt
    ids-IsIdOf i (path ∷ rest) few same = (
      initrd-IsIdOf i path (omega arith) (ap (get_elem? paths) (omega arith) ∙ sym (same 0)),
      ids-IsIdOf (suc i) rest (omega arith)
          (λ j. same (suc j) ∙ ap (get_elem? paths) (omega arith)),
    )

    -- For fewer than 2^63 initrds, the boot spec of every machine issues the plan to boot the files given.
    pub static_booter-Issues :
        (mac : Bytes)
        → length paths < 2 ^ 63
        → Issues booter
            (boot_spec (static_booter kernel paths cmdline) mac)
            (static_plan kernel paths cmdline)
    static_booter-Issues mac few = record {
      kernel = kernel-IsIdOf;
      initrd = ids-IsIdOf 0 paths (omega arith) (λ j. ap (get_elem? paths) (omega arith));
      cmdline = refl;
    }

    -- The static booter keeps its promise: it wants the same plan for every machine.
    pub static-IsBooter :
        length paths < 2 ^ 63
        → IsBooter booter (λ s. Unit {0}) (λ mac p. p ≡ static_plan kernel paths cmdline)
    static-IsBooter few = record {
      issues = λ s mac ready approved. (
        boot_spec (static_booter kernel paths cmdline) mac,
        s,
        static_plan kernel paths cmdline,
        refl,
        static_booter-Issues mac few,
        refl,
      );
    }
