-- ===== src/Api/Plans.antt =====
-- api/api.go: what the interface `Booter` promises. The ids of a boot spec are opaque; passed back to
-- `File` they open what the machine is to boot.
use pixiecore.Api.{BootSpec, Content, Booter}
use pixiecore.Prelude.{List, [], ◌∷◌, Bytes, IsBytes, Result, ok, err, fault, ◌≡◌, ◌≢◌}

-- What a machine is to boot. Opening a file may fail, and then the machine gets that error.
pub record Plan (E : Type 0) : Type 0 where
  pub kernel : Result E Content
  pub initrd : List (Result E Content)
  pub cmdline : Bytes

module _ {A B : Type 0} (R : A → B → Type 0) where
  -- The elements of two lists are related one by one.
  abbrev pub Pairwise : List A → List B → Type 0
  Pairwise [] [] = Unit
  Pairwise (a ∷ as') (b ∷ bs) = R a b × Pairwise as' bs
  Pairwise _ _ = ⊥

-- The stream without its pretty name.
abbrev pub content : {E : Type 0} → Result E (Content × Bytes) → Result E Content
content (ok (c, pretty)) = ok c
content (err e) = err e
content fault = fault

module _ {S E : Type 0} (b : Booter S E) where
  -- The id is a non-empty byte string that opens `source`.
  pub record IsIdOf (id : Bytes) (source : Result E Content) : Type 0 where
    pub bytes : IsBytes id
    pub some_byte : id ≢ []
    pub opens : content (b.file id) ≡ source

  -- The boot spec names the files of the plan, in order, and has its command line.
  pub record Issues (spec : BootSpec) (p : Plan E) : Type 0 where
    pub kernel : IsIdOf spec.kernel p.kernel
    pub initrd : Pairwise IsIdOf spec.initrd p.initrd
    pub cmdline : spec.cmdline ≡ p.cmdline

-- A booter keeps its promise for the states that are `Ready`: for a machine that it approves of, it
-- issues a plan that it `Wanted` for that machine.
pub record IsBooter {S E : Type 0} (b : Booter S E) (Ready : S → Type 0)
    (Wanted : Bytes → Plan E → Type 0) : Type 0 where
  pub issues :
      (s : S) (mac : Bytes)
      → Ready s
      → b.should_boot mac ≡ ok tt
      → (spec : BootSpec) × (s' : S) × (p : Plan E) × (b.boot_spec s mac ≡ (s', ok spec))
        × Issues b spec p
        × Wanted mac p
