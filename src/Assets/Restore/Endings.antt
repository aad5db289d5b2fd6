-- ===== src/Assets/Restore/Endings.antt =====
-- assets/pxelinux_autogen.go: how the steps of `RestoreAsset` end, one at a time.
use pixiecore.Assets.Restore.{RestoreError, disk_failed, Restored, continued, from_disk}
use pixiecore.Prelude.{Option, none, some, ◌≡◌, refl, ok, err, fault}

-- A run has the result `Good`, or an error that has its reason.
abbrev pub Ends :
    {S E X A : Type 0}
    → (A → S → Type 0)
    → (S → RestoreError E X → Type 0)
    → Restored S E X A
    → Type 0
Ends Good Reason (s, ok a) = Good a s
Ends Good Reason (s, err e) = Reason s e
Ends Good Reason (s, fault) = ⊥

module _ {S E X : Type 0} (Reason : S → RestoreError E X → Type 0) where
  pub continued-Ends :
      {A B : Type 0} (Good : A → S → Type 0) (Best : B → S → Type 0) (r : Restored S E X A)
      (next : A → S → Restored S E X B)
      → Ends Good Reason r
      → ((a : A) (s : S) → Good a s → Ends Best Reason (next a s))
      → Ends Best Reason (continued r next)
  unfolding continued
  continued-Ends Good Best (s, ok a) next h k = k a s h
  continued-Ends Good Best (s, err e) next h k = h
  continued-Ends Good Best (s, fault) next h k = h

  pub Ends-map :
      {A : Type 0} (Good Best : A → S → Type 0) (r : Restored S E X A)
      → ((a : A) (s : S) → Good a s → Best a s)
      → Ends Good Reason r
      → Ends Best Reason r
  Ends-map Good Best (s, ok a) k h = k a s h
  Ends-map Good Best (s, err e) k h = h
  Ends-map Good Best (s, fault) k h = h

  pub from_disk-Ends :
      (Good : Unit {0} → S → Type 0) (r : S × Option X)
      → (r.1 ≡ none → Good tt r.0)
      → ((x : X) → r ≡ (r.0, some x) → Reason r.0 (disk_failed x))
      → Ends Good Reason (from_disk r)
  from_disk-Ends Good (s, none) h k = h refl
  from_disk-Ends Good (s, some x) h k = k x refl
