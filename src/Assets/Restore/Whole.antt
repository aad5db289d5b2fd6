-- ===== src/Assets/Restore/Whole.antt =====
-- assets/pxelinux_autogen.go: what `RestoreAssets` leaves on a disk.
use mathlib.Core.Path.{subst}
use pixiecore.Assets.Loading.{name_of}
use pixiecore.Assets.Restore.Endings.{Ends, Ends-map, continued-Ends}
use pixiecore.Assets.Restore.Places.{under, name_of-injective, child-name}
use pixiecore.Assets.Restore.Written.{IsDisk, Stands, Adds, HasReason, restore_asset-Ends}
use pixiecore.Assets.Restore.{Disk, Restored, continued, each, restore_assets}
use pixiecore.Assets.{
  Gunzip, Images, Generator, ldlinux_c32, lpxelinux_0, ldlinux_name, lpxelinux_name, canonical,
  child, descend, dir_of, asset_dir,
}
use pixiecore.Filepath.Clean.{join_paths}
use pixiecore.Strings.{split, replace}
use pixiecore.Prelude.{
  ℕ, suc, List, [], ◌∷◌, Option, ◌≡◌, ◌≢◌, ◌↔◌, ◌⊎◌, inl, inr, refl, sym, ◌∙◌, Bytes, equal,
}

abbrev pub OneOf : Bytes → List Bytes → Type 0
OneOf name [] = ⊥
OneOf name (other ∷ names) = (name ≡ other) ⊎ OneOf name names

-- `shuffle` leaves the same names.
abbrev pub Shuffles : (List Bytes → List Bytes) → Type 0
Shuffles shuffle =
    (names : List Bytes) (name : Bytes) → OneOf name (shuffle names) ↔ OneOf name names

abbrev both_names : List Bytes
both_names = ldlinux_name ∷ lpxelinux_name ∷ []

name_of-OneOf : (g : Generator) → OneOf (name_of g) both_names
name_of-OneOf ldlinux_c32 = inl refl
name_of-OneOf lpxelinux_0 = inr (inl refl)

named : (name : Bytes) → OneOf name both_names → (g : Generator) × (name ≡ name_of g)
named name (inl e) = (ldlinux_c32, e)
named name (inr (inl e)) = (lpxelinux_0, e)
named name (inr (inr h)) = absurd h

module _ {S E X : Type 0} (gunzip : Bytes → Gunzip E) (images : Images) (disk : Disk S X)
    (content : S → Bytes → Option Bytes) (dir : Bytes) where
  -- With the names restored, and what stood there before.
  abbrev Holds : List Bytes → S → S → Type 0
  Holds names s s' =
      (g : Generator)
      → OneOf (name_of g) names ⊎ Stands gunzip images disk content dir g s
      → Stands gunzip images disk content dir g s'

  each-Ends :
      (restore : Bytes → S → Restored S E X (Unit {0}))
      → ((g : Generator) (s : S)
          → Ends
              (λ _ s'. Adds gunzip images disk content dir g s s')
              (HasReason gunzip images disk content dir)
              (restore (name_of g) s))
      → (names : List Bytes)
      → ((name : Bytes) → OneOf name names → (g : Generator) × (name ≡ name_of g))
      → (s : S)
      → Ends
          (λ _ s'. Holds names s s')
          (HasReason gunzip images disk content dir)
          (each gunzip images disk restore names s)
  unfolding each continued
  each-Ends restore ends [] own s =
      λ g there. elim there [ inl none_left ↦ absurd none_left | inr old ↦ old ]
  each-Ends restore ends (name ∷ names) own s =
      let (g, e) = own name (inl refl) in
      continued-Ends (HasReason gunzip images disk content dir)
        (λ _ s1. Adds gunzip images disk content dir g s s1) (λ _ s'. Holds (name ∷ names) s s')
        (restore name s) (λ _. each gunzip images disk restore names)
        (subst
          (λ n.
            Ends (λ _ s1. Adds gunzip images disk content dir g s s1)
              (HasReason gunzip images disk content dir) (restore n s))
          (sym e) (ends g s))
        (λ _ s1 (here, old).
          Ends-map (HasReason gunzip images disk content dir) (λ _ s'. Holds names s1 s')
            (λ _ s'. Holds (name ∷ names) s s') (each gunzip images disk restore names s1)
            (λ _ s' holds k there. elim there [
              | inl (inl same) ↦ holds k (
                  inr (
                    subst (λ x. Stands gunzip images disk content dir x s1)
                      (sym (name_of-injective k g (same ∙ e))) here))
              | inl (inr later) ↦ holds k (inl later)
              | inr before ↦ holds k (inr (old k before))
            ])
            (each-Ends restore ends names (λ n h. own n (inr h)) s1))

  module _ (Apart : Bytes → Bytes → Type 0) (keeps : IsDisk disk content Apart)
      (apart : (g k : Generator) → k ≢ g → Apart (under dir (name_of g)) (under dir (name_of k)))
      (shuffle : List Bytes → List Bytes) where
    child-Ends :
        (fuel : ℕ) (g : Generator) (s : S)
        → Ends
            (λ _ s'. Adds gunzip images disk content dir g s s')
            (HasReason gunzip images disk content dir)
            (restore_assets gunzip images disk shuffle
              (suc fuel)
              dir
              (join_paths ([] ∷ name_of g ∷ []))
              s)
    unfolding restore_assets asset_dir dir_of descend child canonical replace split equal
    child-Ends fuel ldlinux_c32 s =
        rw (child-name ldlinux_c32)
          (restore_asset-Ends gunzip images disk content Apart keeps dir apart ldlinux_c32 s)
    child-Ends fuel lpxelinux_0 s =
        rw (child-name lpxelinux_0)
          (restore_asset-Ends gunzip images disk content Apart keeps dir apart lpxelinux_0 s)

    -- `RestoreAssets` of the empty name always returns, in whatever order Go walks the map: with no error,
    -- and both embedded files stand at their names under the directory with their content, or with an
    -- error, because an embedded file cannot be unpacked or because the last call of the system, which
    -- makes the directory or writes one of the files there, has failed. The disk keeps what is
    -- written, and the two paths name different files on it.
    pub restore_assets-Ends :
        Shuffles shuffle
        → (fuel : ℕ) (s : S)
        → Ends
            (λ _ s'. (g : Generator) → Stands gunzip images disk content dir g s')
            (HasReason gunzip images disk content dir)
            (restore_assets gunzip images disk shuffle (suc (suc fuel)) dir [] s)
    unfolding restore_assets asset_dir dir_of
    restore_assets-Ends shuffles fuel s =
        Ends-map (HasReason gunzip images disk content dir)
          (λ _ s'. Holds (shuffle both_names) s s')
          (λ _ s'. (g : Generator) → Stands gunzip images disk content dir g s')
          (each gunzip images disk
            (λ name.
              restore_assets gunzip images disk shuffle (suc fuel) dir
                (join_paths ([] ∷ name ∷ [])))
            (shuffle both_names) s)
          (λ _ s' holds g. holds g (inl ((shuffles both_names (name_of g)).1 (name_of-OneOf g))))
          (each-Ends
            (λ name.
              restore_assets gunzip images disk shuffle (suc fuel) dir
                (join_paths ([] ∷ name ∷ [])))
            (child-Ends fuel) (shuffle both_names)
            (λ name h. named name ((shuffles both_names name).0 h)) s)
