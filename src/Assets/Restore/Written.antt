-- ===== src/Assets/Restore/Written.antt =====
-- assets/pxelinux_autogen.go: what `RestoreAsset` leaves on a disk.
use mathlib.Core.Path.{subst}
use pixiecore.Assets.Loading.{name_of, image_of, Unpacks}
use pixiecore.Assets.Restore.Endings.{Ends, Ends-map, continued-Ends, from_disk-Ends}
use pixiecore.Assets.Restore.Loads.{load-Loads}
use pixiecore.Assets.Restore.Places.{under, file_path-under, file_path-parent, Generator-cases}
use pixiecore.Assets.Restore.{
  Disk, RestoreError, asset_failed, disk_failed, out_of_fuel, continued, from_disk, restore_asset,
}
use pixiecore.Assets.{Gunzip, AssetError, Images, Asset, Generator, load, asset, asset_info}
use pixiecore.Prelude.{
  ℕ, ◌⊎◌, codes, Option, none, some, ◌≡◌, ◌≢◌, inl, inr, refl, sym, ◌∙◌, Bytes, Result, ok, err,
  fault,
}

-- What a disk does to the contents of its files. Paths that are `Apart` name different files on it.
pub record IsDisk {S X : Type 0} (disk : Disk S X) (content : S → Bytes → Option Bytes)
    (Apart : Bytes → Bytes → Type 0) : Type 0 where
  pub made :
      (path : Bytes) (mode : ℕ) (s : S) (file : Bytes)
      → content (disk.mkdir_all path mode s).0 file ≡ content s file
  pub written :
      (path bytes : Bytes) (mode : ℕ) (s : S)
      → (disk.write_file path bytes mode s).1 ≡ none
      → content (disk.write_file path bytes mode s).0 path ≡ some bytes
  pub others :
      (path bytes : Bytes) (mode : ℕ) (s : S) (file : Bytes)
      → Apart path file
      → content (disk.write_file path bytes mode s).0 file ≡ content s file
  pub timed :
      (path : Bytes) (accessed modified : ℕ) (s : S) (file : Bytes)
      → content (disk.chtimes path accessed modified s).0 file ≡ content s file

module _ {S E X : Type 0} (gunzip : Bytes → Gunzip E) (images : Images) (disk : Disk S X)
    (content : S → Bytes → Option Bytes) where
  -- The file stands on the disk, with what the program has embedded.
  abbrev pub Stands : Bytes → Generator → S → Type 0
  Stands dir g s =
      (bytes : Bytes) × Unpacks (gunzip (image_of images g)) bytes
      × (content s (under dir (name_of g)) ≡ some bytes)

  -- The last call of the system, for one of the files, has left the disk `s` and the error `x`.
  abbrev pub Failed : Bytes → S → X → Type 0
  Failed dir s x =
      (g : Generator) × (s₀ : S) × ((disk.mkdir_all (under dir (codes ".")) 493 s₀ ≡ (s, some x))
        ⊎ ((bytes : Bytes) × (mode : ℕ) × Unpacks (gunzip (image_of images g)) bytes
            × (disk.write_file (under dir (name_of g)) bytes mode s₀ ≡ (s, some x)))
        ⊎ ((time : ℕ) × (disk.chtimes (under dir (name_of g)) time time s₀ ≡ (s, some x))))

  abbrev pub HasReason : Bytes → S → RestoreError E X → Type 0
  HasReason dir s (asset_failed e) =
      (g : Generator) × ((bytes : Bytes) → ¬ Unpacks (gunzip (image_of images g)) bytes)
  HasReason dir s (disk_failed x) = Failed dir s x
  HasReason dir s out_of_fuel = ⊥

  -- What has been restored, and what stood there before.
  abbrev pub Adds : Bytes → Generator → S → S → Type 0
  Adds dir g s s' = Stands dir g s' × ((k : Generator) → Stands dir k s → Stands dir k s')

  module _ (Apart : Bytes → Bytes → Type 0) (keeps : IsDisk disk content Apart) (dir : Bytes)
      (apart : (g k : Generator)
        → k ≢ g
        → Apart (under dir (name_of g)) (under dir (name_of k))) where
    -- A call that leaves the contents of all files as they are.
    same-Stands :
        (g : Generator) (s s' : S)
        → ((file : Bytes) → content s' file ≡ content s file)
        → Stands dir g s
        → Stands dir g s'
    same-Stands g s s' same (bytes, u, there) = (bytes, u, same (under dir (name_of g)) ∙ there)

    timed-Stands :
        (g : Generator) (file : Bytes) (time : ℕ) (s : S)
        → Stands dir g s
        → Stands dir g (disk.chtimes file time time s).0
    timed-Stands g file time s =
        same-Stands g s (disk.chtimes file time time s).0 (keeps.timed file time time s)

    write-Adds :
        (g : Generator) (bytes : Bytes) (mode : ℕ) (s : S)
        → Unpacks (gunzip (image_of images g)) bytes
        → (disk.write_file (under dir (name_of g)) bytes mode s).1 ≡ none
        → Adds dir g s (disk.write_file (under dir (name_of g)) bytes mode s).0
    write-Adds g bytes mode s u fine =
        let path = under dir (name_of g) in
        let here : Stands dir g (disk.write_file path bytes mode s).0 =
          (bytes, u, keeps.written path bytes mode s fine) in
        (
          here,
          λ k (old, v, there). elim (Generator-cases g k) [
            | inl same ↦
                subst (λ x. Stands dir x (disk.write_file path bytes mode s).0) (sym same) here
            | inr other ↦ (
              old,
              v,
              keeps.others path bytes mode s (under dir (name_of k)) (apart g k other) ∙ there,
            )
          ],
        )

    -- The calls that write the file and set its time.
    write_calls-Ends :
        (g : Generator) (bytes : Bytes) (mode time : ℕ) (s : S)
        → Unpacks (gunzip (image_of images g)) bytes
        → Ends {E = E}
            (λ _ s'. Adds dir g s s')
            (HasReason dir)
            (continued
              (from_disk (disk.write_file (under dir (name_of g)) bytes mode s))
              (λ _ s1. from_disk (disk.chtimes (under dir (name_of g)) time time s1)))
    write_calls-Ends g bytes mode time s u =
        let file = under dir (name_of g) in
        continued-Ends (HasReason dir) (λ _ s1. Adds dir g s s1) (λ _ s'. Adds dir g s s')
          (from_disk (disk.write_file file bytes mode s))
          (λ _ s1. from_disk (disk.chtimes file time time s1))
          (from_disk-Ends (HasReason dir) (λ _ s1. Adds dir g s s1)
            (disk.write_file file bytes mode s) (write-Adds g bytes mode s u)
            (λ x h. (g, s, inr (inl (bytes, mode, u, h)))))
          (λ _ s1 (here, old).
            from_disk-Ends (HasReason dir) (λ _ s2. Adds dir g s s2)
              (disk.chtimes file time time s1)
              (λ _. (
                timed-Stands g file time s1 here,
                λ k there. timed-Stands k file time s1 (old k there),
              ))
              (λ x h. (g, s1, inr (inr (time, h)))))

    calls-Ends :
        (g : Generator) (bytes : Bytes) (mode time : ℕ) (s : S)
        → Unpacks (gunzip (image_of images g)) bytes
        → Ends {E = E}
            (λ _ s'. Adds dir g s s')
            (HasReason dir)
            (continued (from_disk (disk.mkdir_all (under dir (codes ".")) 493 s)) (λ _ s1.
              continued
                (from_disk (disk.write_file (under dir (name_of g)) bytes mode s1))
                (λ _ s2. from_disk (disk.chtimes (under dir (name_of g)) time time s2))))
    calls-Ends g bytes mode time s u =
        let path = under dir (codes ".") in
        let file = under dir (name_of g) in
        let kept : S → Type 0 = λ s1. (k : Generator) → Stands dir k s → Stands dir k s1 in
        continued-Ends (HasReason dir) (λ _ s1. kept s1) (λ _ s'. Adds dir g s s')
          (from_disk (disk.mkdir_all path 493 s))
          (λ _ s1.
            continued (from_disk (disk.write_file file bytes mode s1))
              (λ _ s2. from_disk (disk.chtimes file time time s2)))
          (from_disk-Ends (HasReason dir) (λ _ s1. kept s1) (disk.mkdir_all path 493 s)
            (λ _ k. same-Stands k s (disk.mkdir_all path 493 s).0 (keeps.made path 493 s))
            (λ x h. (g, s, inl h)))
          (λ _ s1 older.
            Ends-map (HasReason dir) (λ _ s'. Adds dir g s1 s') (λ _ s'. Adds dir g s s')
              (continued (from_disk (disk.write_file file bytes mode s1))
                (λ _ s2. from_disk (disk.chtimes file time time s2)))
              (λ _ s' (here, old). (here, λ k there. old k (older k there)))
              (write_calls-Ends g bytes mode time s1 u))

    pub restore_asset-Ends :
        (g : Generator) (s : S)
        → Ends
            (λ _ s'. Adds dir g s s')
            (HasReason dir)
            (restore_asset gunzip images disk dir (name_of g) s)
    unfolding restore_asset asset asset_info continued
    restore_asset-Ends g s = by_load (load gunzip images (name_of g)) refl
      where
        by_load :
            (r : Result (AssetError E) Asset)
            → load gunzip images (name_of g) ≡ r
            → Ends
                (λ _ s'. Adds dir g s s')
                (HasReason dir)
                (restore_asset gunzip images disk dir (name_of g) s)
        by_load (ok a) h =
            rw (h, file_path-under dir g, file_path-parent dir g)
              (calls-Ends g a.bytes a.info.mode a.info.mod_time s
                (load-Loads gunzip images g (ok a) h))
        by_load (err e) h = rw h (g, load-Loads gunzip images g (err e) h)
        by_load fault h = absurd (load-Loads gunzip images g fault h)
