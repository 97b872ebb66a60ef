-- ===== src/Vdb/Crash.antt =====
-- An interruption of `save_and_bump` of src/vdb.rs leaves the old version or the new one.
use vdb_rs.Prelude.{
  ℕ, suc, ◌≡◌, refl, ap, sym, ◌∙◌, false, List, [], ◌∷◌, ◌++◌, Option, none, some, subst, length,
  take, drop, Bool-cases, inl, inr, ◌⊎◌, arith, length-append, take-append,
}
use vdb_rs.Prelude.Assoc.{Str, str_eq, str_eq_iff, string_eq, lookup, insert}
use vdb_rs.Prelude.Float.{Float}
use vdb_rs.Prelude.Wire.{Wire}
use vdb_rs.Storage.Io.{Io, IoError, ◌>>=◌, or_err}
use vdb_rs.Index.Defs.{IvfRabitqIndex}
use vdb_rs.Storage.Save.{PayloadJson, save_index}
use vdb_rs.Storage.Load.{load_index}
use vdb_rs.Vdb.Disk.{Disk, DiskOp, Interrupted, apply, apply_all}
use vdb_rs.Vdb.Defs.{
  Manifest, Database, Texts, save_index_file, write_manifest, save_changes, set_manifest,
  save_version, manifest_name, tmp_name, index_suffix, manifest_of, read_manifest, save_and_bump,
  open_database,
}
use vdb_rs.Vdb.Reopen.{lookup_other, index_name_apart, publish}

append_cancel : (xs ys zs : List ℕ) → xs ++ zs ≡ ys ++ zs → xs ≡ ys
append_cancel xs ys zs h =
    let size : length xs ≡ length ys =
      omega (arith, ap length h, length-append xs zs, length-append ys zs) in
    sym (take-append (length xs) xs zs refl)
    ∙ ap (take (length xs)) h
    ∙ take-append (length xs) ys zs (sym size)

-- A version and the next have different files, where numbers with the same digits are the same.
next_file_apart :
    (texts : Texts) (n : ℕ)
    → ((i j : ℕ) → texts.decimal i ≡ texts.decimal j → i ≡ j)
    → str_eq (manifest_of texts (suc n)).index_file (manifest_of texts n).index_file ≡ false
unfolding manifest_of
next_file_apart texts n injective =
    let new = (manifest_of texts (suc n)).index_file in
    let old = (manifest_of texts n).index_file in
    elim (Bool-cases (str_eq new old)) [
      | inr f ↦ f
      | inl t ↦
          let names : texts.decimal (suc n) ++ index_suffix ≡ texts.decimal n ++ index_suffix =
            ap (drop 6) ((str_eq_iff new old).0 t) in
          let digits = append_cancel (texts.decimal (suc n)) (texts.decimal n) index_suffix names in
          let no : suc n ≡ n = injective (suc n) n digits in absurd (omega arith)
    ]

-- The changes of a save that succeeds.
abbrev save_ops : Texts → ℕ → List ℕ → List ℕ → List DiskOp
save_ops texts version bytes content =
    DiskOp.write (manifest_of texts (suc version)).index_file bytes ∷ publish content

-- Both files of a version are as they were.
abbrev pub Kept : Texts → ℕ → Disk → Disk → Type 0
Kept texts version disk left =
    (lookup manifest_name left ≡ lookup manifest_name disk)
    × (lookup (manifest_of texts version).index_file left
        ≡ lookup (manifest_of texts version).index_file disk)

Kept-write :
    (texts : Texts) (version : ℕ) (name : Str) (bytes : List ℕ) (disk before : Disk)
    → str_eq name manifest_name ≡ false
    → str_eq name (manifest_of texts version).index_file ≡ false
    → Kept texts version disk before
    → Kept texts version disk (insert name bytes before)
Kept-write texts version name bytes disk before m f k = (
  lookup_other name manifest_name bytes before m ∙ k.0,
  lookup_other name (manifest_of texts version).index_file bytes before f ∙ k.1,
)

new_not_manifest :
    (texts : Texts) (version : ℕ)
    → str_eq (manifest_of texts version).index_file manifest_name ≡ false
unfolding manifest_of str_eq
new_not_manifest texts version = refl

tmp_not_manifest : str_eq tmp_name manifest_name ≡ false
unfolding str_eq
tmp_not_manifest = refl

Interrupted-nil : (disk left : Disk) → Interrupted [] disk left → left ≡ disk
Interrupted-nil disk left Interrupted.before = refl

-- Wherever a save is interrupted, the old version's two files are as they were, or the save is done.
Interrupted-cases :
    (texts : Texts) (version : ℕ) (bytes content : List ℕ) (disk left : Disk)
    → ((i j : ℕ) → texts.decimal i ≡ texts.decimal j → i ≡ j)
    → Interrupted (save_ops texts version bytes content) disk left
    → Kept texts version disk left ⊎ (left ≡ apply_all (save_ops texts version bytes content) disk)
unfolding apply_all apply
Interrupted-cases texts version bytes content disk left injective Interrupted.before =
    inl (refl, refl)
Interrupted-cases texts version bytes content disk left injective (Interrupted.torn part) = inl (
    Kept-write texts version _ part disk disk (new_not_manifest texts (suc version))
      (next_file_apart texts version injective) (refl, refl))
Interrupted-cases texts version bytes content disk left injective
      (Interrupted.after Interrupted.before) =
    inl (
      Kept-write texts version _ bytes disk disk (new_not_manifest texts (suc version))
        (next_file_apart texts version injective) (refl, refl))
Interrupted-cases texts version bytes content disk left injective
      (Interrupted.after (Interrupted.torn part)) =
    inl (
      Kept-write texts version tmp_name part disk
        (insert (manifest_of texts (suc version)).index_file bytes disk) tmp_not_manifest
        (index_name_apart texts version _)
        (Kept-write texts version _ bytes disk disk (new_not_manifest texts (suc version))
          (next_file_apart texts version injective) (refl, refl)))
Interrupted-cases texts version bytes content disk left injective
      (Interrupted.after (Interrupted.after Interrupted.before)) =
    inl (
      Kept-write texts version tmp_name content disk
        (insert (manifest_of texts (suc version)).index_file bytes disk) tmp_not_manifest
        (index_name_apart texts version _)
        (Kept-write texts version _ bytes disk disk (new_not_manifest texts (suc version))
          (next_file_apart texts version injective) (refl, refl)))
Interrupted-cases texts version bytes content disk left injective
      (Interrupted.after (Interrupted.after (Interrupted.after Interrupted.before))) =
    inr refl

Interrupted-write :
    (texts : Texts) (version : ℕ) (bytes : List ℕ) (disk left : Disk)
    → ((i j : ℕ) → texts.decimal i ≡ texts.decimal j → i ≡ j)
    → Interrupted (DiskOp.write (manifest_of texts (suc version)).index_file bytes ∷ []) disk left
    → Kept texts version disk left
unfolding apply
Interrupted-write texts version bytes disk left injective Interrupted.before = (refl, refl)
Interrupted-write texts version bytes disk left injective (Interrupted.torn part) =
    Kept-write texts version _ part disk disk (new_not_manifest texts (suc version))
      (next_file_apart texts version injective) (refl, refl)
Interrupted-write texts version bytes disk left injective (Interrupted.after Interrupted.before) =
    Kept-write texts version _ bytes disk disk (new_not_manifest texts (suc version))
      (next_file_apart texts version injective) (refl, refl)

-- Another last step after the same steps.
rebind {ℓ} :
    {A B C : Type ℓ} (m : Io A) (f : A → Io B) (g h : B → C) (k : C → Io C)
    → ((b : B) → k (h b) ≡ Io.ok (g b))
    → (m >>= λ a. f a >>= λ b. Io.ok (g b)) ≡ ((m >>= λ a. f a >>= λ b. Io.ok (h b)) >>= k)
rebind (Io.err e) f g h k same = refl
rebind Io.panic f g h k same = refl
rebind {B = B} {C = C} (Io.ok a) f g h k same = last (f a)
  where
    last : (n : Io B) → (n >>= λ b. Io.ok (g b)) ≡ ((n >>= λ b. Io.ok (h b)) >>= k)
    last (Io.ok b) = sym (same b)
    last (Io.err e) = refl
    last Io.panic = refl

module _ {F N : Type 0} ⦃fl : Float F⦄ ⦃fn : Float N⦄ (texts : Texts) (wire : Wire F)
    (json : PayloadJson N) where
  -- What was opened, with another state of the disk.
  abbrev pub on_disk : Disk → Io (Database F N) → Io (Database F N)
  on_disk disk opened = opened >>= λ db. Io.ok (record db { disk = disk })

  read_manifest-Kept :
      (version : ℕ) (disk left : Disk)
      → Kept texts version disk left
      → read_manifest texts left ≡ read_manifest texts disk
  unfolding read_manifest
  read_manifest-Kept version disk left k = rw k.0 refl

  pub open_database-Kept :
      (version : ℕ) (disk left : Disk)
      → read_manifest texts disk ≡ Io.ok (manifest_of texts version)
      → Kept texts version disk left
      → open_database texts wire json left ≡ on_disk left (open_database texts wire json disk)
  unfolding open_database
  open_database-Kept version disk left r k =
      let manifest = manifest_of texts version in
      rw (read_manifest-Kept version disk left k, r, k.1)
        (rebind (or_err IoError.not_found (lookup manifest.index_file disk)) (load_index wire json)
          (λ index. record { index = index; disk = left; manifest = manifest })
          (λ index. record { index = index; disk = disk; manifest = manifest })
          (λ db. Io.ok (record db { disk = left })) (λ index. refl))

  -- A save makes no change, or writes the index file, or does all of its changes.
  save_changes-cases :
      (version : ℕ) (index : IvfRabitqIndex F N)
      → let ops = (save_changes texts wire json index (manifest_of texts (suc version))).0 in
        (ops ≡ [])
        ⊎ (((bytes : List ℕ) × (ops
                ≡ DiskOp.write (manifest_of texts (suc version)).index_file bytes ∷ []))
            ⊎ ((bytes : List ℕ) × (content : List ℕ) × (ops
                  ≡ save_ops texts version bytes content)))
  unfolding save_changes save_index_file write_manifest
  save_changes-cases version index =
      let manifest = manifest_of texts (suc version) in
      split (save_index wire json index) refl (texts.to_vec_pretty manifest) refl
    where
      split :
          (saved : Io (List ℕ))
          → save_index wire json index ≡ saved
          → (text : Option (List ℕ)) → texts.to_vec_pretty (manifest_of texts (suc version)) ≡ text
          → let ops = (save_changes texts wire json index (manifest_of texts (suc version))).0 in
            (ops ≡ [])
            ⊎ (((bytes : List ℕ) × (ops
                    ≡ DiskOp.write (manifest_of texts (suc version)).index_file bytes ∷ []))
                ⊎ ((bytes : List ℕ) × (content : List ℕ) × (ops
                      ≡ save_ops texts version bytes content)))
      split (Io.err e) s text t = inl (rw (save_changes, save_index_file, s) refl)
      split Io.panic s text t = inl (rw (save_changes, save_index_file, s) refl)
      split (Io.ok bytes) s none t =
          inr (inl (bytes, rw (save_changes, save_index_file, s, write_manifest, t) refl))
      split (Io.ok bytes) s (some content) t =
          inr (inr (bytes, content, rw (save_changes, save_index_file, s, write_manifest, t) refl))

  set_manifest-disk :
      (manifest : Manifest) (saved : Database F N) (result : Io (Unit {0}))
      → (set_manifest manifest saved result).0.disk ≡ saved.disk
  unfolding set_manifest
  set_manifest-disk manifest saved (Io.err e) = refl
  set_manifest-disk manifest saved Io.panic = refl
  set_manifest-disk manifest saved (Io.ok u) = refl

  save_and_bump-disk :
      (db : Database F N)
      → let manifest = manifest_of texts (suc db.manifest.version) in
        (save_and_bump texts wire json db).0.disk
        ≡ apply_all (save_changes texts wire json db.index manifest).0 db.disk
  unfolding save_and_bump save_version
  save_and_bump-disk db =
      let manifest = manifest_of texts (suc db.manifest.version) in
      let out = save_changes texts wire json db.index manifest in
      set_manifest-disk manifest (record db { disk = apply_all out.0 db.disk }) out.1

  -- Where the disk says the version that the database is at, and numbers with the same digits are
  -- the same, an interruption of the changes that a save makes, be it one that would fail, leaves a
  -- disk that opens as before, with the same index or error, or the disk of the whole save.
  pub open_database-Interrupted :
      (db : Database F N) (left : Disk)
      → ((i j : ℕ) → texts.decimal i ≡ texts.decimal j → i ≡ j)
      → read_manifest texts db.disk ≡ Io.ok (manifest_of texts db.manifest.version)
      → let manifest = manifest_of texts (suc db.manifest.version) in
        Interrupted (save_changes texts wire json db.index manifest).0 db.disk left
        → (open_database texts wire json left
            ≡ on_disk left (open_database texts wire json db.disk))
          ⊎ (left ≡ (save_and_bump texts wire json db).0.disk)
  open_database-Interrupted db left injective r i =
      let version = db.manifest.version in
      let as_before = open_database-Kept version db.disk left r in
      elim (save_changes-cases version db.index) [
        | inl nothing ↦
            let same =
              Interrupted-nil db.disk left (subst (λ o. Interrupted o db.disk left) nothing i) in
            inl (
              as_before (
                ap (lookup manifest_name) same,
                ap (lookup (manifest_of texts version).index_file) same,
              ))
        | inr (inl (bytes, one)) ↦ inl (
            as_before (
              Interrupted-write texts version bytes db.disk left injective
                (subst (λ o. Interrupted o db.disk left) one i)))
        | inr (inr (bytes, content, all)) ↦
            elim (Interrupted-cases texts version bytes content db.disk left injective
              (subst (λ o. Interrupted o db.disk left) all i)) [
                | inl k ↦ inl (as_before k)
                | inr e ↦
                    inr (e ∙ ap (λ o. apply_all o db.disk) (sym all) ∙ sym (save_and_bump-disk db))
              ]
      ]
