-- ===== src/Vdb/Compact.antt =====
-- `compact` of src/vdb.rs removes the index files of the other versions, and nothing else.
use vdb_rs.Prelude.{
  ◌+◌, ◌≡◌, refl, ap, sym, ◌∙◌, Bool, true, false, ◌&&◌, not, [], ◌∷◌, none, length, if◌then◌else◌,
  arith, Bool-cases, inl, inr,
}
use vdb_rs.Prelude.Assoc.{Str, str_eq, str_eq_iff, string_eq, lookup}
use vdb_rs.Prelude.Float.{Float}
use vdb_rs.Prelude.Wire.{Wire}
use vdb_rs.Storage.Io.{Io}
use vdb_rs.Storage.Save.{PayloadJson}
use vdb_rs.Vdb.Disk.{Disk}
use vdb_rs.Vdb.Crash.{on_disk, open_database-Kept}
use vdb_rs.Vdb.Defs.{
  Database, index_prefix, index_suffix, starts_with, ends_with, compact_loop, compact, Texts,
  manifest_of, manifest_name, read_manifest, open_database,
}

-- The names that `compact` removes.
abbrev pub is_old : Str → Str → Bool
is_old keep name =
    starts_with name index_prefix && ends_with name index_suffix && not (str_eq name keep)

lookup-compact_loop :
    (keep name : Str) (disk : Disk)
    → lookup name (compact_loop keep disk).0 ≡ (if is_old keep name then none else lookup name disk)
unfolding compact_loop lookup
lookup-compact_loop keep name [] = ground arith
lookup-compact_loop keep name ((other, bytes) ∷ rest) =
    let ih = lookup-compact_loop keep name rest in
    elim (Bool-cases (str_eq other name)) [
      | inl s ↦
          let same : other ≡ name = (str_eq_iff other name).0 s in
          let old : is_old keep other ≡ is_old keep name = ap (is_old keep) same in
          elim (Bool-cases (is_old keep name)) [
            | inl o ↦ rw (old ∙ o, o) (ih ∙ rw o refl)
            | inr o ↦ rw (old ∙ o, o, s) refl
          ]
      | inr s ↦ elim (Bool-cases (is_old keep other)) [
        | inl o ↦ rw (o, s) ih
        | inr o ↦ rw (o, s) ih
      ]
    ]

length-compact_loop :
    (keep : Str) (disk : Disk)
    → length (compact_loop keep disk).0 + (compact_loop keep disk).1 ≡ length disk
unfolding compact_loop
length-compact_loop keep [] = refl
length-compact_loop keep ((name, bytes) ∷ rest) = ground (arith, length-compact_loop keep rest)

module _ {F N : Type 0} where
  -- After compaction the files named as index files, but for the one in the manifest, are gone;
  -- every other file is as it was; and the number returned is that of the files removed.
  pub compact-removes :
      (db : Database F N) (name : Str)
      → (lookup name (compact db).0.disk
          ≡ (if is_old db.manifest.index_file name then none else lookup name db.disk))
        × (length (compact db).0.disk + (compact db).1 ≡ length db.disk)
  unfolding compact
  compact-removes db name = (
    lookup-compact_loop db.manifest.index_file name db.disk,
    length-compact_loop db.manifest.index_file db.disk,
  )

-- The manifest and the index file it names are not among those removed.
manifest_stays : (keep : Str) → is_old keep manifest_name ≡ false
unfolding starts_with str_eq
manifest_stays keep = refl

kept_stays : (keep : Str) → is_old keep keep ≡ false
kept_stays keep = let same : str_eq keep keep ≡ true = (str_eq_iff keep keep).1 refl in ground arith

module _ {F N : Type 0} ⦃fl : Float F⦄ ⦃fn : Float N⦄ (texts : Texts) (wire : Wire F)
    (json : PayloadJson N) where
  -- Where the disk says the version that the database is at, a compacted directory opens with the
  -- same index, or the same error, as before.
  pub open_database-compact :
      (db : Database F N)
      → db.manifest ≡ manifest_of texts db.manifest.version
      → read_manifest texts db.disk ≡ Io.ok db.manifest
      → open_database texts wire json (compact db).0.disk
        ≡ on_disk texts wire json (compact db).0.disk (open_database texts wire json db.disk)
  open_database-compact db named r =
      let keep = (manifest_of texts db.manifest.version).index_file in
      let keep_is : keep ≡ db.manifest.index_file = ap (λ m. m.index_file) (sym named) in
      open_database-Kept texts wire json db.manifest.version db.disk (compact db).0.disk
        (r ∙ ap Io.ok named)
        (
          (compact-removes db manifest_name).0 ∙ rw (manifest_stays db.manifest.index_file) refl,
          (compact-removes db keep).0
              ∙ rw (ap (is_old db.manifest.index_file) keep_is ∙ kept_stays db.manifest.index_file)
                  refl,
        )
