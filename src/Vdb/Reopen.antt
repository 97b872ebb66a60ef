-- ===== src/Vdb/Reopen.antt =====
-- What is saved under a version is found when the database is opened again.
use vdb_rs.Prelude.{ℕ, suc, ◌<◌, ◌≡◌, refl, ap, ◌∙◌, false, List, [], ◌∷◌, some, length, All}
use vdb_rs.Prelude.Assoc.{
  Str, str_eq, string_eq, lookup, insert, remove, lookup-insert, lookup-remove, eq_refl,
}
use vdb_rs.Prelude.Float.{Float}
use vdb_rs.Prelude.Wire.{Wire}
use vdb_rs.Quantizer.{RabitqConfig_new}
use vdb_rs.Index.Defs.{IvfRabitqIndex}
use vdb_rs.Index.Add.{IsValid}
use vdb_rs.Index.Rebuild.{Holds}
use vdb_rs.Storage.Io.{Io}
use vdb_rs.Storage.Save.{PayloadJson, save_index}
use vdb_rs.Storage.Load.{load_index}
use vdb_rs.Storage.Storable.{IsStorable}
use vdb_rs.Storage.Reload.{load_index-save_index}
use vdb_rs.Vdb.Disk.{Disk, DiskOp, apply, apply_all}
use vdb_rs.Vdb.Defs.{
  Manifest, Database, Texts, manifest_name, tmp_name, manifest_of, read_manifest, save_index_file,
  write_manifest, save_changes, set_manifest, save_version, save_and_bump, open_database,
}

-- The lookups of a file that was just written, and of another.
pub lookup_written :
    (name : Str) (bytes : List ℕ) (disk : Disk) → lookup name (insert name bytes disk) ≡ some bytes
lookup_written name bytes disk = rw (lookup-insert name name bytes disk, eq_refl name) refl

pub lookup_other :
    (name other : Str) (bytes : List ℕ) (disk : Disk)
    → str_eq name other ≡ false
    → lookup other (insert name bytes disk) ≡ lookup other disk
lookup_other name other bytes disk h = rw (lookup-insert name other bytes disk, h) refl

apply-write :
    (name : Str) (bytes : List ℕ) (disk : Disk)
    → apply (DiskOp.write name bytes) disk ≡ insert name bytes disk
unfolding apply
apply-write name bytes disk = refl

written :
    (name : Str) (bytes : List ℕ) (disk : Disk)
    → lookup name (apply (DiskOp.write name bytes) disk) ≡ some bytes
written name bytes disk =
    ap (lookup name) (apply-write name bytes disk) ∙ lookup_written name bytes disk

apply-rename :
    (from to : Str) (bytes : List ℕ) (disk : Disk)
    → lookup from disk ≡ some bytes
    → apply (DiskOp.rename from to) disk ≡ insert to bytes (remove from disk)
unfolding apply
apply-rename from to bytes disk h = rw (h, apply) refl

abbrev pub publish : List ℕ → List DiskOp
publish content = DiskOp.write tmp_name content ∷ DiskOp.rename tmp_name manifest_name ∷ []

-- The disk after the two steps of `write_manifest`.
apply_all-publish :
    (content : List ℕ) (disk : Disk)
    → apply_all (publish content) disk
      ≡ insert manifest_name content (remove tmp_name (insert tmp_name content disk))
unfolding apply_all
apply_all-publish content disk =
    apply-rename tmp_name manifest_name content (apply (DiskOp.write tmp_name content) disk)
      (written tmp_name content disk)
    ∙ ap (λ d. insert manifest_name content (remove tmp_name d)) (apply-write tmp_name content disk)

apply_all-save :
    (name : Str) (bytes content : List ℕ) (disk : Disk)
    → apply_all (DiskOp.write name bytes ∷ publish content) disk
      ≡ apply_all (publish content) (insert name bytes disk)
unfolding apply_all apply
apply_all-save name bytes content disk = refl

-- They leave the content under the manifest's name, and touch no index file.
pub lookup-publish :
    (content : List ℕ) (disk : Disk)
    → lookup manifest_name (apply_all (publish content) disk) ≡ some content
lookup-publish content disk =
    ap (lookup manifest_name) (apply_all-publish content disk)
    ∙ lookup_written manifest_name content (remove tmp_name (insert tmp_name content disk))

-- The name of an index file is none of the manifest's two.
pub index_name_apart :
    (texts : Texts) (version : ℕ) (rest : Str)
    → str_eq (b'm' ∷ rest) (manifest_of texts version).index_file ≡ false
unfolding manifest_of str_eq
index_name_apart texts version rest = refl

pub lookup-publish_index :
    (texts : Texts) (version : ℕ) (content : List ℕ) (disk : Disk)
    → lookup (manifest_of texts version).index_file (apply_all (publish content) disk)
      ≡ lookup (manifest_of texts version).index_file disk
lookup-publish_index texts version content disk =
    let name = (manifest_of texts version).index_file in
    let drafted = insert tmp_name content disk in
    ap (lookup name) (apply_all-publish content disk)
    ∙ lookup_other manifest_name name content (remove tmp_name drafted)
        (index_name_apart texts version _)
    ∙ rw (lookup-remove tmp_name name drafted, index_name_apart texts version _) refl
    ∙ lookup_other tmp_name name content disk (index_name_apart texts version _)

module _ {F N : Type 0} ⦃fl : Float F⦄ ⦃fn : Float N⦄ (texts : Texts) (wire : Wire F)
    (json : PayloadJson N) where
  -- The manifest of a disk, and the index it names.
  pub open_database-found :
      (disk : Disk) (manifest : Manifest) (content bytes : List ℕ) (index : IvfRabitqIndex F N)
      → lookup manifest_name disk ≡ some content
      → texts.from_str content ≡ some manifest
      → lookup manifest.index_file disk ≡ some bytes
      → load_index wire json bytes ≡ Io.ok index
      → open_database texts wire json disk
        ≡ Io.ok (record { index = index; disk = disk; manifest = manifest })
  unfolding open_database read_manifest
  open_database-found disk manifest content bytes index m d b l = rw (m, d, b, l) refl

  write_manifest-publish :
      (manifest : Manifest) (content : List ℕ)
      → texts.to_vec_pretty manifest ≡ some content
      → write_manifest texts manifest ≡ Io.ok (publish content)
  unfolding write_manifest
  write_manifest-publish manifest content t = rw t refl

  save_index_file-write :
      (index : IvfRabitqIndex F N) (manifest : Manifest) (bytes : List ℕ)
      → save_index wire json index ≡ Io.ok bytes
      → save_index_file texts wire json index manifest
        ≡ Io.ok (DiskOp.write manifest.index_file bytes ∷ [])
  unfolding save_index_file
  save_index_file-write index manifest bytes s = rw s refl

  -- The changes of a save that succeeds.
  pub save_changes-publish :
      (version : ℕ) (index : IvfRabitqIndex F N) (bytes content : List ℕ)
      → save_index wire json index ≡ Io.ok bytes
      → texts.to_vec_pretty (manifest_of texts version) ≡ some content
      → save_changes texts wire json index (manifest_of texts version)
        ≡ (DiskOp.write (manifest_of texts version).index_file bytes ∷ publish content, Io.ok tt)
  unfolding save_changes
  save_changes-publish version index bytes content s t =
      let manifest = manifest_of texts version in
      rw
        (
          save_index_file-write index manifest bytes s,
          save_changes,
          write_manifest-publish manifest content t,
        )
        refl

  pub save_version-disk :
      (version : ℕ) (db : Database F N) (bytes content : List ℕ)
      → save_index wire json db.index ≡ Io.ok bytes
      → texts.to_vec_pretty (manifest_of texts version) ≡ some content
      → save_version texts wire json (manifest_of texts version) db ≡ (
        record {
          index = db.index;
          disk =
              apply_all
                (publish content)
                (insert (manifest_of texts version).index_file bytes db.disk);
          manifest = manifest_of texts version;
        },
        Io.ok tt,
      )
  unfolding save_version set_manifest
  save_version-disk version db bytes content s t =
      let manifest = manifest_of texts version in
      rw
        (
          save_changes-publish version db.index bytes content s t,
          save_version,
          set_manifest,
          save_changes-publish version db.index bytes content s t,
          apply_all-save manifest.index_file bytes content db.disk,
        )
        refl

  -- Where the index in memory can be saved and read back, and the manifest of the next version has a
  -- JSON text that is read back, saving succeeds, and opening the directory afterwards returns a
  -- well-formed index with the same parts under that version.
  pub open_database-save_and_bump :
      (db : Database F N) (payload_bytes content : List ℕ)
      → IsValid db.index
      → IsStorable wire db.index payload_bytes
      → RabitqConfig_new db.index.config.dim ≡ some db.index.config
      → All (All (λ e. e.0 < length db.index.raw)) db.index.partitions
      → json.to_vec db.index.payloads ≡ some payload_bytes
      → json.from_slice payload_bytes ≡ some db.index.payloads
      → texts.to_vec_pretty (manifest_of texts (suc db.manifest.version)) ≡ some content
      → texts.from_str content ≡ some (manifest_of texts (suc db.manifest.version))
      → (saved : Database F N) × (loaded : IvfRabitqIndex F N) × (save_and_bump texts wire json db
          ≡ (saved, Io.ok tt))
        × (open_database texts wire json saved.disk ≡ Io.ok (record saved { index = loaded }))
        × (saved.manifest ≡ manifest_of texts (suc db.manifest.version))
        × IsValid loaded
        × Holds loaded db.index.config
            (record { config = db.index.config; rotation = db.index.quantizer.rotation })
            db.index.centroids
            db.index.partitions
            db.index.raw
            db.index.payloads
            db.index.next_id
  unfolding save_and_bump
  open_database-save_and_bump db payload_bytes content v h c ids t j mt mj =
      let version = suc db.manifest.version in
      let manifest = manifest_of texts version in
      let (bytes, loaded, saved, found, valid, same) =
        load_index-save_index wire json db.index payload_bytes v h c ids t j in
      let disk1 = insert manifest.index_file bytes db.disk in
      let disk2 = apply_all (publish content) disk1 in
      (
        record { index = db.index; disk = disk2; manifest = manifest },
        loaded,
        save_version-disk version db bytes content saved mt,
        open_database-found disk2 manifest content bytes loaded (lookup-publish content disk1) mj
            (lookup-publish_index texts version content disk1
              ∙ lookup_written manifest.index_file bytes db.disk)
            found,
        refl,
        valid,
        same,
      )
