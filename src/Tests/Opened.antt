-- ===== src/Tests/Opened.antt =====
-- A database of one vector, for the theorems on src/vdb.rs.
use vdb_rs.Prelude.{
  ℕ, suc, ◌+◌, ◌≡◌, ◌⊎◌, refl, ap, sym, subst, ◌∙◌, List, [], ◌∷◌, Option, none, some, length,
  replicate, length-replicate, if◌then◌else◌,
}
use vdb_rs.Prelude.Assoc.{str_eq, string_eq, lookup, insert}
use vdb_rs.Index.Defs.{IvfRabitqIndex}
use vdb_rs.Index.Add.{IsValid}
use vdb_rs.Index.Rebuild.{Holds}
use vdb_rs.Storage.Io.{Io}
use vdb_rs.Storage.Layout.{image, save_index-image}
use vdb_rs.Vdb.Disk.{Disk, DiskOp, Interrupted}
use vdb_rs.Vdb.Defs.{
  Manifest, Database, Texts, manifest_name, manifest_of, read_manifest, save_changes, save_and_bump,
  open_database, compact,
}
use vdb_rs.Vdb.Reopen.{open_database-save_and_bump, save_changes-publish}
use vdb_rs.Vdb.Crash.{on_disk, open_database-Interrupted}
use vdb_rs.Vdb.Compact.{is_old, compact-removes, open_database-compact}
use vdb_rs.Tests.Number.{Number, number_float}
use vdb_rs.Tests.Tiny.{Tiny, tiny_float, tiny_wire}
use vdb_rs.Tests.Saved.{counted, config, index, index-IsValid, index-IsStorable, config_of_dim, ids}

-- Versions in strokes, and a manifest as its version before its file.
abbrev of_content : List ℕ → Option Manifest
of_content [] = none
of_content (version ∷ name) = some (record { version = version; index_file = name })

abbrev stroke : ℕ
stroke = b'1'

abbrev pub strokes : Texts
strokes = record {
  decimal = λ n. replicate n stroke;
  to_vec_pretty = λ m. some (m.version ∷ m.index_file);
  from_str = of_content;
}

strokes_injective : (i j : ℕ) → replicate i stroke ≡ replicate j stroke → i ≡ j
strokes_injective i j h = sym (length-replicate i stroke) ∙ ap length h ∙ length-replicate j stroke

abbrev pub content : ℕ → List ℕ
content version = version ∷ (manifest_of strokes version).index_file

abbrev db : Database Tiny Number
db = record {
  index = index;
  disk = (manifest_name, content 0) ∷ [];
  manifest = manifest_of strokes 0;
}

db_read : read_manifest strokes db.disk ≡ Io.ok (manifest_of strokes 0)
unfolding read_manifest lookup str_eq manifest_of
db_read = refl

db_version : db.manifest.version ≡ 0
unfolding manifest_of
db_version = refl

open_database-save_and_bump_example :
    (saved : Database Tiny Number) × (loaded : IvfRabitqIndex Tiny Number) × (save_and_bump strokes
        tiny_wire counted db
      ≡ (saved, Io.ok tt))
    × (open_database strokes tiny_wire counted saved.disk ≡ Io.ok (record saved { index = loaded }))
    × (saved.manifest ≡ manifest_of strokes (suc db.manifest.version))
    × IsValid loaded
    × Holds loaded config index.quantizer index.centroids index.partitions index.raw index.payloads
        1
unfolding manifest_of
open_database-save_and_bump_example =
    open_database-save_and_bump strokes tiny_wire counted db (1 ∷ [])
      (content (suc db.manifest.version)) index-IsValid index-IsStorable config_of_dim ids refl refl
      refl refl

-- A save that was cut off in the middle of the index file.
abbrev cut_off : Disk
cut_off = insert (manifest_of strokes (suc db.manifest.version)).index_file (7 ∷ 8 ∷ []) db.disk

cut_off-Interrupted :
    Interrupted
      (save_changes strokes tiny_wire counted db.index
        (manifest_of strokes (suc db.manifest.version))).0
      db.disk
      cut_off
unfolding manifest_of
cut_off-Interrupted =
    subst (λ (out : List DiskOp × Io (Unit {0})). Interrupted out.0 db.disk cut_off)
      (sym (
        save_changes-publish strokes tiny_wire counted (suc db.manifest.version) db.index
          (image tiny_wire index (1 ∷ [])) (content (suc db.manifest.version))
          (save_index-image tiny_wire counted index (1 ∷ []) refl) refl))
      (Interrupted.torn (7 ∷ 8 ∷ []))

open_database-Interrupted_example :
    (open_database strokes tiny_wire counted cut_off
      ≡ on_disk strokes tiny_wire counted cut_off (open_database strokes tiny_wire counted db.disk))
    ⊎ (cut_off ≡ (save_and_bump strokes tiny_wire counted db).0.disk)
unfolding manifest_of
open_database-Interrupted_example =
    open_database-Interrupted strokes tiny_wire counted db cut_off strokes_injective db_read
      cut_off-Interrupted

compact-removes_example :
    (lookup manifest_name (compact db).0.disk ≡ (
      if is_old db.manifest.index_file manifest_name then none else lookup manifest_name db.disk))
    × (length (compact db).0.disk + (compact db).1 ≡ length db.disk)
compact-removes_example = compact-removes db manifest_name

open_database-compact_example :
    open_database strokes tiny_wire counted (compact db).0.disk
    ≡ on_disk strokes tiny_wire counted
        (compact db).0.disk
        (open_database strokes tiny_wire counted db.disk)
unfolding manifest_of
open_database-compact_example = open_database-compact strokes tiny_wire counted db refl db_read
