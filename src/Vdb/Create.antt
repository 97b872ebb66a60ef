-- ===== src/Vdb/Create.antt =====
-- A database that was created opens with nothing in it.
use vdb_rs.Prelude.{
  ℕ, ◌<◌, ◌≡◌, refl, sym, ap, subst, ◌∙◌, ◌%◌, List, [], none, some, length, replicate, All, ◌==◌,
  Bool-cases, inl, inr, arith,
}
use vdb_rs.Prelude.Assoc.{string_eq, insert}
use vdb_rs.Prelude.Float.{Float}
use vdb_rs.Prelude.Wire.{Wire}
use vdb_rs.Quantizer.{RabitqConfig_new}
use vdb_rs.Index.Defs.{IvfRabitqIndex, new}
use vdb_rs.Index.Add.{IsValid, new-IsValid}
use vdb_rs.Index.Rebuild.{Holds}
use vdb_rs.Storage.Io.{Io}
use vdb_rs.Storage.Save.{PayloadJson}
use vdb_rs.Storage.Storable.{IsStorable}
use vdb_rs.Storage.Reload.{load_index-save_index}
use vdb_rs.Vdb.Disk.{Disk, apply_all}
use vdb_rs.Vdb.Defs.{Database, Texts, manifest_of, create, open_database}
use vdb_rs.Vdb.Reopen.{
  lookup-publish, lookup-publish_index, lookup_written, open_database-found, save_version-disk,
  publish,
}

module _ {F N : Type 0} ⦃fl : Float F⦄ ⦃fn : Float N⦄ where
  -- Only a dimension that is a multiple of 64 gives an index.
  new-multiple :
      (rotation : List F) (dim : ℕ) (idx : IvfRabitqIndex F N)
      → new rotation dim ≡ some idx
      → dim % 64 ≡ 0
  unfolding new RabitqConfig_new
  new-multiple rotation dim idx e = elim (Bool-cases (dim % 64 == 0)) [
    | inl t ↦ ground arith
    | inr t ↦ let no : none ≡ some idx = rw t at e in cc
  ]

module _ {F N : Type 0} ⦃fl : Float F⦄ ⦃fn : Float N⦄ (texts : Texts) (wire : Wire F)
    (json : PayloadJson N) where
  -- Creating a database around an index that can be saved and read back.
  create_opens :
      (rotation : List F) (dim : ℕ) (disk : Disk) (index : IvfRabitqIndex F N)
      (payload_bytes content : List ℕ)
      → new rotation dim ≡ some index
      → IsValid index
      → IsStorable wire index payload_bytes
      → RabitqConfig_new index.config.dim ≡ some index.config
      → All (All (λ e. e.0 < length index.raw)) index.partitions
      → json.to_vec index.payloads ≡ some payload_bytes
      → json.from_slice payload_bytes ≡ some index.payloads
      → texts.to_vec_pretty (manifest_of texts 0) ≡ some content
      → texts.from_str content ≡ some (manifest_of texts 0)
      → (db : Database F N) × (loaded : IvfRabitqIndex F N) × (create texts wire json rotation dim
            disk
          ≡ Io.ok db)
        × (open_database texts wire json db.disk ≡ Io.ok (record db { index = loaded }))
        × (db.manifest ≡ manifest_of texts 0)
        × IsValid loaded
        × Holds loaded index.config
            (record { config = index.config; rotation = index.quantizer.rotation })
            index.centroids
            index.partitions
            index.raw
            index.payloads
            index.next_id
  unfolding create
  create_opens rotation dim disk index payload_bytes content made v h c ids t j mt mj =
      let (bytes, loaded, saved, opened, good, holds) =
        load_index-save_index wire json index payload_bytes v h c ids t j in
      let manifest = manifest_of texts 0 in
      let disk1 = insert manifest.index_file bytes disk in
      let disk2 = apply_all (publish content) disk1 in
      let start : Database F N = record { index = index; disk = disk; manifest = manifest } in
      (
        record { index = index; disk = disk2; manifest = manifest },
        loaded,
        rw (made, save_version-disk texts wire json 0 start bytes content saved mt) refl,
        open_database-found texts wire json disk2 manifest content bytes loaded
            (lookup-publish content disk1) mj
            (lookup-publish_index texts 0 content disk1
              ∙ lookup_written manifest.index_file bytes disk)
            opened,
        refl,
        good,
        holds,
      )

  -- Where a new index of a dimension can be saved, its empty list of payloads and the manifest of
  -- version 0 have JSON texts that are read back, creating a database succeeds in any directory, and
  -- opening the directory returns a well-formed index of this dimension without a vector or a payload,
  -- with four partitions without an entry and with the rotation drawn, under version 0.
  pub open_database-create :
      (rotation : List F) (dim : ℕ) (disk : Disk) (idx : IvfRabitqIndex F N)
      (payload_bytes content : List ℕ)
      → new rotation dim ≡ some idx
      → IsStorable wire idx payload_bytes
      → json.to_vec [] ≡ some payload_bytes
      → json.from_slice payload_bytes ≡ some []
      → texts.to_vec_pretty (manifest_of texts 0) ≡ some content
      → texts.from_str content ≡ some (manifest_of texts 0)
      → (db : Database F N) × (loaded : IvfRabitqIndex F N) × (create texts wire json rotation dim
            disk
          ≡ Io.ok db)
        × (open_database texts wire json db.disk ≡ Io.ok (record db { index = loaded }))
        × (db.manifest ≡ manifest_of texts 0)
        × IsValid loaded
        × (loaded.config.dim ≡ dim)
        × (loaded.quantizer.rotation ≡ rotation)
        × (loaded.raw ≡ [])
        × (loaded.payloads ≡ [])
        × (loaded.partitions ≡ replicate 4 [])
  open_database-create rotation dim disk idx payload_bytes content e h t j mt mj =
      let (made, found, valid, raw, payloads, wide, config, quantizer, partitions) =
        new-IsValid rotation dim (new-multiple rotation dim idx e) in
      let equal : some made ≡ some idx = sym found ∙ e in
      let same : made ≡ idx = cc in
      let ids : All (All (λ e. e.0 < length made.raw)) made.partitions =
        subst (All (All (λ e. e.0 < length made.raw))) (sym partitions)
          (tt, (tt, (tt, (tt, tt)))) in
      let (db, loaded, created, opened, version, good, (c, q, cs, ps, r, pl, nx)) =
        create_opens rotation dim disk made payload_bytes content found valid
          (subst (λ x. IsStorable wire x payload_bytes) (sym same) h) config ids
          (ap json.to_vec payloads ∙ t) (j ∙ ap some (sym payloads)) mt mj in
      (
        db,
        loaded,
        created,
        opened,
        version,
        good,
        ap (λ x. x.dim) c ∙ wide,
        ap (λ x. x.rotation) q ∙ ap (λ x. x.rotation) quantizer,
        r ∙ raw,
        pl ∙ payloads,
        ps ∙ partitions,
      )
