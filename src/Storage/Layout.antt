-- ===== src/Storage/Layout.antt =====
-- The layout of an index file: the header, six sections, and the manifest with the checksum of all
-- that follows the header.
use vdb_rs.Prelude.{
  ℕ, suc, replicate, ◌+◌, ◌-◌, ◌*◌, ◌≡◌, refl, ap, sym, ◌∙◌, List, [], ◌∷◌, ◌++◌, some, length,
  get_elem?, take, drop, map, arith, length-append, take-append, drop-append, append_assoc,
  append-nil,
}
use vdb_rs.Prelude.Bytes.{to_le_bytes, length-to_le_bytes}
use vdb_rs.Prelude.Pieces.{join, appended, appended-join, length-appended, length-join-take}
use vdb_rs.Prelude.Wire.{Wire, f32_bytes}
use vdb_rs.Quantizer.{RabitqCode}
use vdb_rs.Index.Defs.{IvfRabitqIndex}
use vdb_rs.Storage.Fields.{le_fields}
use vdb_rs.Storage.Header.{
  Header, PartitionMeta, header_size, meta_size, serialize_header, serialize_meta,
  serialize_manifest,
}
use vdb_rs.Storage.RoundTrip.{length-serialize_header}
use vdb_rs.Storage.Checksum.{crc32}
use vdb_rs.Storage.Io.{Io}
use vdb_rs.Storage.Save.{
  PayloadJson, header_at, back_fill, write_sections, overwrite, entry_bytes, write_partitions,
  save_index,
}

module _ {F : Type 0} (wire : Wire F) where
  abbrev pub partition_bytes : List (ℕ × RabitqCode F) → List ℕ
  partition_bytes entries = join (map (entry_bytes wire) entries)

  -- The table of the partitions, the first of which is at `offset`.
  unfoldable pub metas_from : ℕ → List (List (ℕ × RabitqCode F)) → List PartitionMeta
  metas_from offset [] = []
  metas_from offset (entries ∷ partitions) =
      record { offset = offset; len = length (partition_bytes entries); count = length entries }
      ∷ metas_from (offset + length (partition_bytes entries)) partitions

  -- The six sections: rotation, centroids, entries, table, raw vectors and payloads.
  abbrev pub sections : {N : Type 0} → IvfRabitqIndex F N → List ℕ → List (List ℕ)
  sections index payload_bytes =
      let rotation = f32_bytes wire index.quantizer.rotation in
      let centroids = join (map (f32_bytes wire) index.centroids) in
      rotation
      ∷ centroids
      ∷ join (map partition_bytes index.partitions)
      ∷ join (
          map serialize_meta
            (metas_from (header_size + length (rotation ++ (centroids ++ []))) index.partitions))
      ∷ join (map (f32_bytes wire) index.raw)
      ∷ payload_bytes
      ∷ []

  -- Where a section begins.
  abbrev pub start : {N : Type 0} → IvfRabitqIndex F N → List ℕ → ℕ → ℕ
  start index payload_bytes i = header_size + length (join (take i (sections index payload_bytes)))

  abbrev pub header_of : {N : Type 0} → IvfRabitqIndex F N → List ℕ → Header
  header_of index payload_bytes =
      let at = start index payload_bytes in
      header_at index (at 0, length (f32_bytes wire index.quantizer.rotation))
        (at 1, length (join (map (f32_bytes wire) index.centroids)))
        (at 3, length index.partitions * meta_size)
        (at 2, length (join (map partition_bytes index.partitions)))
        (at 4, length (join (map (f32_bytes wire) index.raw))) (at 5, length payload_bytes) (at 6)

  abbrev pub manifest_of : {N : Type 0} → IvfRabitqIndex F N → ℕ → List ℕ
  manifest_of index checksum =
      serialize_manifest (record { version = index.next_id; checksum = checksum })

  -- What the checksum is taken of: the sections and a manifest without one.
  abbrev pub covered : {N : Type 0} → IvfRabitqIndex F N → List ℕ → List ℕ
  covered index payload_bytes = join (sections index payload_bytes) ++ manifest_of index 0

  unfoldable pub image : {N : Type 0} → IvfRabitqIndex F N → List ℕ → List ℕ
  image index payload_bytes =
      serialize_header (header_of index payload_bytes)
      ++ (join (sections index payload_bytes)
          ++ manifest_of index (crc32 (covered index payload_bytes)))

  pub length-metas_from :
      (offset : ℕ) (partitions : List (List (ℕ × RabitqCode F)))
      → length (metas_from offset partitions) ≡ length partitions
  unfolding metas_from
  length-metas_from offset [] = refl
  length-metas_from offset (entries ∷ partitions) =
      ap suc (length-metas_from (offset + length (partition_bytes entries)) partitions)

  write_partitions-metas_from :
      (file : List ℕ) (partitions : List (List (ℕ × RabitqCode F)))
      → write_partitions wire file partitions
        ≡ (file ++ join (map partition_bytes partitions), metas_from (length file) partitions)
  unfolding write_partitions metas_from
  write_partitions-metas_from file [] = ap (λ f. (f, [])) (sym (append-nil file))
  write_partitions-metas_from file (entries ∷ partitions) =
      let bytes = partition_bytes entries in
      let longer : length (file ++ bytes) ≡ length file + length bytes = length-append file bytes in
      let len : length file + length bytes - length file ≡ length bytes = omega arith in
      rw
        (
          write_partitions-metas_from (file ++ bytes) partitions,
          longer,
          len,
          append_assoc file bytes (join (map partition_bytes partitions)),
        )
        refl

-- Bytes in the middle of a file are replaced by as many others.
overwrite-append :
    (offset : ℕ) (front old new rest : List ℕ)
    → length front ≡ offset
    → length old ≡ length new
    → overwrite offset new (front ++ (old ++ rest)) ≡ front ++ (new ++ rest)
unfolding overwrite
overwrite-append offset front old new rest f o =
    let past : drop (offset + length new) (front ++ (old ++ rest)) ≡ rest =
      ap (drop (offset + length new)) (sym (append_assoc front old rest))
      ∙ drop-append (offset + length new) (front ++ old) rest
          (omega (arith, length-append front old)) in
    rw (take-append offset front (old ++ rest) f, past) refl

regroup : (front v c z : List ℕ) → front ++ ((v ++ (c ++ [])) ++ z) ≡ (front ++ v) ++ (c ++ z)
regroup front v c z =
    ap (λ m. front ++ ((v ++ m) ++ z)) (append-nil c)
    ∙ ap (◌++◌ front) (append_assoc v c z)
    ∙ sym (append_assoc front v (c ++ z))

overwrite_checksum :
    (front : List ℕ) (offset version old new : ℕ)
    → length front + 8 ≡ offset
    → overwrite offset
        (to_le_bytes 4 new)
        (front ++ serialize_manifest (record { version = version; checksum = old }))
      ≡ front ++ serialize_manifest (record { version = version; checksum = new })
unfolding serialize_manifest le_fields
overwrite_checksum front offset version old new h =
    let v = to_le_bytes 8 version in
    ap (overwrite offset (to_le_bytes 4 new)) (regroup front v (to_le_bytes 4 old) (replicate 4 0))
    ∙ overwrite-append offset (front ++ v) (to_le_bytes 4 old) (to_le_bytes 4 new) (replicate 4 0)
        (omega (arith, length-append front v, length-to_le_bytes 8 version))
        (length-to_le_bytes 4 old ∙ sym (length-to_le_bytes 4 new))
    ∙ sym (regroup front v (to_le_bytes 4 new) (replicate 4 0))

-- The header takes the place of as many bytes, and the checksum is that of all that follows.
back_fill_lem :
    (blank front : List ℕ) (h : Header) (version offset : ℕ)
    → length h.magic ≡ 8
    → length blank ≡ header_size
    → header_size + length front ≡ offset
    → let without = serialize_manifest (record { version = version; checksum = 0 }) in
      back_fill h offset ((blank ++ front) ++ without)
      ≡ serialize_header h
        ++ (front
            ++ serialize_manifest
                (record { version = version; checksum = crc32 (front ++ without) }))
unfolding back_fill
back_fill_lem blank front h version offset m b o =
    let head = serialize_header h in
    let wide = length-serialize_header h m in
    let without = serialize_manifest (record { version = version; checksum = 0 }) in
    let checksum = crc32 (front ++ without) in
    let headed : overwrite 0 head ((blank ++ front) ++ without) ≡ head ++ (front ++ without) =
      ap (overwrite 0 head) (append_assoc blank front without)
      ∙ overwrite-append 0 [] blank head (front ++ without) refl (b ∙ sym wide) in
    let place : length (head ++ front) + 8 ≡ offset + 8 =
      omega (arith, length-append head front, o, wide) in
    rw
      (
        headed,
        drop-append header_size head (front ++ without) wide,
        ← append_assoc head front without,
        overwrite_checksum (head ++ front) (offset + 8) version 0 checksum place,
        append_assoc head front,
      )
      refl

module _ {F N : Type 0} (wire : Wire F) (json : PayloadJson N) where
  write_sections-image :
      (index : IvfRabitqIndex F N) (payload_bytes blank : List ℕ)
      → json.to_vec index.payloads ≡ some payload_bytes
      → length blank ≡ header_size
      → write_sections wire json index blank ≡ Io.ok (image wire index payload_bytes)
  unfolding write_sections image
  write_sections-image index payload_bytes blank j b =
      let rotation = f32_bytes wire index.quantizer.rotation in
      let centroids = join (map (f32_bytes wire) index.centroids) in
      let file2 = (blank ++ rotation) ++ centroids in
      let pieces = sections wire index payload_bytes in
      let at : (i : ℕ)
          → length (appended blank (take i pieces)) ≡ start wire index payload_bytes i =
        λ i. length-appended blank (take i pieces) header_size b in
      let len : (i : ℕ) (piece : List ℕ)
          → get_elem? pieces i ≡ some piece
          → start wire index payload_bytes (suc i) - start wire index payload_bytes i
            ≡ length piece =
        λ i piece e. omega (arith, length-join-take pieces i piece e) in
      rw
        (
          write_partitions-metas_from wire file2 index.partitions,
          j,
          b,
          at 1,
          at 2,
          at 3,
          at 4,
          at 5,
          at 6,
          len 1 centroids refl,
          len 2 (join (map (partition_bytes wire) index.partitions)) refl,
          len 4 (join (map (f32_bytes wire) index.raw)) refl,
          length-metas_from wire (start wire index payload_bytes 2) index.partitions,
          appended-join blank pieces,
        )
        (ap Io.ok (
          back_fill_lem blank (join pieces) (header_of wire index payload_bytes) index.next_id
            (start wire index payload_bytes 6) refl b refl))

  -- Where the payloads have a JSON text, saving succeeds, and the file has the documented layout.
  pub save_index-image :
      (index : IvfRabitqIndex F N) (payload_bytes : List ℕ)
      → json.to_vec index.payloads ≡ some payload_bytes
      → save_index wire json index ≡ Io.ok (image wire index payload_bytes)
  unfolding save_index
  save_index-image index payload_bytes j =
      write_sections-image index payload_bytes (replicate header_size 0) j refl
