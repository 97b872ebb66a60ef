-- ===== src/Storage/Found.antt =====
-- A reader of a saved file finds every part of the index at its place.
use vdb_rs.Prelude.{
  ℕ, ◌+◌, ◌*◌, ◌/◌, ◌%◌, ◌^◌, ◌≤◌, ◌<◌, ◌≡◌, refl, ap, sym, ◌∙◌, true, ltb, List, [], ◌∷◌, ◌++◌,
  some, length, take, drop, map, get_elem?, All, arith, length-append, length-map,
}
use vdb_rs.Prelude.Pieces.{join, take-drop-pieces, pieces_split, length-join_same, All-map, All-all}
use vdb_rs.Prelude.Wire.{Wire, f32_bytes}
use vdb_rs.Quantizer.{RabitqCode}
use vdb_rs.Index.Defs.{IvfRabitqIndex}
use vdb_rs.Storage.Header.{PartitionMeta, meta_size, meta_fields, serialize_header, serialize_meta}
use vdb_rs.Storage.RoundTrip.{Fit, length-serialize_header}
use vdb_rs.Storage.Checksum.{crc32}
use vdb_rs.Storage.Io.{Io}
use vdb_rs.Storage.Save.{PayloadJson, entry_bytes}
use vdb_rs.Storage.Layout.{
  partition_bytes, metas_from, length-metas_from, sections, start, header_of, manifest_of, covered,
  image,
}
use vdb_rs.Storage.Load.{Parts, read_parts}
use vdb_rs.Storage.Reading.{
  IsEntry, IsReader, length-entry_bytes, cast_u8_slice_to_f32-f32_bytes,
  cast_u8_slice_to_f32-vectors, length-serialize_meta, split_vectors-join,
  read_metas-serialize_meta, read_partitions,
}
use vdb_rs.Storage.Storable.{IsStorable, section_within}

length-join_metas :
    (metas : List PartitionMeta)
    → length (join (map serialize_meta metas)) ≡ length metas * meta_size
length-join_metas metas =
    length-join_same meta_size (map serialize_meta metas)
      (All-map _ _ metas (All-all _ metas length-serialize_meta))
    ∙ ap (λ n. n * meta_size) (length-map metas serialize_meta)

module _ {F : Type 0} (wire : Wire F) where
  length-entries :
      (code_bytes : ℕ) (entries : List (ℕ × RabitqCode F))
      → All (IsEntry wire code_bytes) entries
      → length entries ≤ length (partition_bytes wire entries)
  length-entries code_bytes [] h = omega arith
  length-entries code_bytes (entry ∷ entries) h =
      let bytes = entry_bytes wire entry in
      omega (
        arith,
        length-append bytes (partition_bytes wire entries),
        length-entry_bytes wire code_bytes entry h.0,
        length-entries code_bytes entries h.1,
      )

  metas_from-Fit :
      (code_bytes offset : ℕ) (partitions : List (List (ℕ × RabitqCode F)))
      → All (All (IsEntry wire code_bytes)) partitions
      → offset + length (join (map (partition_bytes wire) partitions)) < 2 ^ 64
      → All (λ m. Fit (meta_fields m)) (metas_from wire offset partitions)
  unfolding metas_from
  metas_from-Fit code_bytes offset [] h lt = tt
  metas_from-Fit code_bytes offset (entries ∷ partitions) h lt =
      let bytes = partition_bytes wire entries in
      let more = join (map (partition_bytes wire) partitions) in
      let total = length-append bytes more in
      let count = length-entries code_bytes entries h.0 in
      (
        (omega arith, (omega arith, (omega arith, tt))),
        metas_from-Fit code_bytes (offset + length bytes) partitions h.1 (omega arith),
      )

module _ {F N : Type 0} where
  abbrev pub parts_of : IvfRabitqIndex F N → Parts F N
  parts_of index = record {
    rotation = index.quantizer.rotation;
    centroids = index.centroids;
    partitions = index.partitions;
    raw = index.raw;
    payloads = index.payloads;
  }

module _ {F N : Type 0} (wire : Wire F) (json : PayloadJson N) where
  -- Every part of the index is found at its place by a reader of the file.
  pub read_parts-image :
      (index : IvfRabitqIndex F N) (payload_bytes : List ℕ) (read : ℕ → ℕ → Io (List ℕ))
      → IsStorable wire index payload_bytes
      → json.from_slice payload_bytes ≡ some index.payloads
      → IsReader (image wire index payload_bytes) read
      → read_parts wire json read (header_of wire index payload_bytes) ≡ Io.ok (parts_of index)
  unfolding read_parts image
  read_parts-image index payload_bytes read h j r =
      let pieces = sections wire index payload_bytes in
      let header = header_of wire index payload_bytes in
      let head = serialize_header header in
      let tail = manifest_of wire index (crc32 (covered wire index payload_bytes)) in
      let wide = length-serialize_header header refl in
      let section : (i len : ℕ) (piece : List ℕ)
          → get_elem? pieces i ≡ some piece
          → length piece ≡ len
          → read (start wire index payload_bytes i) len ≡ Io.ok piece =
        λ i len piece e n.
          let part =
            take-drop-pieces head tail pieces i (start wire index payload_bytes i) piece e
              (omega (arith, wide)) in
          ap (read (start wire index payload_bytes i)) (sym n)
          ∙ r (start wire index payload_bytes i) (length piece) part.1
          ∙ ap Io.ok part.0 in
      let centroids = join (map (f32_bytes wire) index.centroids) in
      let raw = join (map (f32_bytes wire) index.raw) in
      let entries = join (map (partition_bytes wire) index.partitions) in
      let metas = metas_from wire (start wire index payload_bytes 2) index.partitions in
      let within = section_within wire index payload_bytes in
      let dim : index.config.dim % 2 ^ 32 ≡ index.config.dim = omega (arith, h.dim_fits) in
      let count : length index.partitions % 2 ^ 32 ≡ length index.partitions =
        omega (arith, h.partitions_fit) in
      let table : length (join (map serialize_meta metas)) ≡ header.partition_meta_len =
        length-join_metas metas
        ∙ ap (λ n. n * meta_size)
            (length-metas_from wire (start wire index payload_bytes 2) index.partitions) in
      let metas_fit =
        metas_from-Fit wire (index.config.dim / 8) (start wire index payload_bytes 2)
          index.partitions h.entries (omega (arith, h.size_fits, within 2 entries refl)) in
      let some_payload : ltb 0 (length payload_bytes) ≡ true = ground (arith, h.payload_some) in
      rw
        (
          section 0 header.rotation_len (f32_bytes wire index.quantizer.rotation) refl refl,
          cast_u8_slice_to_f32-f32_bytes wire index.quantizer.rotation,
          section 1 header.centroids_len centroids refl refl,
          cast_u8_slice_to_f32-vectors wire index.centroids,
          dim,
          count,
          split_vectors-join wire index.config.dim (length index.partitions) index.centroids
              h.centroid_dims h.centroid_count,
          section 3 header.partition_meta_len (join (map serialize_meta metas)) refl table,
          read_metas-serialize_meta metas (length index.partitions) metas_fit
              (length-metas_from wire (start wire index payload_bytes 2) index.partitions),
          read_partitions wire read (index.config.dim / 8) (start wire index payload_bytes 2)
              (head ++ join (take 2 pieces)) (join (drop 3 pieces) ++ tail)
              (image wire index payload_bytes) index.partitions r
              (omega (arith, length-append head (join (take 2 pieces)), wide))
              (pieces_split head tail pieces 2 entries refl) h.entries,
          section 4 header.raw_len raw refl refl,
          cast_u8_slice_to_f32-vectors wire index.raw,
          split_vectors-join wire index.config.dim (length index.raw) index.raw h.vector_dims refl,
          some_payload,
          section 5 header.payload_len payload_bytes refl refl,
          j,
        )
        refl
