-- ===== src/Storage/Reload.antt =====
-- What `save_index` writes, `load_index` and `load_index_mmap` read back.
use vdb_rs.Prelude.{
  ℕ, not, drop-add, ◌+◌, ◌-◌, ◌*◌, ◌%◌, ◌^◌, ◌≤◌, ◌<◌, ◌≡◌, refl, ap, sym, ◌∙◌, true, ◌&&◌, leb,
  List, [], ◌++◌, some, length, take, drop, All, arith, length-append, append-nil, append_assoc,
  ◌==◌, drop-append, take-append, subst, length-drop, length-take,
}
use vdb_rs.Prelude.Assoc.{str_eq}
use vdb_rs.Prelude.Bytes.{to_le_bytes, from_le_bytes-to_le_bytes}
use vdb_rs.Prelude.Float.{Float}
use vdb_rs.Prelude.Pieces.{join}
use vdb_rs.Prelude.Wire.{Wire}
use vdb_rs.Index.Defs.{IvfRabitqIndex}
use vdb_rs.Storage.Header.{Manifest, header_size, serialize_header, serialize_manifest}
use vdb_rs.Storage.RoundTrip.{
  length-serialize_header, deserialize_header-serialize, deserialize_manifest-serialize,
}
use vdb_rs.Storage.Checksum.{crc32}
use vdb_rs.Storage.Width.{crc32-lt}
use vdb_rs.Storage.Io.{Io, read_at, slice}
use vdb_rs.Storage.Save.{PayloadJson}
use vdb_rs.Storage.Layout.{sections, start, header_of, manifest_of, covered, image}
use vdb_rs.Storage.Load.{
  check_header, body_checksum, build_index, load_index, mmap_slice, load_index_mmap,
}
use vdb_rs.Storage.Reading.{IsReader}
use vdb_rs.Storage.Storable.{
  IsStorable, covered-IsBytes, length-image, header_of-IsHeader, length-manifest,
}
use vdb_rs.Storage.Masking.{fill_zero-manifest, take-drop-manifest}
use vdb_rs.Storage.Found.{parts_of, read_parts-image}
use vdb_rs.Index.Add.{IsValid}
use vdb_rs.Index.Rebuild.{Holds, from_parts_total}
use vdb_rs.Quantizer.{RabitqConfig_new}
use vdb_rs.Storage.Save.{save_index}
use vdb_rs.Storage.Layout.{save_index-image}

slice_bounds :
    (start end size : ℕ) (xs : List ℕ)
    → start + size ≡ end
    → end ≤ length xs
    → slice start end xs ≡ Io.ok (take size (drop start xs))
unfolding slice
slice_bounds start end size xs h lt =
    let inside : (leb start end && leb end (length xs)) ≡ true = ground arith in
    let width : end - start ≡ size = omega arith in rw (inside, width) refl

-- `read_at` and `mmap.slice` read a file.
read_at-IsReader : (file : List ℕ) → IsReader file (λ offset len. read_at offset len file)
unfolding read_at
read_at-IsReader file offset len h =
    let size : (length (take len (drop offset file)) == len) ≡ true =
      ground (arith, length-take len (drop offset file), length-drop offset file) in
    rw size refl

mmap_slice-IsReader : (file : List ℕ) → length file < 2 ^ 64 → IsReader file (mmap_slice file)
unfolding mmap_slice
mmap_slice-IsReader file lt offset len h =
    let end : (offset + len) % 2 ^ 64 ≡ offset + len = omega arith in
    rw end (slice_bounds offset (offset + len) len file refl h)

module _ {F N : Type 0} (wire : Wire F) where
  check_header-serialize :
      (index : IvfRabitqIndex F N) (payload_bytes : List ℕ)
      → IsStorable wire index payload_bytes
      → check_header (serialize_header (header_of wire index payload_bytes))
        ≡ Io.ok (header_of wire index payload_bytes)
  unfolding check_header str_eq
  check_header-serialize index payload_bytes h =
      let header = header_of wire index payload_bytes in
      rw
        (
          ← append-nil (serialize_header header),
          deserialize_header-serialize header [] (header_of-IsHeader wire index payload_bytes h),
        )
        refl

  -- The first bytes of the file, the bytes that the checksum covers, and the manifest.
  take-image :
      (index : IvfRabitqIndex F N) (payload_bytes : List ℕ)
      → take header_size (image wire index payload_bytes)
        ≡ serialize_header (header_of wire index payload_bytes)
  unfolding image
  take-image index payload_bytes =
      let header = header_of wire index payload_bytes in
      take-append header_size (serialize_header header) _ (length-serialize_header header refl)

  body_checksum-image :
      (index : IvfRabitqIndex F N) (payload_bytes : List ℕ)
      → IsStorable wire index payload_bytes
      → body_checksum
          (start wire index payload_bytes 6)
          (drop header_size (image wire index payload_bytes))
        ≡ Io.ok (crc32 (covered wire index payload_bytes))
  unfolding image body_checksum
  body_checksum-image index payload_bytes h =
      let header = header_of wire index payload_bytes in
      let body = join (sections wire index payload_bytes) in
      let checksum = crc32 (covered wire index payload_bytes) in
      let tail = manifest_of wire index checksum in
      let size = length-image wire index payload_bytes in
      let fits = h.size_fits in
      let n = length body in
      let rel : (start wire index payload_bytes 6 + (2 ^ 64 - header_size)) % 2 ^ 64 ≡ n =
        omega arith in
      let s : (n + 8) % 2 ^ 64 ≡ n + 8 = omega arith in
      let e : (n + 12) % 2 ^ 64 ≡ n + 12 = omega arith in
      let inside : (leb (n + 8) (n + 12) && leb (n + 12) (length (body ++ tail))) ≡ true = ground (
        arith,
        length-append body tail,
        length-manifest (record { version = index.next_id; checksum = checksum }),
      ) in
      rw
        (
          drop-append header_size (serialize_header header) (body ++ tail)
              (length-serialize_header header refl),
          rel,
          s,
          e,
          inside,
          fill_zero-manifest body index.next_id checksum (n + 8) (n + 12) refl refl,
        )
        refl

  drop-image :
      (index : IvfRabitqIndex F N) (payload_bytes : List ℕ)
      → drop (start wire index payload_bytes 6) (image wire index payload_bytes)
        ≡ manifest_of wire index (crc32 (covered wire index payload_bytes))
  unfolding image
  drop-image index payload_bytes =
      let header = header_of wire index payload_bytes in
      let head = serialize_header header in
      let body = join (sections wire index payload_bytes) in
      let tail = manifest_of wire index (crc32 (covered wire index payload_bytes)) in
      ap (drop (start wire index payload_bytes 6)) (sym (append_assoc head body tail))
      ∙ drop-append (start wire index payload_bytes 6) (head ++ body) tail
          (omega (arith, length-append head body, length-serialize_header header refl))

module _ {F N : Type 0} ⦃fl : Float F⦄ ⦃fn : Float N⦄ (wire : Wire F) (json : PayloadJson N) where
  load_index-image :
      (index : IvfRabitqIndex F N) (payload_bytes : List ℕ)
      → IsStorable wire index payload_bytes
      → json.from_slice payload_bytes ≡ some index.payloads
      → load_index wire json (image wire index payload_bytes)
        ≡ build_index (header_of wire index payload_bytes) (parts_of index)
  unfolding load_index
  load_index-image index payload_bytes h j =
      let file = image wire index payload_bytes in
      let size = length-image wire index payload_bytes in
      let checksum = crc32 (covered wire index payload_bytes) in
      let manifest : Manifest = record { version = index.next_id; checksum = checksum } in
      let read = read_at-IsReader file in
      let tail : read_at (start wire index payload_bytes 6) 16 file
          ≡ Io.ok (serialize_manifest manifest) =
        read (start wire index payload_bytes 6) 16 (omega (arith, size))
        ∙ ap (λ t. Io.ok (take 16 t)) (drop-image wire index payload_bytes)
        ∙ ap (λ t. Io.ok (take 16 t)) (sym (append-nil (serialize_manifest manifest)))
        ∙ ap Io.ok (take-append 16 (serialize_manifest manifest) [] (length-manifest manifest)) in
      let crc_fits =
        crc32-lt (covered wire index payload_bytes) (covered-IsBytes wire index payload_bytes h) in
      let same : (checksum == checksum) ≡ true = ground arith in
      rw
        (
          read 0 header_size (omega (arith, size)),
          take-image wire index payload_bytes,
          check_header-serialize wire index payload_bytes h,
          read_parts-image wire json index payload_bytes (λ offset len. read_at offset len file) h j
              read,
          body_checksum-image wire index payload_bytes h,
          tail,
          ← append-nil (serialize_manifest manifest),
          deserialize_manifest-serialize manifest [] (h.next_fits, (omega arith, tt)),
          same,
        )
        refl

  load_index_mmap-image :
      (index : IvfRabitqIndex F N) (payload_bytes : List ℕ) (budget : ℕ)
      → IsStorable wire index payload_bytes
      → json.from_slice payload_bytes ≡ some index.payloads
      → length (image wire index payload_bytes) ≤ budget
      → load_index_mmap wire json budget (image wire index payload_bytes)
        ≡ build_index (header_of wire index payload_bytes) (parts_of index)
  unfolding load_index_mmap
  load_index_mmap-image index payload_bytes budget h j room =
      let file = image wire index payload_bytes in
      let size = length-image wire index payload_bytes in
      let at = start wire index payload_bytes 6 in
      let checksum = crc32 (covered wire index payload_bytes) in
      let some_bytes : not (length file == 0) ≡ true = ground (arith, size) in
      let allowed : leb (length file) budget ≡ true = ground (arith, room) in
      let long : leb header_size (length file) ≡ true = ground (arith, size) in
      let same : (checksum == checksum) ≡ true = ground arith in
      let manifest : Manifest = record { version = index.next_id; checksum = checksum } in
      let fits = h.size_fits in
      let s : (at + 8) % 2 ^ 64 ≡ at + 8 = omega (arith, size, fits) in
      let e : (at + 12) % 2 ^ 64 ≡ at + 12 = omega (arith, size, fits) in
      let stored : slice (at + 8) (at + 12) file ≡ Io.ok (to_le_bytes 4 checksum) =
        slice_bounds (at + 8) (at + 12) 4 file (omega arith) (omega (arith, size))
        ∙ ap (λ l. Io.ok (take 4 l)) (drop-add at 8 (at + 8) file refl)
        ∙ ap (λ l. Io.ok (take 4 (drop 8 l))) (drop-image wire index payload_bytes)
        ∙ ap Io.ok (take-drop-manifest manifest) in
      rw
        (
          some_bytes,
          allowed,
          long,
          take-image wire index payload_bytes,
          check_header-serialize wire index payload_bytes h,
          body_checksum-image wire index payload_bytes h,
          s,
          e,
          stored,
          from_le_bytes-to_le_bytes 4 checksum (
              crc32-lt (covered wire index payload_bytes)
                (covered-IsBytes wire index payload_bytes h)),
          same,
          read_parts-image wire json index payload_bytes (mmap_slice file) h j
              (mmap_slice-IsReader file fits),
        )
        refl

  -- A well-formed index whose numbers fit the fields of a file, whose configuration is that of its
  -- dimension, and whose identifiers are below the number of its vectors is saved, if its payloads
  -- have a JSON text that is read back. Loading the file returns a well-formed index with the
  -- configuration, rotation, centroids, partitions, vectors, payloads and next identifier saved.
  pub load_index-save_index :
      (index : IvfRabitqIndex F N) (payload_bytes : List ℕ)
      → IsValid index
      → IsStorable wire index payload_bytes
      → RabitqConfig_new index.config.dim ≡ some index.config
      → All (All (λ e. e.0 < length index.raw)) index.partitions
      → json.to_vec index.payloads ≡ some payload_bytes
      → json.from_slice payload_bytes ≡ some index.payloads
      → (file : List ℕ) × (loaded : IvfRabitqIndex F N) × (save_index wire json index ≡ Io.ok file)
        × (load_index wire json file ≡ Io.ok loaded)
        × IsValid loaded
        × Holds loaded index.config
            (record { config = index.config; rotation = index.quantizer.rotation })
            index.centroids
            index.partitions
            index.raw
            index.payloads
            index.next_id
  unfolding build_index
  load_index-save_index index payload_bytes v h c ids t j =
      let dim : index.config.dim % 2 ^ 32 ≡ index.config.dim = omega (arith, h.dim_fits) in
      let square : (length index.quantizer.rotation == index.config.dim * index.config.dim) ≡ true =
        ground (arith, h.rotation_size) in
      let (loaded, built, valid, (a, b, c1, d, e, f, g), assigned, turned, coded, stats) =
        from_parts_total index.config index.quantizer.rotation index.centroids index.partitions
          index.raw index.payloads v.some_partition h.centroid_count h.centroid_dims h.vector_dims
          v.payload_count ids in
      (
        image wire index payload_bytes,
        loaded,
        save_index-image wire json index payload_bytes t,
        load_index-image index payload_bytes h j ∙ rw (dim, c, square, v.next_count, built) refl,
        valid,
        (a, b, c1, d, e, f, g ∙ sym v.next_count),
      )

  -- A saved index, whose numbers fit the fields of a file and whose payloads' JSON text is read
  -- back, is loaded through the mapping, where the budget allows the file, with the same result as
  -- by reads, whether that is an index, an error or a panic.
  pub load_index_mmap-load_index :
      (index : IvfRabitqIndex F N) (payload_bytes file : List ℕ) (budget : ℕ)
      → IsStorable wire index payload_bytes
      → json.to_vec index.payloads ≡ some payload_bytes
      → json.from_slice payload_bytes ≡ some index.payloads
      → save_index wire json index ≡ Io.ok file
      → length file ≤ budget
      → load_index_mmap wire json budget file ≡ load_index wire json file
  load_index_mmap-load_index index payload_bytes file budget h t j saved room =
      let same : Io.ok (image wire index payload_bytes) ≡ Io.ok file =
        sym (save_index-image wire json index payload_bytes t) ∙ saved in
      let equal : image wire index payload_bytes ≡ file = cc in
      subst (λ f. load_index_mmap wire json budget f ≡ load_index wire json f) equal
        (load_index_mmap-image index payload_bytes budget h j
            (subst (λ f. length f ≤ budget) (sym equal) room)
          ∙ sym (load_index-image index payload_bytes h j))
