-- ===== src/Storage/Load.antt =====
-- `load_index` and `load_index_mmap` of src/storage.rs. Memory is never short, a seek beyond the end
-- is no error, and the arithmetic of `u64` wraps around, as in a release build.
use vdb_rs.Prelude.{
  ℕ, ◌+◌, ◌-◌, ◌*◌, ◌/◌, ◌%◌, ◌^◌, ◌&&◌, List, [], length, take, drop, ltb, leb, not, if◌then◌else◌,
  ◌==◌,
}
use vdb_rs.Prelude.Assoc.{str_eq}
use vdb_rs.Prelude.Bytes.{from_le_bytes}
use vdb_rs.Prelude.Float.{Float}
use vdb_rs.Prelude.Panic.{assert}
use vdb_rs.Prelude.Wire.{Wire, read_words}
use vdb_rs.Payload.{Payload}
use vdb_rs.Quantizer.{RabitqCode, RabitqConfig_new}
use vdb_rs.Index.Defs.{IvfRabitqIndex}
use vdb_rs.Index.Parts.{from_parts}
use vdb_rs.Storage.Header.{
  Header, PartitionMeta, header_size, meta_size, manifest_size, deserialize_header,
  deserialize_meta, deserialize_manifest,
}
use vdb_rs.Storage.Checksum.{crc32, fill_zero}
use vdb_rs.Storage.Io.{
  Io, IoError, ◌>>=◌, ◌>>◌, ensure, or_err, or_panic, slice, read_at, each, for_each,
}
use vdb_rs.Storage.Save.{magic, format_version, PayloadJson}

-- The header, unless the magic or the version is wrong.
unfoldable pub check_header : List ℕ → Io Header
check_header buf = do
  header ← or_err IoError.bad_header (deserialize_header buf)
  ensure (str_eq header.magic magic) IoError.bad_magic
  ensure (header.version == format_version) IoError.unsupported_version
  Io.ok header

-- `fill(0)` of the stored checksum in the bytes after the header, and the checksum of the result;
-- the offset is that of the manifest in the file.
unfoldable pub body_checksum : ℕ → List ℕ → Io ℕ
body_checksum manifest_offset body =
    let manifest_rel_off = (manifest_offset + (2 ^ 64 - header_size)) % 2 ^ 64 in
    let start = (manifest_rel_off + 8) % 2 ^ 64 in
    let end = (manifest_rel_off + 12) % 2 ^ 64 in
    if leb start end && leb end (length body)
    then Io.ok (crc32 (fill_zero start end body))
    else Io.panic

unfoldable pub read_metas : ℕ → List ℕ → Io (List PartitionMeta)
read_metas num_partitions meta_buf =
    each
      (λ pid. do
        buf ← slice (pid * meta_size) (pid * meta_size + meta_size) meta_buf
        or_err IoError.bad_meta (deserialize_meta buf))
      0 num_partitions

module _ {F : Type 0} (wire : Wire F) where
  unfoldable pub cast_u8_slice_to_f32 : List ℕ → Io (List F)
  cast_u8_slice_to_f32 bytes =
      if length bytes % 4 == 0 then Io.ok (read_words wire (length bytes / 4) bytes) else Io.panic

  -- `flat[i * dim..i * dim + dim]` for the first vectors.
  unfoldable pub split_vectors : ℕ → ℕ → List F → Io (List (List F))
  split_vectors dim count flat = each (λ i. slice (i * dim) (i * dim + dim) flat) 0 count

  unfoldable pub read_entry : ℕ → List ℕ → ℕ → Io (ℕ × RabitqCode F)
  read_entry code_bytes part i = do
    let off = i * (8 + code_bytes + 4 + 4)
    id ← slice off (off + 8) part
    bits ← slice (off + 8) (off + 8 + code_bytes) part
    alpha ← slice (off + 8 + code_bytes) (off + 8 + code_bytes + 4) part
    beta ← slice (off + 8 + code_bytes + 4) (off + 8 + code_bytes + 8) part
    Io.ok (
      from_le_bytes id,
      record {
        bits = bits;
        alpha = wire.from_bits (from_le_bytes alpha);
        beta = wire.from_bits (from_le_bytes beta);
      },
    )

-- What both functions read one after the other, with the offset and the length of each part of the
-- file given to `read`.
pub record Parts (F N : Type 0) : Type 0 where
  pub rotation : List F
  pub centroids : List (List F)
  pub partitions : List (List (ℕ × RabitqCode F))
  pub raw : List (List F)
  pub payloads : List (Payload N)

module _ {F N : Type 0} (wire : Wire F) (json : PayloadJson N) (read : ℕ → ℕ → Io (List ℕ)) where
  unfoldable pub read_parts : Header → Io (Parts F N)
  read_parts header = do
    rotation_buf ← read header.rotation_offset header.rotation_len
    rotation ← cast_u8_slice_to_f32 wire rotation_buf
    centroids_buf ← read header.centroids_offset header.centroids_len
    centroids_flat ← cast_u8_slice_to_f32 wire centroids_buf
    centroids ← split_vectors wire header.dim header.num_partitions centroids_flat
    meta_buf ← read header.partition_meta_offset header.partition_meta_len
    metas ← read_metas header.num_partitions meta_buf
    partitions ←
        for_each
          (λ meta. do
            part ← read meta.offset meta.len
            each (read_entry wire (header.dim / 8) part) 0 meta.count)
          metas
    raw_buf ← read header.raw_offset header.raw_len
    raw_flat ← cast_u8_slice_to_f32 wire raw_buf
    raw ← split_vectors wire header.dim header.num_vectors raw_flat
    payloads ←
        if ltb 0 header.payload_len
        then (read header.payload_offset header.payload_len >>= λ buf.
            or_err IoError.invalid_data (json.from_slice buf))
        else Io.ok []
    Io.ok (record {
      rotation = rotation;
      centroids = centroids;
      partitions = partitions;
      raw = raw;
      payloads = payloads;
    })

-- `mmap.slice`
unfoldable pub mmap_slice : List ℕ → ℕ → ℕ → Io (List ℕ)
mmap_slice file offset len = slice offset ((offset + len) % 2 ^ 64) file

module _ {F N : Type 0} ⦃fl : Float F⦄ ⦃fn : Float N⦄ where
  -- `RabitqConfig::new`, `from_rotation` with its assertion, and `from_parts`.
  unfoldable pub build_index : Header → Parts F N → Io (IvfRabitqIndex F N)
  build_index header parts = do
    config ← or_panic (RabitqConfig_new header.dim)
    or_panic (assert (length parts.rotation == config.dim * config.dim))
    or_panic (
        from_parts config (record { config = config; rotation = parts.rotation }) parts.centroids
          parts.partitions parts.raw parts.payloads header.next_id)

module _ {F N : Type 0} ⦃fl : Float F⦄ ⦃fn : Float N⦄ (wire : Wire F) (json : PayloadJson N) where
  unfoldable pub load_index : List ℕ → Io (IvfRabitqIndex F N)
  load_index file = do
    header_buf ← read_at 0 header_size file
    header ← check_header header_buf
    parts ← read_parts wire json (λ offset len. read_at offset len file) header
    computed ← body_checksum header.manifest_offset (drop header_size file)
    manifest_buf ← read_at header.manifest_offset manifest_size file
    manifest ← or_err IoError.bad_manifest (deserialize_manifest manifest_buf)
    ensure (computed == manifest.checksum) IoError.checksum_mismatch
    build_index header parts

  -- `budget` is the number of bytes that `map_file` allows.
  unfoldable pub load_index_mmap : ℕ → List ℕ → Io (IvfRabitqIndex F N)
  load_index_mmap budget file = do
    ensure (not (length file == 0)) IoError.empty_file
    ensure (leb (length file) budget) IoError.over_budget
    ensure (leb header_size (length file)) IoError.file_too_short
    header ← check_header (take header_size file)
    computed ← body_checksum header.manifest_offset (drop header_size file)
    stored ←
        slice ((header.manifest_offset + 8) % 2 ^ 64) ((header.manifest_offset + 12) % 2 ^ 64) file
    ensure (computed == from_le_bytes stored) IoError.checksum_mismatch
    parts ← read_parts wire json (mmap_slice file) header
    build_index header parts
