-- ===== src/Storage/Save.antt =====
-- `save_index` of src/storage.rs. Writes succeed, so the file is the list of the bytes written.
use vdb_rs.Prelude.{
  ℕ, ◌+◌, ◌-◌, ◌*◌, ◌%◌, ◌^◌, List, [], ◌∷◌, ◌++◌, Option, length, take, drop, replicate, map,
}
use vdb_rs.Prelude.Bytes.{to_le_bytes}
use vdb_rs.Prelude.Pieces.{join}
use vdb_rs.Prelude.Wire.{Wire, f32_bytes}
use vdb_rs.Payload.{Payload}
use vdb_rs.Quantizer.{RabitqCode}
use vdb_rs.Index.Defs.{IvfRabitqIndex}
use vdb_rs.Storage.Header.{
  Header, PartitionMeta, header_size, meta_size, manifest_size, serialize_header, serialize_meta,
  serialize_manifest,
}
use vdb_rs.Storage.Checksum.{crc32}
use vdb_rs.Storage.Io.{Io, IoError, ◌>>=◌, or_err}

-- `b"VDBRQIDX"`
abbrev pub magic : List ℕ
magic = b'V' ∷ b'D' ∷ b'B' ∷ b'R' ∷ b'Q' ∷ b'I' ∷ b'D' ∷ b'X' ∷ []

abbrev pub format_version : ℕ
format_version = 1

-- `serde_json::to_vec` and `serde_json::from_slice` at the payloads; `none` is an error.
pub record PayloadJson (N : Type 0) : Type 0 where
  pub to_vec : List (Payload N) → Option (List ℕ)
  pub from_slice : List ℕ → Option (List (Payload N))

-- `seek` and `write_all` over bytes that are there already.
unfoldable pub overwrite : ℕ → List ℕ → List ℕ → List ℕ
overwrite offset bytes file = take offset file ++ (bytes ++ drop (offset + length bytes) file)

-- The header goes to the start, then the checksum of all that follows it goes into the manifest.
unfoldable pub back_fill : Header → ℕ → List ℕ → List ℕ
unfolding overwrite
back_fill header manifest_offset file =
    let headed = overwrite 0 (serialize_header header) file in
    overwrite (manifest_offset + 8) (to_le_bytes 4 (crc32 (drop header_size headed))) headed

-- The header with the offsets and the lengths found while writing.
abbrev pub header_at :
    {F N : Type 0}
    → IvfRabitqIndex F N
    → (ℕ × ℕ)
    → (ℕ × ℕ)
    → (ℕ × ℕ)
    → (ℕ × ℕ)
    → (ℕ × ℕ)
    → (ℕ × ℕ)
    → ℕ
    → Header
header_at index rotation centroids metas parts raw payload manifest_offset = record {
  magic = magic;
  version = format_version;
  dim = index.config.dim % 2 ^ 32;
  num_partitions = length index.partitions % 2 ^ 32;
  num_vectors = length index.raw;
  next_id = index.next_id;
  rotation_offset = rotation.0;
  rotation_len = rotation.1;
  centroids_offset = centroids.0;
  centroids_len = centroids.1;
  partition_meta_offset = metas.0;
  partition_meta_len = metas.1;
  partition_data_offset = parts.0;
  partition_data_len = parts.1;
  raw_offset = raw.0;
  raw_len = raw.1;
  payload_offset = payload.0;
  payload_len = payload.1;
  manifest_offset = manifest_offset;
  manifest_len = manifest_size;
}

module _ {F : Type 0} (wire : Wire F) where
  -- The four writes of an entry.
  abbrev pub entry_pieces : ℕ × RabitqCode F → List (List ℕ)
  entry_pieces (id, code) =
      to_le_bytes 8 id
      ∷ code.bits
      ∷ to_le_bytes 4 (wire.to_bits code.alpha)
      ∷ to_le_bytes 4 (wire.to_bits code.beta)
      ∷ []

  unfoldable pub entry_bytes : ℕ × RabitqCode F → List ℕ
  entry_bytes entry = join (entry_pieces entry)

  -- The loop over the partitions: what it appends to the file, and where it did so.
  unfoldable pub write_partitions :
      List ℕ → List (List (ℕ × RabitqCode F)) → List ℕ × List PartitionMeta
  unfolding entry_bytes
  write_partitions file [] = (file, [])
  write_partitions file (entries ∷ partitions) =
      let offset = length file in
      let longer = file ++ join (map entry_bytes entries) in
      let rest = write_partitions longer partitions in
      (
        rest.0,
        record { offset = offset; len = length longer - offset; count = length entries } ∷ rest.1,
      )

  -- All that is written after the blank header `file0`, and the header in its place.
  unfoldable pub write_sections :
      {N : Type 0} → PayloadJson N → IvfRabitqIndex F N → List ℕ → Io (List ℕ)
  unfolding write_partitions
  write_sections json index file0 = do
    let file1 = file0 ++ f32_bytes wire index.quantizer.rotation
    let file2 = file1 ++ join (map (f32_bytes wire) index.centroids)
    let parts = write_partitions file2 index.partitions
    let file3 = parts.0
    let file4 = file3 ++ join (map serialize_meta parts.1)
    let file5 = file4 ++ join (map (f32_bytes wire) index.raw)
    payload_bytes ← or_err IoError.invalid_data (json.to_vec index.payloads)
    let file6 = file5 ++ payload_bytes
    let manifest_offset = length file6
    let file7 = file6 ++ serialize_manifest (record { version = index.next_id; checksum = 0 })
    let header =
        header_at index (length file0, length (f32_bytes wire index.quantizer.rotation))
          (length file1, length file2 - length file1) (length file3, length parts.1 * meta_size)
          (length file2, length file3 - length file2) (length file4, length file5 - length file4)
          (length file5, length payload_bytes) manifest_offset
    Io.ok (back_fill header manifest_offset file7)

  unfoldable pub save_index : {N : Type 0} → PayloadJson N → IvfRabitqIndex F N → Io (List ℕ)
  unfolding write_sections
  save_index json index = write_sections json index (replicate header_size 0)
