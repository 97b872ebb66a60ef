-- ===== src/Storage/Header.antt =====
-- `Header`, `PartitionMeta` and `Manifest` of src/storage.rs, and their bytes.
use vdb_rs.Prelude.{
  ℕ, List, [], ◌∷◌, ◌++◌, Option, none, some, length, take, replicate, ltb, if◌then◌else◌,
}
use vdb_rs.Storage.Fields.{read_le, le_fields}

pub record Header : Type 0 where
  pub magic : List ℕ
  pub version : ℕ
  pub dim : ℕ
  pub num_partitions : ℕ
  pub num_vectors : ℕ
  pub next_id : ℕ
  pub rotation_offset : ℕ
  pub rotation_len : ℕ
  pub centroids_offset : ℕ
  pub centroids_len : ℕ
  pub partition_meta_offset : ℕ
  pub partition_meta_len : ℕ
  pub partition_data_offset : ℕ
  pub partition_data_len : ℕ
  pub raw_offset : ℕ
  pub raw_len : ℕ
  pub payload_offset : ℕ
  pub payload_len : ℕ
  pub manifest_offset : ℕ
  pub manifest_len : ℕ

pub record PartitionMeta : Type 0 where
  pub offset : ℕ
  pub len : ℕ
  pub count : ℕ

pub record Manifest : Type 0 where
  pub version : ℕ
  pub checksum : ℕ

-- `Header::SIZE`, `PartitionMeta::SIZE` and `Manifest::SIZE`.
abbrev pub header_size : ℕ
header_size = 148

abbrev pub meta_size : ℕ
meta_size = 24

abbrev pub manifest_size : ℕ
manifest_size = 16

-- The integers after the magic, in order: the width in bytes and the value.
abbrev pub header_fields : Header → List (ℕ × ℕ)
header_fields h =
    (4, h.version)
    ∷ (4, h.dim)
    ∷ (4, h.num_partitions)
    ∷ (8, h.num_vectors)
    ∷ (8, h.next_id)
    ∷ (8, h.rotation_offset)
    ∷ (8, h.rotation_len)
    ∷ (8, h.centroids_offset)
    ∷ (8, h.centroids_len)
    ∷ (8, h.partition_meta_offset)
    ∷ (8, h.partition_meta_len)
    ∷ (8, h.partition_data_offset)
    ∷ (8, h.partition_data_len)
    ∷ (8, h.raw_offset)
    ∷ (8, h.raw_len)
    ∷ (8, h.payload_offset)
    ∷ (8, h.payload_len)
    ∷ (8, h.manifest_offset)
    ∷ (8, h.manifest_len)
    ∷ []

abbrev pub meta_fields : PartitionMeta → List (ℕ × ℕ)
meta_fields m = (8, m.offset) ∷ (8, m.len) ∷ (8, m.count) ∷ []

abbrev pub manifest_fields : Manifest → List (ℕ × ℕ)
manifest_fields m = (8, m.version) ∷ (4, m.checksum) ∷ []

unfoldable pub serialize_header : Header → List ℕ
serialize_header h = h.magic ++ le_fields (header_fields h)

unfoldable pub deserialize_header : List ℕ → Option Header
deserialize_header buf =
    if ltb (length buf) header_size
    then none
    else some (record {
      magic = take 8 buf;
      version = read_le 8 4 buf;
      dim = read_le 12 4 buf;
      num_partitions = read_le 16 4 buf;
      num_vectors = read_le 20 8 buf;
      next_id = read_le 28 8 buf;
      rotation_offset = read_le 36 8 buf;
      rotation_len = read_le 44 8 buf;
      centroids_offset = read_le 52 8 buf;
      centroids_len = read_le 60 8 buf;
      partition_meta_offset = read_le 68 8 buf;
      partition_meta_len = read_le 76 8 buf;
      partition_data_offset = read_le 84 8 buf;
      partition_data_len = read_le 92 8 buf;
      raw_offset = read_le 100 8 buf;
      raw_len = read_le 108 8 buf;
      payload_offset = read_le 116 8 buf;
      payload_len = read_le 124 8 buf;
      manifest_offset = read_le 132 8 buf;
      manifest_len = read_le 140 8 buf;
    })

unfoldable pub serialize_meta : PartitionMeta → List ℕ
serialize_meta m = le_fields (meta_fields m)

unfoldable pub deserialize_meta : List ℕ → Option PartitionMeta
deserialize_meta buf =
    if ltb (length buf) meta_size
    then none
    else some (record { offset = read_le 0 8 buf; len = read_le 8 8 buf; count = read_le 16 8 buf })

-- The last four bytes of the buffer keep their zeros.
unfoldable pub serialize_manifest : Manifest → List ℕ
serialize_manifest m = le_fields (manifest_fields m) ++ replicate 4 0

unfoldable pub deserialize_manifest : List ℕ → Option Manifest
deserialize_manifest buf =
    if ltb (length buf) manifest_size
    then none
    else some (record { version = read_le 0 8 buf; checksum = read_le 8 4 buf })
