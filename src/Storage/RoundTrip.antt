-- ===== src/Storage/RoundTrip.antt =====
-- The bytes of the header, the partition table's entries and the manifest are read back.
use vdb_rs.Prelude.{
  ℕ, ◌+◌, ◌^◌, ◌<◌, ◌≡◌, false, refl, List, [], ◌∷◌, ◌++◌, some, length, take, get_elem?, ltb,
  arith, length-append, take-append, append_assoc, replicate,
}
use vdb_rs.Storage.Fields.{
  read_le, le_fields, offset_of, length-le_fields, read_le-skip, read_le-le_fields,
}
use vdb_rs.Storage.Header.{
  Header, PartitionMeta, Manifest, header_size, meta_size, manifest_size, header_fields,
  meta_fields, manifest_fields, serialize_header, deserialize_header, serialize_meta,
  deserialize_meta, serialize_manifest, deserialize_manifest,
}

-- Every integer fits in its field, and the magic has eight bytes.
abbrev pub Fit : List (ℕ × ℕ) → Type 0
Fit [] = Unit
Fit ((width, value) ∷ fields) = (value < 256 ^ width) × Fit fields

abbrev pub IsHeader : Header → Type 0
IsHeader h = (length h.magic ≡ 8) × Fit (header_fields h)

-- A header's bytes are as many as `Header::SIZE`.
pub length-serialize_header :
    (h : Header) → length h.magic ≡ 8 → length (serialize_header h) ≡ header_size
unfolding serialize_header
length-serialize_header h m =
    omega (
      arith,
      length-append h.magic (le_fields (header_fields h)),
      length-le_fields (header_fields h),
    )

-- The fields of a header whose values fit are read back from its bytes, whatever follows them.
read_header :
    (h : Header) (i width value n : ℕ) (rest : List ℕ)
    → length h.magic ≡ 8
    → get_elem? (header_fields h) i ≡ some (width, value)
    → value < 256 ^ width
    → 8 + offset_of i (header_fields h) ≡ n
    → read_le n width (serialize_header h ++ rest) ≡ value
unfolding serialize_header
read_header h i width value n rest m e fit o =
    rw
      (
        append_assoc h.magic (le_fields (header_fields h)) rest,
        ← o,
        read_le-skip h.magic 8 (offset_of i (header_fields h)) width
            (le_fields (header_fields h) ++ rest) m,
      )
      (read_le-le_fields (header_fields h) i width value rest e fit)

magic_of :
    (h : Header) (rest : List ℕ)
    → length h.magic ≡ 8
    → take 8 (serialize_header h ++ rest) ≡ h.magic
unfolding serialize_header
magic_of h rest m =
    rw
      (
        append_assoc h.magic (le_fields (header_fields h)) rest,
        take-append 8 h.magic (le_fields (header_fields h) ++ rest) m,
      )
      refl

-- A header with a magic of eight bytes, whose integers fit their fields, is read back from the
-- start of a file that begins with its bytes.
pub deserialize_header-serialize :
    (h : Header) (rest : List ℕ)
    → IsHeader h
    → deserialize_header (serialize_header h ++ rest) ≡ some h
unfolding deserialize_header
deserialize_header-serialize h rest p =
    let long : ltb (length (serialize_header h ++ rest)) header_size ≡ false =
      ground (arith, length-append (serialize_header h) rest, length-serialize_header h p.0) in
    rw
      (
        long,
        magic_of h rest p.0,
        read_header h 0 4 h.version 8 rest p.0 refl p.1.0 refl,
        read_header h 1 4 h.dim 12 rest p.0 refl p.1.1.0 refl,
        read_header h 2 4 h.num_partitions 16 rest p.0 refl p.1.1.1.0 refl,
        read_header h 3 8 h.num_vectors 20 rest p.0 refl p.1.1.1.1.0 refl,
        read_header h 4 8 h.next_id 28 rest p.0 refl p.1.1.1.1.1.0 refl,
        read_header h 5 8 h.rotation_offset 36 rest p.0 refl p.1.1.1.1.1.1.0 refl,
        read_header h 6 8 h.rotation_len 44 rest p.0 refl p.1.1.1.1.1.1.1.0 refl,
        read_header h 7 8 h.centroids_offset 52 rest p.0 refl p.1.1.1.1.1.1.1.1.0 refl,
        read_header h 8 8 h.centroids_len 60 rest p.0 refl p.1.1.1.1.1.1.1.1.1.0 refl,
        read_header h 9 8 h.partition_meta_offset 68 rest p.0 refl p.1.1.1.1.1.1.1.1.1.1.0 refl,
        read_header h 10 8 h.partition_meta_len 76 rest p.0 refl p.1.1.1.1.1.1.1.1.1.1.1.0 refl,
        read_header h 11 8 h.partition_data_offset 84 rest p.0 refl p.1.1.1.1.1.1.1.1.1.1.1.1.0
            refl,
        read_header h 12 8 h.partition_data_len 92 rest p.0 refl p.1.1.1.1.1.1.1.1.1.1.1.1.1.0 refl,
        read_header h 13 8 h.raw_offset 100 rest p.0 refl p.1.1.1.1.1.1.1.1.1.1.1.1.1.1.0 refl,
        read_header h 14 8 h.raw_len 108 rest p.0 refl p.1.1.1.1.1.1.1.1.1.1.1.1.1.1.1.0 refl,
        read_header h 15 8 h.payload_offset 116 rest p.0 refl p.1.1.1.1.1.1.1.1.1.1.1.1.1.1.1.1.0
            refl,
        read_header h 16 8 h.payload_len 124 rest p.0 refl p.1.1.1.1.1.1.1.1.1.1.1.1.1.1.1.1.1.0
            refl,
        read_header h 17 8 h.manifest_offset 132 rest p.0 refl
            p.1.1.1.1.1.1.1.1.1.1.1.1.1.1.1.1.1.1.0 refl,
        read_header h 18 8 h.manifest_len 140 rest p.0 refl
            p.1.1.1.1.1.1.1.1.1.1.1.1.1.1.1.1.1.1.1.0 refl,
      )
      refl

pub deserialize_meta-serialize :
    (m : PartitionMeta) (rest : List ℕ)
    → Fit (meta_fields m)
    → deserialize_meta (serialize_meta m ++ rest) ≡ some m
unfolding deserialize_meta serialize_meta
deserialize_meta-serialize m rest p =
    let long : ltb (length (le_fields (meta_fields m) ++ rest)) meta_size ≡ false =
      ground
        (arith, length-append (le_fields (meta_fields m)) rest, length-le_fields (meta_fields m)) in
    rw
      (
        long,
        read_le-le_fields (meta_fields m) 0 8 m.offset rest refl p.0,
        read_le-le_fields (meta_fields m) 1 8 m.len rest refl p.1.0,
        read_le-le_fields (meta_fields m) 2 8 m.count rest refl p.1.1.0,
      )
      refl

pub deserialize_manifest-serialize :
    (m : Manifest) (rest : List ℕ)
    → Fit (manifest_fields m)
    → deserialize_manifest (serialize_manifest m ++ rest) ≡ some m
unfolding deserialize_manifest serialize_manifest
deserialize_manifest-serialize m rest p =
    let fields = le_fields (manifest_fields m) in
    let long : ltb (length (fields ++ (replicate 4 0 ++ rest))) manifest_size ≡ false =
      ground (
        arith,
        length-append fields (replicate 4 0 ++ rest),
        length-le_fields (manifest_fields m),
      ) in
    rw
      (
        append_assoc fields (replicate 4 0) rest,
        long,
        read_le-le_fields (manifest_fields m) 0 8 m.version (replicate 4 0 ++ rest) refl p.0,
        read_le-le_fields (manifest_fields m) 1 4 m.checksum (replicate 4 0 ++ rest) refl p.1.0,
      )
      refl
