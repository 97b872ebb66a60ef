-- ===== src/Storage/Storable.antt =====
-- The indexes that a file can hold: every number fits in its field.
use vdb_rs.Prelude.{
  ℕ, ◌+◌, ◌*◌, ◌/◌, ◌%◌, ◌^◌, ◌≤◌, ◌<◌, ◌≡◌, refl, List, [], ◌∷◌, ◌++◌, some, length, map,
  get_elem?, All, All-append, All-map_pred, arith, length-append, replicate,
}
use vdb_rs.Prelude.Bytes.{IsBytes, to_le_bytes, to_le_bytes-IsBytes}
use vdb_rs.Prelude.Pieces.{join, All-join, All-all, take-drop-join}
use vdb_rs.Prelude.Wire.{Wire, f32_bytes}
use vdb_rs.Quantizer.{RabitqCode}
use vdb_rs.Index.Defs.{IvfRabitqIndex}
use vdb_rs.Storage.Fields.{le_fields, length-le_fields}
use vdb_rs.Storage.Header.{
  PartitionMeta, Manifest, header_size, meta_fields, serialize_header, serialize_meta,
  serialize_manifest, manifest_fields,
}
use vdb_rs.Storage.RoundTrip.{IsHeader, length-serialize_header}
use vdb_rs.Storage.Checksum.{crc32}
use vdb_rs.Storage.Save.{entry_pieces, entry_bytes}
use vdb_rs.Storage.Layout.{
  partition_bytes, metas_from, sections, start, header_of, manifest_of, covered, image,
}
use vdb_rs.Storage.Reading.{IsEntry}

le_fields-IsBytes : (fields : List (ℕ × ℕ)) → IsBytes (le_fields fields)
unfolding le_fields
le_fields-IsBytes [] = tt
le_fields-IsBytes ((width, value) ∷ fields) =
    All-append _ (to_le_bytes width value) (le_fields fields) (to_le_bytes-IsBytes width value)
      (le_fields-IsBytes fields)

serialize_meta-IsBytes : (m : PartitionMeta) → IsBytes (serialize_meta m)
unfolding serialize_meta
serialize_meta-IsBytes m = le_fields-IsBytes (meta_fields m)

join-map-IsBytes :
    {A : Type 0} (f : A → List ℕ) (xs : List A)
    → All (λ x. IsBytes (f x)) xs
    → IsBytes (join (map f xs))
join-map-IsBytes f [] h = tt
join-map-IsBytes f (x ∷ xs) h = All-append _ (f x) (join (map f xs)) h.0 (join-map-IsBytes f xs h.1)

pub length-manifest : (m : Manifest) → length (serialize_manifest m) ≡ 16
unfolding serialize_manifest
length-manifest m = omega (
  arith,
  length-append (le_fields (manifest_fields m)) (replicate 4 0),
  length-le_fields (manifest_fields m),
)

serialize_manifest-IsBytes : (m : Manifest) → IsBytes (serialize_manifest m)
unfolding serialize_manifest
serialize_manifest-IsBytes m =
    All-append _ (le_fields (manifest_fields m)) (replicate 4 0)
      (le_fields-IsBytes (manifest_fields m))
      (omega arith, (omega arith, (omega arith, (omega arith, tt))))

module _ {F : Type 0} (wire : Wire F) where
  f32_bytes-IsBytes : (xs : List F) → IsBytes (f32_bytes wire xs)
  unfolding f32_bytes
  f32_bytes-IsBytes [] = tt
  f32_bytes-IsBytes (x ∷ xs) =
      All-append _ (to_le_bytes 4 (wire.to_bits x)) (f32_bytes wire xs)
        (to_le_bytes-IsBytes 4 (wire.to_bits x)) (f32_bytes-IsBytes xs)

  vectors-IsBytes : (vs : List (List F)) → IsBytes (join (map (f32_bytes wire) vs))
  vectors-IsBytes vs = join-map-IsBytes (f32_bytes wire) vs (All-all _ vs f32_bytes-IsBytes)

  entry_bytes-IsBytes : (e : ℕ × RabitqCode F) → IsBytes e.1.bits → IsBytes (entry_bytes wire e)
  unfolding entry_bytes
  entry_bytes-IsBytes (id, code) h =
      All-join (λ b. b < 256) (entry_pieces wire (id, code))
        (
          to_le_bytes-IsBytes 8 id,
          (
            h,
            (
              to_le_bytes-IsBytes 4 (wire.to_bits code.alpha),
              (to_le_bytes-IsBytes 4 (wire.to_bits code.beta), tt),
            ),
          ),
        )

  partition_bytes-IsBytes :
      (entries : List (ℕ × RabitqCode F))
      → All (λ e. IsBytes e.1.bits) entries
      → IsBytes (partition_bytes wire entries)
  partition_bytes-IsBytes entries h =
      join-map-IsBytes (entry_bytes wire) entries (All-map_pred _ _ entries entry_bytes-IsBytes h)

  metas_from-IsBytes :
      (offset : ℕ) (partitions : List (List (ℕ × RabitqCode F)))
      → IsBytes (join (map serialize_meta (metas_from wire offset partitions)))
  metas_from-IsBytes offset partitions =
      let metas = metas_from wire offset partitions in
      join-map-IsBytes serialize_meta metas (All-all _ metas serialize_meta-IsBytes)

module _ {F N : Type 0} (wire : Wire F) where
  -- The index's dimension is a multiple of 64 that fits in 32 bits, and so does the number of
  -- partitions; its parts have the sizes that the dimension says; and the file is below 2 ^ 64 bytes.
  pub record IsStorable (index : IvfRabitqIndex F N) (payload_bytes : List ℕ) : Type 0 where
    pub multiple : index.config.dim % 64 ≡ 0
    pub dim_fits : index.config.dim < 2 ^ 32
    pub partitions_fit : length index.partitions < 2 ^ 32
    pub count_fits : length index.raw < 2 ^ 64
    pub next_fits : index.next_id < 2 ^ 64
    pub rotation_size : length index.quantizer.rotation ≡ index.config.dim * index.config.dim
    pub centroid_count : length index.centroids ≡ length index.partitions
    pub centroid_dims : All (λ c. length c ≡ index.config.dim) index.centroids
    pub vector_dims : All (λ v. length v ≡ index.config.dim) index.raw
    pub entries : All (All (IsEntry wire (index.config.dim / 8))) index.partitions
    pub code_bytes : All (All (λ e. IsBytes e.1.bits)) index.partitions
    pub payload_some : 1 ≤ length payload_bytes
    pub payload_IsBytes : IsBytes payload_bytes
    pub size_fits : length (image wire index payload_bytes) < 2 ^ 64

  pub covered-IsBytes :
      (index : IvfRabitqIndex F N) (payload_bytes : List ℕ)
      → IsStorable index payload_bytes
      → IsBytes (covered wire index payload_bytes)
  covered-IsBytes index payload_bytes h =
      let pieces = sections wire index payload_bytes in
      let all_bytes : All IsBytes pieces = (
        f32_bytes-IsBytes wire index.quantizer.rotation,
        (
          vectors-IsBytes wire index.centroids,
          (
            join-map-IsBytes (partition_bytes wire) index.partitions
                (All-map_pred _ _ index.partitions (partition_bytes-IsBytes wire) h.code_bytes),
            (
              metas_from-IsBytes wire (start wire index payload_bytes 2) index.partitions,
              (vectors-IsBytes wire index.raw, (h.payload_IsBytes, tt)),
            ),
          ),
        ),
      ) in
      All-append _ (join pieces) (manifest_of wire index 0)
        (All-join (λ b. b < 256) pieces all_bytes)
        (serialize_manifest-IsBytes (record { version = index.next_id; checksum = 0 }))

  pub length-image :
      (index : IvfRabitqIndex F N) (payload_bytes : List ℕ)
      → length (image wire index payload_bytes)
        ≡ header_size + length (join (sections wire index payload_bytes)) + 16
  unfolding image
  length-image index payload_bytes =
      let head = serialize_header (header_of wire index payload_bytes) in
      let pieces = join (sections wire index payload_bytes) in
      let tail = manifest_of wire index (crc32 (covered wire index payload_bytes)) in
      omega (
        arith,
        length-append head (pieces ++ tail),
        length-append pieces tail,
        length-serialize_header (header_of wire index payload_bytes) refl,
        length-manifest (record {
          version = index.next_id;
          checksum = crc32 (covered wire index payload_bytes);
        }),
      )

  -- Every section lies in the file before its last sixteen bytes.
  pub section_within :
      (index : IvfRabitqIndex F N) (payload_bytes : List ℕ) (i : ℕ) (section : List ℕ)
      → get_elem? (sections wire index payload_bytes) i ≡ some section
      → start wire index payload_bytes i + length section + 16
        ≤ length (image wire index payload_bytes)
  section_within index payload_bytes i section e =
      let within = take-drop-join (sections wire index payload_bytes) i _ section e refl in
      omega (arith, within.1, length-image index payload_bytes)

  pub header_of-IsHeader :
      (index : IvfRabitqIndex F N) (payload_bytes : List ℕ)
      → IsStorable index payload_bytes
      → IsHeader (header_of wire index payload_bytes)
  header_of-IsHeader index payload_bytes h =
      let fits = h.size_fits in
      let w0 = section_within index payload_bytes 0 _ refl in
      let w1 = section_within index payload_bytes 1 _ refl in
      let w2 = section_within index payload_bytes 2 _ refl in
      let w3 = section_within index payload_bytes 3 _ refl in
      let w4 = section_within index payload_bytes 4 _ refl in
      let w5 = section_within index payload_bytes 5 _ refl in
      let w6 = length-image index payload_bytes in
      let table = h.partitions_fit in
      let count = h.count_fits in
      let next = h.next_fits in
      (
        refl,
        (
          omega arith,
          (
            omega arith,
            (
              omega arith,
              (
                omega arith,
                (
                  omega arith,
                  (
                    omega arith,
                    (
                      omega arith,
                      (
                        omega arith,
                        (
                          omega arith,
                          (
                            omega arith,
                            (
                              omega arith,
                              (
                                omega arith,
                                (
                                  omega arith,
                                  (
                                    omega arith,
                                    (
                                      omega arith,
                                      (
                                        omega arith,
                                        (omega arith, (omega arith, (omega arith, tt))),
                                      ),
                                    ),
                                  ),
                                ),
                              ),
                            ),
                          ),
                        ),
                      ),
                    ),
                  ),
                ),
              ),
            ),
          ),
        ),
      )
