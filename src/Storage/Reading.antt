-- ===== src/Storage/Reading.antt =====
-- The parts of an index file are read back: vectors, the partition table, and the entries.
use vdb_rs.Prelude.{
  ℕ, ◌+◌, ◌*◌, ◌/◌, ◌%◌, ◌^◌, ◌≤◌, ◌<◌, ◌≡◌, refl, ap, sym, ◌∙◌, true, List, [], ◌∷◌, ◌++◌, some,
  length, take, drop, map, get_elem?, All, All-get, All-map_pred, arith, length-append, append-nil,
  append_assoc, ◌==◌,
}
use vdb_rs.Prelude.Bytes.{to_le_bytes, from_le_bytes, length-to_le_bytes, from_le_bytes-to_le_bytes}
use vdb_rs.Prelude.Pieces.{join, get_elem?-map, All-map, All-all, take-drop-pieces}
use vdb_rs.Prelude.Wire.{Wire, f32_bytes, length-f32_bytes, read_words-f32_bytes}
use vdb_rs.Quantizer.{RabitqCode}
use vdb_rs.Storage.Fields.{length-le_fields}
use vdb_rs.Storage.Header.{PartitionMeta, meta_size, meta_fields, serialize_meta}
use vdb_rs.Storage.RoundTrip.{Fit, deserialize_meta-serialize}
use vdb_rs.Storage.Io.{
  Io, ◌>>=◌, slice, each, for_each, each-get, slice-join, slice-same, slice_within,
}
use vdb_rs.Storage.Save.{entry_pieces, entry_bytes}
use vdb_rs.Storage.Layout.{partition_bytes, metas_from}
use vdb_rs.Storage.Load.{cast_u8_slice_to_f32, split_vectors, read_metas, read_entry}

module _ {F : Type 0} (wire : Wire F) where
  pub cast_u8_slice_to_f32-f32_bytes :
      (xs : List F) → cast_u8_slice_to_f32 wire (f32_bytes wire xs) ≡ Io.ok xs
  unfolding cast_u8_slice_to_f32
  cast_u8_slice_to_f32-f32_bytes xs =
      let whole : (length xs * 4 % 4 == 0) ≡ true = ground arith in
      let count : length xs * 4 / 4 ≡ length xs = omega arith in
      rw (length-f32_bytes wire xs, whole, count, read_words-f32_bytes wire xs) refl

  f32_bytes-append :
      (xs ys : List F) → f32_bytes wire (xs ++ ys) ≡ f32_bytes wire xs ++ f32_bytes wire ys
  unfolding f32_bytes
  f32_bytes-append [] ys = refl
  f32_bytes-append (x ∷ xs) ys =
      let word = to_le_bytes 4 (wire.to_bits x) in
      ap (◌++◌ word) (f32_bytes-append xs ys)
      ∙ sym (append_assoc word (f32_bytes wire xs) (f32_bytes wire ys))

  pub join-map-f32_bytes :
      (vs : List (List F)) → join (map (f32_bytes wire) vs) ≡ f32_bytes wire (join vs)
  unfolding f32_bytes
  join-map-f32_bytes [] = refl
  join-map-f32_bytes (v ∷ vs) =
      ap (◌++◌ (f32_bytes wire v)) (join-map-f32_bytes vs) ∙ sym (f32_bytes-append v (join vs))

  pub cast_u8_slice_to_f32-vectors :
      (vs : List (List F))
      → cast_u8_slice_to_f32 wire (join (map (f32_bytes wire) vs)) ≡ Io.ok (join vs)
  cast_u8_slice_to_f32-vectors vs =
      ap (cast_u8_slice_to_f32 wire) (join-map-f32_bytes vs)
      ∙ cast_u8_slice_to_f32-f32_bytes (join vs)

  pub split_vectors-join :
      (dim count : ℕ) (vs : List (List F))
      → All (λ v. length v ≡ dim) vs
      → length vs ≡ count
      → split_vectors wire dim count (join vs) ≡ Io.ok vs
  unfolding split_vectors
  split_vectors-join dim count vs h n =
      rw (← n) (each-get _ vs (λ i v e. slice-same dim vs i v h e))

  -- An entry whose identifier fits in 64 bits and whose code has the width of the index.
  abbrev pub IsEntry : ℕ → ℕ × RabitqCode F → Type 0
  IsEntry code_bytes entry = (entry.0 < 256 ^ 8) × (length entry.1.bits ≡ code_bytes)

  pub length-entry_bytes :
      (code_bytes : ℕ) (entry : ℕ × RabitqCode F)
      → IsEntry code_bytes entry
      → length (entry_bytes wire entry) ≡ 8 + code_bytes + 4 + 4
  unfolding entry_bytes
  length-entry_bytes code_bytes (id, code) h =
      let a = to_le_bytes 4 (wire.to_bits code.alpha) in
      let b = to_le_bytes 4 (wire.to_bits code.beta) in
      omega (
        arith,
        length-append (to_le_bytes 8 id) (code.bits ++ (a ++ (b ++ []))),
        length-append code.bits (a ++ (b ++ [])),
        length-append a (b ++ []),
        length-append b [],
        length-to_le_bytes 8 id,
        length-to_le_bytes 4 (wire.to_bits code.alpha),
        length-to_le_bytes 4 (wire.to_bits code.beta),
        h.1,
      )

  -- A float's four bytes are read back.
  from_bits-to_le_bytes :
      (x : F) → wire.from_bits (from_le_bytes (to_le_bytes 4 (wire.to_bits x))) ≡ x
  from_bits-to_le_bytes x =
      ap wire.from_bits (from_le_bytes-to_le_bytes 4 (wire.to_bits x) (wire.to_bits-lt x))
      ∙ wire.from_bits-to_bits x

  read_entry-entry_bytes :
      (code_bytes : ℕ) (entries : List (ℕ × RabitqCode F)) (i : ℕ) (entry : ℕ × RabitqCode F)
      → All (IsEntry code_bytes) entries
      → get_elem? entries i ≡ some entry
      → read_entry wire code_bytes (partition_bytes wire entries) i ≡ Io.ok entry
  unfolding read_entry entry_bytes
  read_entry-entry_bytes code_bytes entries i (id, code) h e =
      let here = All-get (IsEntry code_bytes) entries i (id, code) h e in
      let size = 8 + code_bytes + 4 + 4 in
      let off = i * size in
      let alpha = wire.to_bits code.alpha in
      let beta = wire.to_bits code.beta in
      let pieces = entry_pieces wire (id, code) in
      let part = entry_bytes wire (id, code) in
      let outer : slice off (off + size) (partition_bytes wire entries) ≡ Io.ok part =
        slice-same size (map (entry_bytes wire) entries) i part
          (All-map _ _ entries (All-map_pred _ _ entries (length-entry_bytes code_bytes) h))
          (get_elem?-map (entry_bytes wire) entries i (id, code) e) in
      let wide : length code.bits ≡ code_bytes = here.1 in
      let cut : (s e a b : ℕ) (piece : List ℕ)
          → slice a b part ≡ Io.ok piece
          → off + a ≡ s
          → off + b ≡ e
          → slice s e (partition_bytes wire entries) ≡ Io.ok piece =
        λ s e a b piece inner hs he.
          slice_within off (off + size) a b s e (partition_bytes wire entries) part piece outer
            inner hs he in
      let eight = length-to_le_bytes 8 id in
      let four = length-to_le_bytes 4 in
      let start1 : length (join (take 1 pieces)) ≡ 8 =
        omega (arith, length-append (to_le_bytes 8 id) [], eight) in
      let start2 : length (join (take 2 pieces)) ≡ 8 + code_bytes = omega (
        arith,
        length-append (to_le_bytes 8 id) (code.bits ++ []),
        length-append code.bits [],
        eight,
        wide,
      ) in
      let start3 : length (join (take 3 pieces)) ≡ 8 + code_bytes + 4 = omega (
        arith,
        length-append (to_le_bytes 8 id) (code.bits ++ (to_le_bytes 4 alpha ++ [])),
        length-append code.bits (to_le_bytes 4 alpha ++ []),
        length-append (to_le_bytes 4 alpha) [],
        eight,
        four alpha,
        wide,
      ) in
      rw
        (
          cut off (off + 8) 0 8 (to_le_bytes 8 id)
              (slice-join pieces 0 0 8 (to_le_bytes 8 id) refl refl (omega (arith, eight)))
              (omega arith) refl,
          cut (off + 8) (off + 8 + code_bytes) 8 (8 + code_bytes) code.bits
              (slice-join pieces 1 8 (8 + code_bytes) code.bits refl start1 (omega (arith, wide)))
              refl (omega arith),
          cut (off + 8 + code_bytes) (off + 8 + code_bytes + 4) (8 + code_bytes)
              (8 + code_bytes + 4) (to_le_bytes 4 alpha)
              (slice-join pieces 2 (8 + code_bytes) (8 + code_bytes + 4) (to_le_bytes 4 alpha) refl
                start2 (omega (arith, four alpha)))
              (omega arith) (omega arith),
          cut (off + 8 + code_bytes + 4) (off + 8 + code_bytes + 8) (8 + code_bytes + 4)
              (8 + code_bytes + 8) (to_le_bytes 4 beta)
              (slice-join pieces 3 (8 + code_bytes + 4) (8 + code_bytes + 8) (to_le_bytes 4 beta)
                refl start3 (omega (arith, four beta)))
              (omega arith) (omega arith),
          from_le_bytes-to_le_bytes 8 id here.0,
          from_bits-to_le_bytes code.alpha,
          from_bits-to_le_bytes code.beta,
        )
        refl

  read_entries :
      (code_bytes : ℕ) (entries : List (ℕ × RabitqCode F))
      → All (IsEntry code_bytes) entries
      → each (read_entry wire code_bytes (partition_bytes wire entries)) 0 (length entries)
        ≡ Io.ok entries
  read_entries code_bytes entries h =
      each-get _ entries (λ i entry e. read_entry-entry_bytes code_bytes entries i entry h e)

pub length-serialize_meta : (m : PartitionMeta) → length (serialize_meta m) ≡ meta_size
unfolding serialize_meta
length-serialize_meta m = length-le_fields (meta_fields m)

-- A table of numbers that fit in 64 bits is read back.
pub read_metas-serialize_meta :
    (metas : List PartitionMeta) (count : ℕ)
    → All (λ m. Fit (meta_fields m)) metas
    → length metas ≡ count
    → read_metas count (join (map serialize_meta metas)) ≡ Io.ok metas
unfolding read_metas
read_metas-serialize_meta metas count h n = rw (← n) (
    each-get _ metas (λ i m e.
      rw
        (
          slice-same meta_size (map serialize_meta metas) i (serialize_meta m)
              (All-map _ _ metas (All-all _ metas length-serialize_meta))
              (get_elem?-map serialize_meta metas i m e),
          ← append-nil (serialize_meta m),
          deserialize_meta-serialize m [] (All-get _ metas i m h e),
        )
        refl))

-- A reader of a file: a part that lies within the file is given.
abbrev pub IsReader : List ℕ → (ℕ → ℕ → Io (List ℕ)) → Type 0
IsReader file read =
    (offset len : ℕ)
    → offset + len ≤ length file
    → read offset len ≡ Io.ok (take len (drop offset file))

module _ {F : Type 0} (wire : Wire F) (read : ℕ → ℕ → Io (List ℕ)) where
  -- The partitions, written one after the other, are read back through their table.
  pub read_partitions :
      (code_bytes offset : ℕ) (front rest file : List ℕ)
      (partitions : List (List (ℕ × RabitqCode F)))
      → IsReader file read
      → length front ≡ offset
      → file ≡ front ++ (join (map (partition_bytes wire) partitions) ++ rest)
      → All (All (IsEntry wire code_bytes)) partitions
      → for_each
          (λ meta. do
            part ← read meta.offset meta.len
            each (read_entry wire code_bytes part) 0 meta.count)
          (metas_from wire offset partitions)
        ≡ Io.ok partitions
  unfolding metas_from
  read_partitions code_bytes offset front rest file [] r o e h = refl
  read_partitions code_bytes offset front rest file (entries ∷ partitions) r o e h =
      let bytes = partition_bytes wire entries in
      let more = join (map (partition_bytes wire) partitions) in
      let within =
        take-drop-pieces front rest (map (partition_bytes wire) (entries ∷ partitions)) 0 offset
          bytes refl (omega (arith, o)) in
      let part : read offset (length bytes) ≡ Io.ok bytes =
        r offset (length bytes) (rw e within.1)
        ∙ ap (λ f. Io.ok (take (length bytes) (drop offset f))) e
        ∙ ap Io.ok within.0 in
      let next : file ≡ (front ++ bytes) ++ (more ++ rest) =
        e
        ∙ ap (◌++◌ front) (append_assoc bytes more rest)
        ∙ sym (append_assoc front bytes (more ++ rest)) in
      rw
        (
          part,
          read_entries wire code_bytes entries h.0,
          read_partitions code_bytes (offset + length bytes) (front ++ bytes) rest file partitions r
              (omega (arith, length-append front bytes, o)) next h.1,
        )
        refl
