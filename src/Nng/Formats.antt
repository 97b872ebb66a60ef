-- ===== src/Nng/Formats.antt =====
-- Requests written in the formats of the protocol's documentation are read back.
use vdb_rs.Prelude.{
  ℕ, ◌+◌, ◌*◌, ◌/◌, ◌%◌, ◌^◌, Bool, none, ◌<◌, ◌≡◌, refl, ap, sym, ◌∙◌, true, false, ◌&&◌, List, [],
  ◌∷◌, ◌++◌, some, length, ltb, leb, ◌==◌, arith, length-append, drop-append,
}
use vdb_rs.Prelude.Wire.{Wire, read_words, f32_bytes, length-f32_bytes, read_words-f32_bytes}
use vdb_rs.Storage.Fields.{read_le, le_fields, length-le_fields, read_le-at}
use vdb_rs.Nng.Wire.{
  expected_size, parse_batch_search_payload, legacy_options, has_flag, extended_options, read_f32s,
  parse_search_payload,
}

-- `[k:u32][nprobe:u32][dim:u32]`
abbrev pub legacy_fields : ℕ → ℕ → ℕ → List (ℕ × ℕ)
legacy_fields k nprobe dim = (4, k) ∷ (4, nprobe) ∷ (4, dim) ∷ []

-- `[k:u32][nprobe:u32][flags:u32][query_bits:u8][dim:u32]`
abbrev pub extended_fields : ℕ → ℕ → ℕ → ℕ → ℕ → List (ℕ × ℕ)
extended_fields k nprobe flags query_bits dim =
    (4, k) ∷ (4, nprobe) ∷ (4, flags) ∷ (1, query_bits) ∷ (4, dim) ∷ []

-- `[k][nprobe][dim][num_queries]`
abbrev pub batch_fields : ℕ → ℕ → ℕ → ℕ → List (ℕ × ℕ)
batch_fields k nprobe dim num_queries = (4, k) ∷ (4, nprobe) ∷ (4, dim) ∷ (4, num_queries) ∷ []

-- The flags of a request, from the lowest bit: FLAG_REFINE, FLAG_FASTSCAN, FLAG_SQ8_REFINE.
abbrev bit : Bool → ℕ
bit true = 1
bit false = 0

abbrev pub flags_of : Bool → Bool → Bool → ℕ → ℕ
flags_of refine fastscan sq8_refine other =
    bit refine + 2 * bit fastscan + 4 * bit sq8_refine + 8 * other

extended_options-flags_of :
    (k nprobe query_bits other : ℕ) (refine fastscan sq8_refine : Bool)
    → extended_options k nprobe (flags_of refine fastscan sq8_refine other) query_bits ≡ record {
      k = k;
      nprobe = nprobe;
      refine = refine;
      refine_k = k * 10;
      fastscan = fastscan;
      query_bits = query_bits;
      sq8_refine = sq8_refine;
      sql_filter = none;
    }
unfolding extended_options has_flag
extended_options-flags_of k nprobe query_bits other refine fastscan sq8_refine =
    rw
      (
        low_bit refine fastscan sq8_refine other,
        middle_bit refine fastscan sq8_refine other,
        high_bit refine fastscan sq8_refine other,
      )
      refl
  where
    low_bit : (a b c : Bool) (n : ℕ) → (flags_of a b c n / 2 ^ 0 % 2 == 1) ≡ a
    low_bit true b c n = ground arith
    low_bit false b c n = ground arith

    middle_bit : (a b c : Bool) (n : ℕ) → (flags_of a b c n / 2 ^ 1 % 2 == 1) ≡ b
    middle_bit true true c n = ground arith
    middle_bit true false c n = ground arith
    middle_bit false true c n = ground arith
    middle_bit false false c n = ground arith

    high_bit : (a b c : Bool) (n : ℕ) → (flags_of a b c n / 2 ^ 2 % 2 == 1) ≡ c
    high_bit true true true n = ground arith
    high_bit true false true n = ground arith
    high_bit false true true n = ground arith
    high_bit false false true n = ground arith
    high_bit true true false n = ground arith
    high_bit true false false n = ground arith
    high_bit false true false n = ground arith
    high_bit false false false n = ground arith

module _ {F : Type 0} (wire : Wire F) where
  pub read_f32s-f32_bytes :
      (xs : List F) (dim : ℕ) → length xs ≡ dim → read_f32s wire (f32_bytes wire xs) dim ≡ some xs
  unfolding read_f32s
  read_f32s-f32_bytes xs dim h =
      let size : (length (f32_bytes wire xs) == dim * 4) ≡ true =
        ground (arith, length-f32_bytes wire xs) in
      rw size (
        ap some
          (ap (λ n. read_words wire n (f32_bytes wire xs)) (sym h) ∙ read_words-f32_bytes wire xs))

  not_extended :
      (n dim size : ℕ) → size ≡ 12 + n * 4 → (leb 17 size && size == 17 + dim * 4) ≡ false
  not_extended n dim size h = ground arith

  -- A request in the old format, with numbers below 2 ^ 32, is read as the old format and never as
  -- the new one, whatever numbers its vector holds.
  pub parse_search_payload-legacy :
      (k nprobe : ℕ) (query : List F)
      → k < 256 ^ 4
      → nprobe < 256 ^ 4
      → length query < 256 ^ 4
      → parse_search_payload wire
          (le_fields (legacy_fields k nprobe (length query)) ++ f32_bytes wire query)
        ≡ some (legacy_options k nprobe, query)
  unfolding parse_search_payload
  parse_search_payload-legacy k nprobe query hk hn hq =
      let fields = legacy_fields k nprobe (length query) in
      let payload = le_fields fields ++ f32_bytes wire query in
      let size : length payload ≡ 12 + length query * 4 = omega (
        arith,
        length-append (le_fields fields) (f32_bytes wire query),
        length-le_fields fields,
        length-f32_bytes wire query,
      ) in
      let long : ltb (length payload) 12 ≡ false = ground arith in
      let fits : (length payload == 12 + length query * 4) ≡ true = ground arith in
      rw
        (
          long,
          not_extended (length query) (read_le 13 4 payload) (length payload) size,
          read_le-at fields 2 8 4 (length query) (f32_bytes wire query) refl refl hq,
          fits,
          drop-append 12 (le_fields fields) (f32_bytes wire query) (length-le_fields fields),
          read_f32s-f32_bytes query (length query) refl,
          read_le-at fields 0 0 4 k (f32_bytes wire query) refl refl hk,
          read_le-at fields 1 4 4 nprobe (f32_bytes wire query) refl refl hn,
        )
        refl

  -- The fields of a request in the new format are read at their places.
  parse_search_payload-extended_options :
      (k nprobe flags query_bits : ℕ) (query : List F)
      → k < 256 ^ 4
      → nprobe < 256 ^ 4
      → flags < 256 ^ 4
      → query_bits < 256 ^ 1
      → length query < 256 ^ 4
      → parse_search_payload wire (
          le_fields (extended_fields k nprobe flags query_bits (length query))
          ++ f32_bytes wire query)
        ≡ some (extended_options k nprobe flags query_bits, query)
  unfolding parse_search_payload
  parse_search_payload-extended_options k nprobe flags query_bits query hk hn hf hb hq =
      let fields = extended_fields k nprobe flags query_bits (length query) in
      let payload = le_fields fields ++ f32_bytes wire query in
      let size : length payload ≡ 17 + length query * 4 = omega (
        arith,
        length-append (le_fields fields) (f32_bytes wire query),
        length-le_fields fields,
        length-f32_bytes wire query,
      ) in
      let long : ltb (length payload) 12 ≡ false = ground arith in
      let fits : (leb 17 (length payload) && length payload == 17 + length query * 4) ≡ true =
        ground arith in
      rw
        (
          long,
          read_le-at fields 4 13 4 (length query) (f32_bytes wire query) refl refl hq,
          fits,
          drop-append 17 (le_fields fields) (f32_bytes wire query) (length-le_fields fields),
          read_f32s-f32_bytes query (length query) refl,
          read_le-at fields 0 0 4 k (f32_bytes wire query) refl refl hk,
          read_le-at fields 1 4 4 nprobe (f32_bytes wire query) refl refl hn,
          read_le-at fields 2 8 4 flags (f32_bytes wire query) refl refl hf,
          read_le-at fields 3 12 1 query_bits (f32_bytes wire query) refl refl hb,
        )
        refl

  -- A request in the new format, with each number below the bound of its field, is read with the
  -- options that it says: the bits 0, 1 and 2 of the flags, and no others, turn on the refinement,
  -- the fast scan and the refinement by the eight-bit codes.
  pub parse_search_payload-extended :
      (k nprobe other_flags query_bits : ℕ) (refine fastscan sq8_refine : Bool) (query : List F)
      → k < 256 ^ 4
      → nprobe < 256 ^ 4
      → flags_of refine fastscan sq8_refine other_flags < 256 ^ 4
      → query_bits < 256 ^ 1
      → length query < 256 ^ 4
      → parse_search_payload wire (
          le_fields (
            extended_fields k nprobe
              (flags_of refine fastscan sq8_refine other_flags)
              query_bits
              (length query))
          ++ f32_bytes wire query)
        ≡ some (
          record {
            k = k;
            nprobe = nprobe;
            refine = refine;
            refine_k = k * 10;
            fastscan = fastscan;
            query_bits = query_bits;
            sq8_refine = sq8_refine;
            sql_filter = none;
          },
          query,
        )
  parse_search_payload-extended k nprobe other_flags query_bits refine fastscan sq8_refine query hk
        hn hf hb hq =
      parse_search_payload-extended_options k nprobe
        (flags_of refine fastscan sq8_refine other_flags) query_bits query hk hn hf hb hq
      ∙ ap (λ options. some (options, query))
          (extended_options-flags_of k nprobe query_bits other_flags refine fastscan sq8_refine)

not_extended_batch :
    (count dim n size : ℕ)
    → size ≡ 16 + count * 4
    → (leb 21 size && size == expected_size 21 n dim) ≡ false
unfolding expected_size
not_extended_batch count dim n size h = let m = n * dim in ground arith

fits_batch :
    (dim n size : ℕ)
    → size ≡ 16 + n * dim * 4
    → size < 2 ^ 64
    → (size == expected_size 16 n dim) ≡ true
unfolding expected_size
fits_batch dim n size h lt = ground arith

-- A batch in the old format, with numbers below 2 ^ 32 and as many bytes as its numbers say, fewer
-- than 2 ^ 64 in all, is read as the old format and never as the new one.
pub parse_batch_search_payload-legacy :
    (k nprobe dim num_queries : ℕ) (bytes : List ℕ)
    → k < 256 ^ 4
    → nprobe < 256 ^ 4
    → dim < 256 ^ 4
    → num_queries < 256 ^ 4
    → length bytes ≡ num_queries * dim * 4
    → 16 + length bytes < 2 ^ 64
    → parse_batch_search_payload (le_fields (batch_fields k nprobe dim num_queries) ++ bytes)
      ≡ some (legacy_options k nprobe, dim, num_queries, bytes)
unfolding parse_batch_search_payload
parse_batch_search_payload-legacy k nprobe dim num_queries bytes hk hn hd hq count total =
    let fields = batch_fields k nprobe dim num_queries in
    let payload = le_fields fields ++ bytes in
    let product = num_queries * dim in
    let size : length payload ≡ 16 + product * 4 =
      omega (arith, length-append (le_fields fields) bytes, length-le_fields fields, count) in
    let long : ltb (length payload) 16 ≡ false = ground arith in
    let fits : (length payload == expected_size 16 num_queries dim) ≡ true =
      fits_batch dim num_queries (length payload) size (omega (arith, size, total, count)) in
    rw
      (
        long,
        not_extended_batch product (read_le 13 4 payload) (read_le 17 4 payload) (length payload)
            size,
        read_le-at fields 2 8 4 dim bytes refl refl hd,
        read_le-at fields 3 12 4 num_queries bytes refl refl hq,
        fits,
        read_le-at fields 0 0 4 k bytes refl refl hk,
        read_le-at fields 1 4 4 nprobe bytes refl refl hn,
        drop-append 16 (le_fields fields) bytes (length-le_fields fields),
      )
      refl
