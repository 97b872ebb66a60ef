-- ===== src/Nng/Wire.antt =====
-- The payloads of src/nng_server.rs: `parse_search_payload`, `parse_batch_search_payload`,
-- `read_f32s` and `serialize_results`. `usize` has 64 bits.
use vdb_rs.Prelude.{
  ℕ, ◌+◌, ◌*◌, ◌/◌, ◌%◌, ◌^◌, Bool, true, false, List, [], ◌∷◌, ◌++◌, Option, none, some, length,
  drop, ◌&&◌, ltb, leb, if◌then◌else◌, ◌==◌,
}
use vdb_rs.Prelude.Wire.{Wire, read_words}
use vdb_rs.Prelude.Bytes.{to_le_bytes}
use vdb_rs.Storage.Fields.{read_le}
use vdb_rs.Search.{SearchOptions}

-- `flags & (1 << i) != 0`
unfoldable pub has_flag : ℕ → ℕ → Bool
has_flag flags i = flags / 2 ^ i % 2 == 1

unfoldable pub legacy_options : ℕ → ℕ → SearchOptions
legacy_options k nprobe = record {
  k = k;
  nprobe = nprobe;
  refine = true;
  refine_k = k * 10;
  fastscan = true;
  query_bits = 0;
  sq8_refine = false;
  sql_filter = none;
}

unfoldable pub extended_options : ℕ → ℕ → ℕ → ℕ → SearchOptions
unfolding has_flag
extended_options k nprobe flags query_bits = record {
  k = k;
  nprobe = nprobe;
  refine = has_flag flags 0;
  refine_k = k * 10;
  fastscan = has_flag flags 1;
  query_bits = query_bits;
  sq8_refine = has_flag flags 2;
  sql_filter = none;
}

-- `21 + num_queries * dim * 4`, and its like, with the wrap-around of `usize`.
unfoldable pub expected_size : ℕ → ℕ → ℕ → ℕ
expected_size header num_queries dim = (header + num_queries * dim * 4) % 2 ^ 64

-- The options, the dimension, the number of queries, and their bytes.
unfoldable pub parse_batch_search_payload : List ℕ → Option (SearchOptions × ℕ × ℕ × List ℕ)
unfolding legacy_options extended_options expected_size
parse_batch_search_payload payload =
    let k = read_le 0 4 payload in
    let nprobe = read_le 4 4 payload in
    let dim = read_le 13 4 payload in
    let num_queries = read_le 17 4 payload in
    let old_dim = read_le 8 4 payload in
    let old_num_queries = read_le 12 4 payload in
    if ltb (length payload) 16
    then none
    else if leb 21 (length payload) && length payload == expected_size 21 num_queries dim
    then some (
      extended_options k nprobe (read_le 8 4 payload) (read_le 12 1 payload),
      dim,
      num_queries,
      drop 21 payload,
    )
    else if length payload == expected_size 16 old_num_queries old_dim
    then some (legacy_options k nprobe, old_dim, old_num_queries, drop 16 payload)
    else none

module _ {F : Type 0} (wire : Wire F) where
  -- `none` is the error.
  unfoldable pub read_f32s : List ℕ → ℕ → Option (List F)
  unfolding read_words
  read_f32s bytes dim = if length bytes == dim * 4 then some (read_words wire dim bytes) else none

  unfoldable pub parse_search_payload : List ℕ → Option (SearchOptions × List F)
  unfolding read_f32s legacy_options extended_options
  parse_search_payload payload =
      let k = read_le 0 4 payload in
      let nprobe = read_le 4 4 payload in
      let dim = read_le 13 4 payload in
      let old_dim = read_le 8 4 payload in
      if ltb (length payload) 12
      then none
      else if leb 17 (length payload) && length payload == 17 + dim * 4
      then elim (read_f32s (drop 17 payload) dim) [
        | none ↦ none
        | some query ↦
            some (extended_options k nprobe (read_le 8 4 payload) (read_le 12 1 payload), query)
      ]
      else if length payload == 12 + old_dim * 4
      then elim (read_f32s (drop 12 payload) old_dim) [
        | none ↦ none
        | some query ↦ some (legacy_options k nprobe, query)
      ]
      else none

  unfoldable pub serialize_results : List (ℕ × F) → List ℕ
  serialize_results [] = []
  serialize_results ((id, dist) ∷ results) =
      to_le_bytes 8 id ++ (to_le_bytes 4 (wire.to_bits dist) ++ serialize_results results)
