-- ===== src/Tests/Files.antt =====
-- A header, a file and requests for the theorems on src/storage.rs, src/mmap_index.rs and
-- src/nng_server.rs.
use vdb_rs.Prelude.{
  ℕ, ◌≡◌, refl, List, [], ◌∷◌, ◌++◌, none, some, length, drop, ltb, if◌then◌else◌, ◌==◌, arith, inr,
  replicate, true, false, suc,
}
use vdb_rs.Storage.Fields.{read_le, le_fields}
use vdb_rs.Storage.Header.{Header, serialize_header, deserialize_header}
use vdb_rs.Storage.RoundTrip.{deserialize_header-serialize}
use vdb_rs.Storage.Checksum.{crc32, verify_checksum_streaming}
use vdb_rs.Storage.Streaming.{zeroed, verify_checksum_streaming-whole}
use vdb_rs.Index.Defs.{IvfRabitqIndex}
use vdb_rs.Prelude.Wire.{f32_bytes}
use vdb_rs.Nng.Wire.{parse_batch_search_payload, parse_search_payload, legacy_options}
use vdb_rs.Nng.Formats.{
  batch_fields, parse_batch_search_payload-legacy, legacy_fields, extended_fields,
  parse_search_payload-legacy, parse_search_payload-extended,
}
use vdb_rs.Nng.Server.{Json, connection_loop}
use vdb_rs.Nng.Stream.{frames, handle_all, connection_loop-frames}
use vdb_rs.Tests.Number.{Number, number_float}
use vdb_rs.Tests.Tiny.{Tiny, tiny_float, tiny_wire}
use vdb_rs.Tests.Filters.{ascii_lexis}

abbrev header : Header
header = record {
  magic = b'V' ∷ b'D' ∷ b'B' ∷ b'R' ∷ b'Q' ∷ b'I' ∷ b'D' ∷ b'X' ∷ [];
  version = 1;
  dim = 64;
  num_partitions = 4;
  num_vectors = 0;
  next_id = 0;
  rotation_offset = 148;
  rotation_len = 16384;
  centroids_offset = 16532;
  centroids_len = 1024;
  partition_meta_offset = 17556;
  partition_meta_len = 96;
  partition_data_offset = 17652;
  partition_data_len = 0;
  raw_offset = 17652;
  raw_len = 0;
  payload_offset = 17652;
  payload_len = 2;
  manifest_offset = 17654;
  manifest_len = 16;
}

deserialize_header-serialize_example :
    deserialize_header (serialize_header header ++ (1 ∷ 2 ∷ [])) ≡ some header
deserialize_header-serialize_example =
    deserialize_header-serialize header (1 ∷ 2 ∷ []) (refl, ground arith)

-- Sixty-four zeros after the header, with the manifest at the place 160.
abbrev file : List ℕ
file = replicate 212 0

verify_checksum_streaming-whole_example : verify_checksum_streaming 3 160 file ≡ (
    if ltb (length file) 172
    then none
    else some (crc32 (zeroed 168 172 148 (drop 148 file)) == read_le 168 4 file))
verify_checksum_streaming-whole_example =
    verify_checksum_streaming-whole 3 160 file (omega arith) (omega arith)

abbrev query : List Tiny
query = Tiny.one ∷ Tiny.none ∷ Tiny.nan ∷ []

parse_search_payload-legacy_example :
    parse_search_payload tiny_wire (le_fields (legacy_fields 10 0 3) ++ f32_bytes tiny_wire query)
    ≡ some (legacy_options 10 0, query)
parse_search_payload-legacy_example =
    parse_search_payload-legacy tiny_wire 10 0 query (omega arith) (omega arith) (omega arith)

parse_search_payload-extended_example :
    parse_search_payload tiny_wire
      (le_fields (extended_fields 10 0 5 8 3) ++ f32_bytes tiny_wire query)
    ≡ some (
      record {
        k = 10;
        nprobe = 0;
        refine = true;
        refine_k = 100;
        fastscan = false;
        query_bits = 8;
        sq8_refine = true;
        sql_filter = none;
      },
      query,
    )
parse_search_payload-extended_example =
    parse_search_payload-extended tiny_wire 10 0 0 8 true false true query (omega arith)
      (omega arith) (omega arith) (omega arith) (omega arith)

abbrev json : Json Tiny
json = record { is_utf8 = λ t. true; read_vectors = λ t. inr []; write_vectors = λ vs. inr [] }

abbrev empty_index : IvfRabitqIndex Tiny Number
empty_index = record {
  config = record { dim = 64; num_bits = 4; epsilon_0 = Tiny.one };
  quantizer = record {
    config = record { dim = 64; num_bits = 4; epsilon_0 = Tiny.one };
    rotation = [];
  };
  centroids = [];
  rotated_centroids = [];
  rotated_centroid_norms_sq = [];
  partitions = [];
  raw = [];
  payloads = [];
  partition_stats = [];
  sq8 = [];
  id_to_partition = [];
  sq8_dirty = false;
  next_id = 0;
}

-- A ping, a search that is too short, and a command that there is not.
abbrev requests : List (List ℕ)
requests = (1 ∷ []) ∷ (2 ∷ 0 ∷ []) ∷ (9 ∷ []) ∷ []

connection_loop-frames_example :
    connection_loop ascii_lexis tiny_wire json
      (suc (length (frames requests)))
      empty_index
      (frames requests)
    ≡ handle_all ascii_lexis tiny_wire json empty_index requests
connection_loop-frames_example =
    connection_loop-frames ascii_lexis tiny_wire json empty_index requests
      ((omega arith, omega arith), ((omega arith, omega arith), ((omega arith, omega arith), tt)))

-- Two queries of one number each.
parse_batch_search_payload-legacy_example :
    parse_batch_search_payload
      (le_fields (batch_fields 10 4 1 2) ++ (0 ∷ 0 ∷ 0 ∷ 0 ∷ 0 ∷ 0 ∷ 128 ∷ 63 ∷ []))
    ≡ some (legacy_options 10 4, 1, 2, 0 ∷ 0 ∷ 0 ∷ 0 ∷ 0 ∷ 0 ∷ 128 ∷ 63 ∷ [])
parse_batch_search_payload-legacy_example =
    parse_batch_search_payload-legacy 10 4 1 2 (0 ∷ 0 ∷ 0 ∷ 0 ∷ 0 ∷ 0 ∷ 128 ∷ 63 ∷ []) (omega arith)
      (omega arith) (omega arith) (omega arith) refl (omega arith)
