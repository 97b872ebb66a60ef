-- ===== src/Tests/Requests.antt =====
-- Requests for an index of vectors of two coordinates, for the theorems on src/http_server.rs.
use vdb_rs.Prelude.{ℕ, ◌≡◌, ◌≤◌, refl, [], ◌∷◌, none, some, ◌⊎◌, inr}
use vdb_rs.Prelude.Assoc.{str_eq}
use vdb_rs.Index.Defs.{IvfRabitqIndex, add, add_with_payload, nearest_partition}
use vdb_rs.Index.Add.{IsValid}
use vdb_rs.Http.Defs.{
  Body, Serde, SearchRequest, BatchInsertRequest, Method, route, handle_search, handle_batch_insert,
  insert_path, batch_insert_path, server_default_options,
}
use vdb_rs.Search.{search}
use vdb_rs.Search.Defs.{filter_panics, scan_partition, passes_predicate}
use vdb_rs.Quantizer.{encode, rotate_vector}
use vdb_rs.Simd.{dot_product, l2_distance_squared, batch_hamming_distance}
use vdb_rs.Prelude.Panic.{sort_by_dist}
use vdb_rs.Prelude.Sort.{sort, sorted_insert}
use vdb_rs.Http.Batch.{handle_batch_insert-IsValid}
use vdb_rs.Http.Route.{handle_search-max_k, route-insert_path}
use vdb_rs.Tests.Number.{Number, number_float}
use vdb_rs.Tests.Filters.{ascii_lexis}
use vdb_rs.Tests.Scans.{asked, fresh, fresh-IsValid}

abbrev search_request : SearchRequest Number
search_request = record {
  query = asked;
  k = some 3;
  nprobe = none;
  refine = none;
  refine_k = none;
  fastscan = none;
  query_bits = none;
  sq8_refine = none;
  sql_filter = none;
}

abbrev batch_request : BatchInsertRequest Number Number
batch_request = record { vectors = asked ∷ asked ∷ []; payloads = none }

-- Every body stands for the same request.
abbrev serde : Serde Number Number
serde = record {
  search_request = λ body. inr search_request;
  insert_request = λ body. inr (record { vector = asked; payload = none });
  batch_request = λ body. inr batch_request;
}

handle_batch_insert-IsValid_example :
    (next : IvfRabitqIndex Number Number) × (handle_batch_insert ascii_lexis serde fresh []
      ≡ some (next, (200, Body.batch_inserted (0 ∷ 1 ∷ []))))
    × IsValid next
    × (next.raw ≡ asked ∷ asked ∷ [])
    × (next.payloads ≡ [] ∷ [] ∷ [])
handle_batch_insert-IsValid_example =
    handle_batch_insert-IsValid ascii_lexis serde fresh [] batch_request refl fresh-IsValid
      (refl, (refl, tt)) refl

abbrev stored : IvfRabitqIndex Number Number
stored = record fresh {
  quantizer = record {
    config = fresh.config;
    rotation = Number.num 1 ∷ Number.num 0 ∷ Number.num 0 ∷ Number.num 1 ∷ [];
  };
  rotated_centroids = asked ∷ [];
  rotated_centroid_norms_sq = Number.num 2 ∷ [];
  partitions = ((0, record { bits = []; alpha = Number.num 1; beta = Number.num 1 }) ∷ []) ∷ [];
  raw = asked ∷ [];
  payloads = [] ∷ [];
  id_to_partition = 0 ∷ [];
  next_id = 1;
}

handle_search-max_k_example : 1 ≤ 256
unfolding handle_search search encode filter_panics rotate_vector dot_product sort_by_dist sort
    sorted_insert scan_partition batch_hamming_distance passes_predicate l2_distance_squared
handle_search-max_k_example =
    handle_search-max_k ascii_lexis serde stored server_default_options [] 200
      ((0, Number.num 0) ∷ []) refl

abbrev inserted : IvfRabitqIndex Number Number
inserted = elim (add fresh asked) [ none ↦ fresh | some r ↦ r.0 ]

abbrev ok_status : ℕ
ok_status = 200

route-insert_path_example :
    (inserted ≡ fresh)
    ⊎ ((ok_status ≡ 200) × ((insert_path ≡ insert_path) ⊎ (insert_path ≡ batch_insert_path)))
unfolding route str_eq add add_with_payload nearest_partition l2_distance_squared encode
route-insert_path_example =
    route-insert_path ascii_lexis serde fresh inserted server_default_options Method.post
      insert_path [] ok_status (Body.inserted 0) refl
