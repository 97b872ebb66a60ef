-- ===== src/Http/Defs.antt =====
-- The handlers of src/http_server.rs and the choice among them. A panic in a handler is `none`: the
-- callback is of C, and the process ends. JSON is read and written by parameters.
use vdb_rs.Prelude.{
  ℕ, ◌*◌, Bool, not, List, [], ◌∷◌, Option, none, some, ◌⊎◌, inl, inr, min, length, ltb,
  if◌then◌else◌, ◌==◌, true, false,
}
use vdb_rs.Prelude.Assoc.{Str, str_eq}
use vdb_rs.Prelude.Float.{Float}
use vdb_rs.Prelude.Panic.{Panics, ◌>>=◌}
use vdb_rs.Payload.{Payload}
use vdb_rs.Sql.Token.Lexer.{Lexis}
use vdb_rs.Index.Defs.{IvfRabitqIndex, add, add_with_payload}
use vdb_rs.Search.{SearchOptions, search}

abbrev pub search_path : Str
search_path = b'/' ∷ b's' ∷ b'e' ∷ b'a' ∷ b'r' ∷ b'c' ∷ b'h' ∷ []

abbrev pub insert_path : Str
insert_path = b'/' ∷ b'i' ∷ b'n' ∷ b's' ∷ b'e' ∷ b'r' ∷ b't' ∷ []

abbrev pub batch_insert_path : Str
batch_insert_path =
    b'/' ∷ b'b' ∷ b'a' ∷ b't' ∷ b'c' ∷ b'h' ∷ b'_' ∷ b'i' ∷ b'n' ∷ b's' ∷ b'e' ∷ b'r' ∷ b't' ∷ []

abbrev pub stats_path : Str
stats_path = b'/' ∷ b's' ∷ b't' ∷ b'a' ∷ b't' ∷ b's' ∷ []

abbrev pub health_path : Str
health_path = b'/' ∷ b'h' ∷ b'e' ∷ b'a' ∷ b'l' ∷ b't' ∷ b'h' ∷ []

abbrev pub root_path : Str
root_path = b'/' ∷ []

abbrev pub app_js_path : Str
app_js_path = b'/' ∷ b'a' ∷ b'p' ∷ b'p' ∷ b'.' ∷ b'j' ∷ b's' ∷ []

abbrev pub style_css_path : Str
style_css_path = b'/' ∷ b's' ∷ b't' ∷ b'y' ∷ b'l' ∷ b'e' ∷ b'.' ∷ b'c' ∷ b's' ∷ b's' ∷ []

abbrev pub zero_k_text : Str
zero_k_text =
    b'k' ∷ 0x20 ∷ b'm' ∷ b'u' ∷ b's' ∷ b't' ∷ 0x20 ∷ b'b' ∷ b'e' ∷ 0x20 ∷ b'>' ∷ 0x20 ∷ b'0' ∷ []

abbrev pub mismatch_text : Str
mismatch_text =
    b'v' ∷ b'e' ∷ b'c' ∷ b't' ∷ b'o' ∷ b'r' ∷ b's' ∷ 0x20 ∷ b'a' ∷ b'n' ∷ b'd' ∷ 0x20 ∷ b'p' ∷ b'a'
    ∷ b'y' ∷ b'l' ∷ b'o' ∷ b'a' ∷ b'd' ∷ b's' ∷ 0x20 ∷ b'l' ∷ b'e' ∷ b'n' ∷ b'g' ∷ b't' ∷ b'h'
    ∷ 0x20 ∷ b'm' ∷ b'i' ∷ b's' ∷ b'm' ∷ b'a' ∷ b't' ∷ b'c' ∷ b'h' ∷ []

abbrev pub not_found_text : Str
not_found_text = b'n' ∷ b'o' ∷ b't' ∷ 0x20 ∷ b'f' ∷ b'o' ∷ b'u' ∷ b'n' ∷ b'd' ∷ []

abbrev pub max_k : ℕ
max_k = 256

abbrev pub max_body_size : ℕ
max_body_size = 16 * 1024 * 1024

-- `read_request_body`: a body that is too long is read as an empty one.
unfoldable pub read_request_body : List ℕ → List ℕ
read_request_body body = if ltb max_body_size (length body) then [] else body

pub record SearchRequest (F : Type 0) : Type 0 where
  pub query : List F
  pub k : Option ℕ
  pub nprobe : Option ℕ
  pub refine : Option Bool
  pub refine_k : Option ℕ
  pub fastscan : Option Bool
  pub query_bits : Option ℕ
  pub sq8_refine : Option Bool
  pub sql_filter : Option Str

pub record InsertRequest (F N : Type 0) : Type 0 where
  pub vector : List F
  pub payload : Option (Payload N)

pub record BatchInsertRequest (F N : Type 0) : Type 0 where
  pub vectors : List (List F)
  pub payloads : Option (List (Payload N))

pub record StatsResponse : Type 0 where
  pub num_vectors : ℕ
  pub num_partitions : ℕ
  pub dim : ℕ

-- What an answer says: the JSON of it, or a page.
pub data Body (F : Type 0) : Type 0 where
  error : Str → Body F
  results : List (ℕ × F) → Body F
  inserted : ℕ → Body F
  batch_inserted : List ℕ → Body F
  counted : StatsResponse → Body F
  healthy nothing index_html app_js style_css : Body F

-- What the server takes from serde_json: the request in a body, or an error's message.
pub record Serde (F N : Type 0) : Type 0 where
  pub search_request : List ℕ → Str ⊎ SearchRequest F
  pub insert_request : List ℕ → Str ⊎ InsertRequest F N
  pub batch_request : List ℕ → Str ⊎ BatchInsertRequest F N

pub data Method : Type 0 where
  get post options other : Method

-- `ServerOptions::default`
abbrev pub server_default_options : SearchOptions
server_default_options = record {
  k = 10;
  nprobe = 50;
  refine = true;
  refine_k = 1000;
  fastscan = true;
  query_bits = 0;
  sq8_refine = false;
  sql_filter = none;
}

unfoldable pub unwrap_or {ℓ} : {A : Type ℓ} → Option A → A → A
unwrap_or none a = a
unwrap_or (some b) a = b

module _ {F : Type 0} where
  -- `options` of `handle_search`, for the `k` that it has bounded.
  unfoldable pub merged : SearchOptions → SearchRequest F → ℕ → SearchOptions
  unfolding unwrap_or
  merged defaults req k = record {
    k = k;
    nprobe = unwrap_or req.nprobe defaults.nprobe;
    refine = unwrap_or req.refine defaults.refine;
    refine_k = unwrap_or req.refine_k defaults.refine_k;
    fastscan = unwrap_or req.fastscan defaults.fastscan;
    query_bits = unwrap_or req.query_bits defaults.query_bits;
    sq8_refine = unwrap_or req.sq8_refine defaults.sq8_refine;
    sql_filter = elim req.sql_filter [ none ↦ defaults.sql_filter | some s ↦ some s ];
  }

module _ {F N : Type 0} ⦃fl : Float F⦄ ⦃fn : Float N⦄ where
  -- The loops of `handle_batch_insert`, with the identifiers in order.
  unfoldable pub add_pairs :
      IvfRabitqIndex F N → List (List F) → List (Payload N) → Panics (IvfRabitqIndex F N × List ℕ)
  add_pairs idx [] payloads = some (idx, [])
  add_pairs idx (v ∷ vectors) [] = some (idx, [])
  add_pairs idx (v ∷ vectors) (p ∷ payloads) = do
    one ← add_with_payload idx v p
    rest ← add_pairs one.0 vectors payloads
    some (rest.0, one.1 ∷ rest.1)

  unfoldable pub add_each :
      IvfRabitqIndex F N → List (List F) → Panics (IvfRabitqIndex F N × List ℕ)
  add_each idx [] = some (idx, [])
  add_each idx (v ∷ vectors) = do
    one ← add idx v
    rest ← add_each one.0 vectors
    some (rest.0, one.1 ∷ rest.1)

  -- The handlers, from the request or the message that JSON gives.
  unfoldable pub answer_search :
      Lexis N → IvfRabitqIndex F N → SearchOptions → Str ⊎ SearchRequest F → Panics (ℕ × Body F)
  unfolding unwrap_or merged
  answer_search lx idx defaults (inl message) = some (400, Body.error message)
  answer_search lx idx defaults (inr req) =
      let k = min (unwrap_or req.k defaults.k) max_k in
      if k == 0 then some (400, Body.error zero_k_text) else (do
        found ← search lx idx req.query (merged defaults req k) none
        some (200, Body.results found))

  unfoldable pub insert_vector :
      IvfRabitqIndex F N → List F → Option (Payload N) → Panics (IvfRabitqIndex F N × ℕ)
  insert_vector idx vector none = add idx vector
  insert_vector idx vector (some p) = add_with_payload idx vector p

  unfoldable pub answer_insert :
      IvfRabitqIndex F N → Str ⊎ InsertRequest F N → Panics (IvfRabitqIndex F N × (ℕ × Body F))
  unfolding insert_vector
  answer_insert idx (inl message) = some (idx, (400, Body.error message))
  answer_insert idx (inr req) = do
    one ← insert_vector idx req.vector req.payload
    some (one.0, (200, Body.inserted one.1))

  unfoldable pub insert_batch :
      IvfRabitqIndex F N
      → List (List F)
      → Option (List (Payload N))
      → Panics (IvfRabitqIndex F N × (ℕ × Body F))
  unfolding add_pairs add_each
  insert_batch idx vectors none = do
    all ← add_each idx vectors
    some (all.0, (200, Body.batch_inserted all.1))
  insert_batch idx vectors (some payloads) =
      if not (length payloads == length vectors)
      then some (idx, (400, Body.error mismatch_text))
      else (do all ← add_pairs idx vectors payloads; some (all.0, (200, Body.batch_inserted all.1)))

  unfoldable pub answer_batch :
      IvfRabitqIndex F N → Str ⊎ BatchInsertRequest F N → Panics (IvfRabitqIndex F N × (ℕ × Body F))
  unfolding insert_batch
  answer_batch idx (inl message) = some (idx, (400, Body.error message))
  answer_batch idx (inr req) = insert_batch idx req.vectors req.payloads

  module _ (lx : Lexis N) (serde : Serde F N) where
    unfoldable pub handle_search : IvfRabitqIndex F N → SearchOptions → List ℕ → Panics (ℕ × Body F)
    unfolding answer_search
    handle_search idx defaults body = answer_search lx idx defaults (serde.search_request body)

    unfoldable pub handle_insert :
        IvfRabitqIndex F N → List ℕ → Panics (IvfRabitqIndex F N × (ℕ × Body F))
    unfolding answer_insert
    handle_insert idx body = answer_insert idx (serde.insert_request body)

    unfoldable pub handle_batch_insert :
        IvfRabitqIndex F N → List ℕ → Panics (IvfRabitqIndex F N × (ℕ × Body F))
    unfolding answer_batch
    handle_batch_insert idx body = answer_batch idx (serde.batch_request body)

    unfoldable pub handle_stats : IvfRabitqIndex F N → ℕ × Body F
    handle_stats idx = (
      200,
      Body.counted (record {
        num_vectors = length idx.raw;
        num_partitions = length idx.partitions;
        dim = idx.config.dim;
      }),
    )

    -- The `match method` of `http_generic_callback`, with what it makes of the index.
    unfoldable pub route :
        IvfRabitqIndex F N
        → SearchOptions
        → Method
        → Str
        → List ℕ
        → Panics (IvfRabitqIndex F N × (ℕ × Body F))
    unfolding read_request_body handle_search handle_insert handle_batch_insert handle_stats
    route idx defaults Method.options uri bytes = some (idx, (204, Body.nothing))
    route idx defaults Method.get uri bytes =
        if str_eq uri health_path
        then some (idx, (200, Body.healthy))
        else if str_eq uri root_path
        then some (idx, (200, Body.index_html))
        else if str_eq uri app_js_path
        then some (idx, (200, Body.app_js))
        else if str_eq uri style_css_path
        then some (idx, (200, Body.style_css))
        else if str_eq uri stats_path
        then some (idx, handle_stats idx)
        else some (idx, (404, Body.error not_found_text))
    route idx defaults Method.post uri bytes =
        let body = read_request_body bytes in
        if str_eq uri search_path
        then (do reply ← handle_search idx defaults body; some (idx, reply))
        else if str_eq uri insert_path
        then handle_insert idx body
        else if str_eq uri batch_insert_path
        then handle_batch_insert idx body
        else some (idx, (404, Body.error not_found_text))
    route idx defaults Method.other uri bytes = some (idx, (404, Body.error not_found_text))
