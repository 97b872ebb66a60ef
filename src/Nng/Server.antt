-- ===== src/Nng/Server.antt =====
-- The handlers of src/nng_server.rs, and the loop over the requests of one connection. A panic in a
-- handler is `none`.
use vdb_rs.Prelude.{
  ℕ, zero, suc, ◌+◌, ◌*◌, Bool, ◌||◌, List, [], ◌∷◌, ◌++◌, none, some, ◌⊎◌, inl, inr, length, take,
  drop, ltb, leb, not, if◌then◌else◌, ◌==◌,
}
use vdb_rs.Prelude.Assoc.{Str}
use vdb_rs.Prelude.Bytes.{to_le_bytes}
use vdb_rs.Prelude.Float.{Float}
use vdb_rs.Prelude.Panic.{Panics, ◌>>=◌, ◌>>◌, assert}
use vdb_rs.Storage.Fields.{read_le}
use vdb_rs.Index.Defs.{IvfRabitqIndex, add}
use vdb_rs.Sql.Token.Lexer.{Lexis}
use vdb_rs.Search.{SearchOptions, search}
use vdb_rs.Prelude.Wire.{Wire}
use vdb_rs.Nng.Wire.{read_f32s, parse_search_payload, parse_batch_search_payload, serialize_results}

-- The texts of the errors.
abbrev search_format_text : Str
search_format_text =
    b's' ∷ b'e' ∷ b'a' ∷ b'r' ∷ b'c' ∷ b'h' ∷ 0x20 ∷ b'p' ∷ b'a' ∷ b'y' ∷ b'l' ∷ b'o' ∷ b'a' ∷ b'd'
    ∷ 0x20 ∷ b'f' ∷ b'o' ∷ b'r' ∷ b'm' ∷ b'a' ∷ b't' ∷ 0x20 ∷ b'e' ∷ b'r' ∷ b'r' ∷ b'o' ∷ b'r' ∷ []

abbrev batch_format_text : Str
batch_format_text =
    b'b' ∷ b'a' ∷ b't' ∷ b'c' ∷ b'h' ∷ 0x20 ∷ b's' ∷ b'e' ∷ b'a' ∷ b'r' ∷ b'c' ∷ b'h' ∷ 0x20 ∷ b'p'
    ∷ b'a' ∷ b'y' ∷ b'l' ∷ b'o' ∷ b'a' ∷ b'd' ∷ 0x20 ∷ b'f' ∷ b'o' ∷ b'r' ∷ b'm' ∷ b'a' ∷ b't'
    ∷ 0x20 ∷ b'e' ∷ b'r' ∷ b'r' ∷ b'o' ∷ b'r' ∷ []

abbrev slice_mismatch_text : Str
slice_mismatch_text =
    b'f' ∷ b'3' ∷ b'2' ∷ 0x20 ∷ b's' ∷ b'l' ∷ b'i' ∷ b'c' ∷ b'e' ∷ 0x20 ∷ b'l' ∷ b'e' ∷ b'n' ∷ b'g'
    ∷ b't' ∷ b'h' ∷ 0x20 ∷ b'm' ∷ b'i' ∷ b's' ∷ b'm' ∷ b'a' ∷ b't' ∷ b'c' ∷ b'h' ∷ []

abbrev insert_short_text : Str
insert_short_text =
    b'i' ∷ b'n' ∷ b's' ∷ b'e' ∷ b'r' ∷ b't' ∷ 0x20 ∷ b'p' ∷ b'a' ∷ b'y' ∷ b'l' ∷ b'o' ∷ b'a' ∷ b'd'
    ∷ 0x20 ∷ b't' ∷ b'o' ∷ b'o' ∷ 0x20 ∷ b's' ∷ b'h' ∷ b'o' ∷ b'r' ∷ b't' ∷ []

abbrev insert_mismatch_text : Str
insert_mismatch_text =
    b'i' ∷ b'n' ∷ b's' ∷ b'e' ∷ b'r' ∷ b't' ∷ 0x20 ∷ b'p' ∷ b'a' ∷ b'y' ∷ b'l' ∷ b'o' ∷ b'a' ∷ b'd'
    ∷ 0x20 ∷ b'l' ∷ b'e' ∷ b'n' ∷ b'g' ∷ b't' ∷ b'h' ∷ 0x20 ∷ b'm' ∷ b'i' ∷ b's' ∷ b'm' ∷ b'a'
    ∷ b't' ∷ b'c' ∷ b'h' ∷ []

abbrev invalid_utf8_text : Str
invalid_utf8_text =
    b'i' ∷ b'n' ∷ b'v' ∷ b'a' ∷ b'l' ∷ b'i' ∷ b'd' ∷ 0x20 ∷ b'u' ∷ b't' ∷ b'f' ∷ b'8' ∷ []

abbrev unknown_command_text : Str
unknown_command_text =
    b'u' ∷ b'n' ∷ b'k' ∷ b'n' ∷ b'o' ∷ b'w' ∷ b'n' ∷ 0x20 ∷ b'c' ∷ b'o' ∷ b'm' ∷ b'm' ∷ b'a' ∷ b'n'
    ∷ b'd' ∷ []

-- `Result<Vec<u8>, String>`
pub data Reply : Type 0 where
  done : List ℕ → Reply
  failed : Str → Reply

-- What the server takes from the standard library and serde_json: the UTF-8 check, the vectors in a
-- JSON text or an error's message, and the JSON text of the vectors or an error's message.
pub record Json (F : Type 0) : Type 0 where
  pub is_utf8 : List ℕ → Bool
  pub read_vectors : List ℕ → Str ⊎ List (List F)
  pub write_vectors : List (List F) → Str ⊎ List ℕ

abbrev pub max_message : ℕ
max_message = 16 * 1024 * 1024

-- `write_response`
unfoldable pub response : ℕ → List ℕ → List ℕ
response code bytes = to_le_bytes 4 (1 + length bytes) ++ (code ∷ bytes)

unfoldable pub reply_bytes : Reply → List ℕ
unfolding response
reply_bytes (done bytes) = response 0x00 bytes
reply_bytes (failed message) = response 0xFF message

module _ {F N : Type 0} ⦃fl : Float F⦄ ⦃fn : Float N⦄ (lx : Lexis N) (wire : Wire F)
    (json : Json F) where
  unfoldable pub handle_search : IvfRabitqIndex F N → List ℕ → Panics Reply
  handle_search idx payload = elim (parse_search_payload wire payload) [
    | none ↦ some (failed search_format_text)
    | some request ↦ do
      results ← search lx idx request.1 request.0 none
      some (done (serialize_results wire results))
  ]

  -- The queries of a batch in order, each answered with the number of its results before them.
  unfoldable pub batch_loop :
      IvfRabitqIndex F N → SearchOptions → ℕ → ℕ → List ℕ → List ℕ → Panics Reply
  batch_loop idx options dim zero bytes out = some (done out)
  batch_loop idx options dim (suc n) bytes out = do
    assert (leb (dim * 4) (length bytes))
    elim (read_f32s wire (take (dim * 4) bytes) dim) [
      | none ↦ some (failed slice_mismatch_text)
      | some query ↦ do
        results ← search lx idx query options none
        batch_loop idx options dim n (drop (dim * 4) bytes)
            (out ++ (to_le_bytes 4 (length results) ++ serialize_results wire results))
    ]

  unfoldable pub handle_batch_search : IvfRabitqIndex F N → List ℕ → Panics Reply
  unfolding batch_loop
  handle_batch_search idx payload = elim (parse_batch_search_payload payload) [
    | none ↦ some (failed batch_format_text)
    | some request ↦ batch_loop idx request.0 request.1 request.2 request.3 []
  ]

  unfoldable pub handle_insert : IvfRabitqIndex F N → List ℕ → Panics (IvfRabitqIndex F N × Reply)
  handle_insert idx payload =
      let dim = read_le 0 4 payload in
      if ltb (length payload) 4
      then some (idx, failed insert_short_text)
      else if not (length payload == 4 + dim * 4)
      then some (idx, failed insert_mismatch_text)
      else elim (read_f32s wire (drop 4 payload) dim) [
        | none ↦ some (idx, failed slice_mismatch_text)
        | some vector ↦ do (next, id) ← add idx vector; some (next, done (to_le_bytes 8 id))
      ]

  unfoldable pub add_all : IvfRabitqIndex F N → List (List F) → Panics (IvfRabitqIndex F N)
  add_all idx [] = some idx
  add_all idx (v ∷ vs) = do (next, id) ← add idx v; add_all next vs

  unfoldable pub handle_import_json :
      IvfRabitqIndex F N → List ℕ → Panics (IvfRabitqIndex F N × Reply)
  unfolding add_all
  handle_import_json idx payload =
      if not (json.is_utf8 payload)
      then some (idx, failed invalid_utf8_text)
      else elim (json.read_vectors payload) [
        | inl message ↦ some (idx, failed message)
        | inr vectors ↦ do
          next ← add_all idx vectors
          some (next, done (to_le_bytes 8 (length vectors)))
      ]

  unfoldable pub handle_export_json : IvfRabitqIndex F N → Reply
  handle_export_json idx = elim (json.write_vectors idx.raw) [
    | inl message ↦ failed message
    | inr text ↦ done text
  ]

  -- The `match cmd`, with what it makes of the index.
  unfoldable pub handle : IvfRabitqIndex F N → ℕ → List ℕ → Panics (IvfRabitqIndex F N × Reply)
  unfolding handle_search handle_batch_search handle_insert handle_import_json handle_export_json
  handle idx cmd payload =
      if cmd == 0x01
      then some (idx, done [])
      else if cmd == 0x02
      then (do reply ← handle_search idx payload; some (idx, reply))
      else if cmd == 0x03
      then (do reply ← handle_batch_search idx payload; some (idx, reply))
      else if cmd == 0x04
      then handle_insert idx payload
      else if cmd == 0x05
      then handle_import_json idx payload
      else if cmd == 0x06
      then some (idx, handle_export_json idx)
      else some (idx, failed unknown_command_text)

  unfoldable pub handle_message : IvfRabitqIndex F N → List ℕ → Panics (IvfRabitqIndex F N × List ℕ)
  unfolding handle reply_bytes
  handle_message idx [] = none
  handle_message idx (cmd ∷ payload) = do
    (next, reply) ← handle idx cmd payload
    some (next, reply_bytes reply)

  -- The loop over the requests, by fuel: the bytes of the connection come in, the bytes of the
  -- answers go out. A writer that fails is not modelled.
  unfoldable pub connection_loop :
      ℕ → IvfRabitqIndex F N → List ℕ → Panics (IvfRabitqIndex F N × List ℕ)
  unfolding handle_message response
  connection_loop zero idx input = none
  connection_loop (suc fuel) idx input =
      let len = read_le 0 4 input in
      let message = take len (drop 4 input) in
      if ltb (length input) 4
      then some (idx, [])
      else if len == 0 || ltb max_message len
      then some (idx, response 0xFF [])
      else if ltb (length (drop 4 input)) len
      then some (idx, [])
      else (do
        (next, answer) ← handle_message idx message
        (final, answers) ← connection_loop fuel next (drop len (drop 4 input))
        some (final, answer ++ answers))
