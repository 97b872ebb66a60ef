-- ===== src/Vdb/Defs.antt =====
-- `Database` of src/vdb.rs. Its locks let one writer in at a time, so an operation takes the state
-- and returns the next one; a result that is an error comes with the state that the error leaves.
-- Of a save that fails nothing is said to be on the disk.
use vdb_rs.Prelude.{
  ℕ, suc, ◌-◌, Bool, ◌&&◌, not, List, [], ◌∷◌, ◌++◌, Option, none, some, length, take, drop, leb,
  if◌then◌else◌, ◌==◌,
}
use vdb_rs.Prelude.Assoc.{Str, str_eq, string_eq, lookup}
use vdb_rs.Prelude.Float.{Float}
use vdb_rs.Prelude.Panic.{Panics}
use vdb_rs.Prelude.Wire.{Wire}
use vdb_rs.Payload.{Payload}
use vdb_rs.Index.Defs.{IvfRabitqIndex, new, add_with_payload}
use vdb_rs.Storage.Io.{Io, IoError, ◌>>=◌, or_err, or_panic}
use vdb_rs.Storage.Save.{PayloadJson, save_index}
use vdb_rs.Storage.Load.{load_index}
use vdb_rs.Vdb.Disk.{Disk, DiskOp, apply_all}
use vdb_rs.Sql.Token.Lexer.{Lexis}
use vdb_rs.Search.{SearchOptions, search}

pub record Manifest : Type 0 where
  pub version : ℕ
  pub index_file : Str

pub record Stats : Type 0 where
  pub version : ℕ
  pub num_vectors : ℕ
  pub num_partitions : ℕ

pub record Database (F N : Type 0) : Type 0 where
  pub index : IvfRabitqIndex F N
  pub disk : Disk
  pub manifest : Manifest

-- What the database takes from the standard library and serde_json: the decimal digits of a
-- version, and the JSON text of a manifest, `none` for an error.
pub record Texts : Type 0 where
  pub decimal : ℕ → Str
  pub to_vec_pretty : Manifest → Option (List ℕ)
  pub from_str : List ℕ → Option Manifest

abbrev pub manifest_name : Str
manifest_name =
    b'm' ∷ b'a' ∷ b'n' ∷ b'i' ∷ b'f' ∷ b'e' ∷ b's' ∷ b't' ∷ b'.' ∷ b'j' ∷ b's' ∷ b'o' ∷ b'n' ∷ []

abbrev pub tmp_name : Str
tmp_name = manifest_name ++ (b'.' ∷ b't' ∷ b'm' ∷ b'p' ∷ [])

abbrev pub index_prefix : Str
index_prefix = b'i' ∷ b'n' ∷ b'd' ∷ b'e' ∷ b'x' ∷ b'-' ∷ []

abbrev pub index_suffix : Str
index_suffix = b'.' ∷ b'v' ∷ b'd' ∷ b'b' ∷ []

unfoldable pub starts_with : Str → Str → Bool
starts_with name prefix = str_eq (take (length prefix) name) prefix

unfoldable pub ends_with : Str → Str → Bool
ends_with name suffix =
    leb (length suffix) (length name) && str_eq (drop (length name - length suffix) name) suffix

-- The loop of `compact` over the directory: what is left, and how many files were removed.
unfoldable pub compact_loop : Str → Disk → Disk × ℕ
unfolding starts_with ends_with
compact_loop keep [] = ([], 0)
compact_loop keep ((name, bytes) ∷ rest) =
    let later = compact_loop keep rest in
    if starts_with name index_prefix && ends_with name index_suffix && not (str_eq name keep)
    then (later.0, suc later.1)
    else ((name, bytes) ∷ later.0, later.1)

module _ {F N : Type 0} where
  unfoldable pub stats : Database F N → Stats
  stats db = record {
    version = db.manifest.version;
    num_vectors = length db.index.raw;
    num_partitions = length db.index.partitions;
  }

  unfoldable pub compact : Database F N → Database F N × ℕ
  unfolding compact_loop
  compact db =
      let left = compact_loop db.manifest.index_file db.disk in
      (record db { disk = left.0 }, left.1)

module _ {F N : Type 0} where
  -- `*manifest = new_manifest`, after a save that succeeded.
  unfoldable pub set_manifest :
      Manifest → Database F N → Io (Unit {0}) → Database F N × Io (Unit {0})
  set_manifest manifest saved (Io.err e) = (saved, Io.err e)
  set_manifest manifest saved Io.panic = (saved, Io.panic)
  set_manifest manifest saved (Io.ok u) = (record saved { manifest = manifest }, Io.ok u)

module _ (texts : Texts) where
  -- `format!("index-{}.vdb", version)`, and the manifest with it.
  unfoldable pub manifest_of : ℕ → Manifest
  manifest_of version = record {
    version = version;
    index_file = index_prefix ++ (texts.decimal version ++ index_suffix);
  }

  -- `write_manifest`: the changes it makes.
  unfoldable pub write_manifest : Manifest → Io (List DiskOp)
  write_manifest manifest = do
    content ← or_err IoError.invalid_data (texts.to_vec_pretty manifest)
    Io.ok (DiskOp.write tmp_name content ∷ DiskOp.rename tmp_name manifest_name ∷ [])

  unfoldable pub read_manifest : Disk → Io Manifest
  read_manifest disk = do
    content ← or_err IoError.not_found (lookup manifest_name disk)
    or_err IoError.invalid_data (texts.from_str content)

  module _ {F N : Type 0} (wire : Wire F) (json : PayloadJson N) where
    -- `save_index_file`: the write of the index under the manifest's name.
    unfoldable pub save_index_file : IvfRabitqIndex F N → Manifest → Io (List DiskOp)
    save_index_file index manifest = do
      bytes ← save_index wire json index
      Io.ok (DiskOp.write manifest.index_file bytes ∷ [])

    -- Saving the index and then the manifest: the changes to the directory, in order, up to an error.
    unfoldable pub save_changes : IvfRabitqIndex F N → Manifest → List DiskOp × Io (Unit {0})
    unfolding save_index_file write_manifest
    save_changes index manifest = elim (save_index_file index manifest) [
      | Io.err e ↦ ([], Io.err e)
      | Io.panic ↦ ([], Io.panic)
      | Io.ok ops ↦ elim (write_manifest manifest) [
        | Io.err e ↦ (ops, Io.err e)
        | Io.panic ↦ (ops, Io.panic)
        | Io.ok more ↦ (ops ++ more, Io.ok tt)
      ]
    ]

    unfoldable pub save_version : Manifest → Database F N → Database F N × Io (Unit {0})
    unfolding save_changes set_manifest
    save_version manifest db =
        let out = save_changes db.index manifest in
        set_manifest manifest (record db { disk = apply_all out.0 db.disk }) out.1

    unfoldable pub save_and_bump : Database F N → Database F N × Io (Unit {0})
    unfolding save_version manifest_of
    save_and_bump db = save_version (manifest_of (suc db.manifest.version)) db

    module _ ⦃fl : Float F⦄ ⦃fn : Float N⦄ where
      -- The random rotation of the new index is an argument.
      unfoldable pub create : List F → ℕ → Disk → Io (Database F N)
      unfolding save_version manifest_of
      create rotation dim disk = do
        index ← or_panic (new rotation dim)
        let manifest = manifest_of 0
        let saved =
            save_version manifest (record { index = index; disk = disk; manifest = manifest })
        saved.1 >>= λ _. Io.ok saved.0

      unfoldable pub open_database : Disk → Io (Database F N)
      unfolding read_manifest
      open_database disk = do
        manifest ← read_manifest disk
        bytes ← or_err IoError.not_found (lookup manifest.index_file disk)
        index ← load_index wire json bytes
        Io.ok (record { index = index; disk = disk; manifest = manifest })

      -- A panic poisons the locks: nobody sees the state again.
      unfoldable pub insert_with_payload : Database F N → List F → Payload N → Database F N × Io ℕ
      unfolding save_and_bump
      insert_with_payload db vector payload = elim (add_with_payload db.index vector payload) [
        | none ↦ (db, Io.panic)
        | some (index, id) ↦
            let saved = save_and_bump (record db { index = index }) in
            (saved.0, saved.1 >>= λ _. Io.ok id)
      ]

      unfoldable pub insert_one : Database F N → List F → Database F N × Io ℕ
      unfolding insert_with_payload
      insert_one db vector = insert_with_payload db vector []

-- The loop of `batch_insert_with_payload` over the pairs, with the first identifier.
module _ {F N : Type 0} ⦃fl : Float F⦄ ⦃fn : Float N⦄ where
  unfoldable pub insert_pairs :
      IvfRabitqIndex F N
      → Option ℕ
      → List (List F)
      → List (Payload N)
      → Panics (IvfRabitqIndex F N × Option ℕ)
  insert_pairs index first [] payloads = some (index, first)
  insert_pairs index first (v ∷ vectors) [] = some (index, first)
  insert_pairs index first (v ∷ vectors) (p ∷ payloads) = elim (add_with_payload index v p) [
    | none ↦ none
    | some (next, id) ↦
        insert_pairs next (elim first [ none ↦ some id | some i ↦ some i ]) vectors payloads
  ]

module _ (texts : Texts) {F N : Type 0} (wire : Wire F) (json : PayloadJson N) where
  module _ ⦃fl : Float F⦄ ⦃fn : Float N⦄ where
    unfoldable pub batch_insert_with_payload :
        Database F N → List (List F) → List (Payload N) → Database F N × Io ℕ
    unfolding insert_pairs save_and_bump
    batch_insert_with_payload db vectors payloads =
        if length vectors == length payloads
        then (elim (insert_pairs db.index none vectors payloads) [
          | none ↦ (db, Io.panic)
          | some (index, first) ↦
              let saved = save_and_bump texts wire json (record db { index = index }) in
              (saved.0, saved.1 >>= λ _. Io.ok (elim first [ none ↦ 0 | some id ↦ id ]))
        ])
        else (db, Io.panic)

module _ {F N : Type 0} ⦃fl : Float F⦄ ⦃fn : Float N⦄ (lx : Lexis N) where
  -- `search`, without a pool of threads; `none` is a panic.
  unfoldable pub search_database : Database F N → List F → SearchOptions → Panics (List (ℕ × F))
  search_database db query options = search lx db.index query options none
