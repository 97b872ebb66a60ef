-- ===== src/Tests/Saved.antt =====
-- An index of one vector, for the theorems on saving and loading.
use vdb_rs.Prelude.{
  ℕ, ◌<◌, ◌≡◌, refl, sym, subst, ◌∙◌, List, [], ◌∷◌, Option, none, some, length, replicate, take,
  true, arith, All,
}
use vdb_rs.Prelude.Bytes.{to_le_bytes}
use vdb_rs.Prelude.Pieces.{join}
use vdb_rs.Prelude.Wire.{f32_bytes}
use vdb_rs.Payload.{Payload}
use vdb_rs.Stats.{new as stats_new}
use vdb_rs.Quantizer.{RabitqConfig, RabitqCode, RabitqConfig_new}
use vdb_rs.Index.Defs.{IvfRabitqIndex}
use vdb_rs.Index.Add.{IsValid}
use vdb_rs.Index.Rebuild.{Holds}
use vdb_rs.Storage.Fields.{read_le, le_fields}
use vdb_rs.Storage.Header.{serialize_meta}
use vdb_rs.Storage.Io.{Io}
use vdb_rs.Storage.Save.{PayloadJson, magic, entry_bytes, save_index}
use vdb_rs.Storage.Layout.{metas_from, sections, image, save_index-image}
use vdb_rs.Storage.Storable.{IsStorable, length-image}
use vdb_rs.Storage.Load.{load_index, load_index_mmap}
use vdb_rs.Storage.Reload.{load_index-save_index, load_index_mmap-load_index}
use vdb_rs.Storage.Rejects.{load_index-verify_checksum_streaming}
use vdb_rs.Storage.Checksum.{verify_checksum_streaming}
use vdb_rs.Tests.Number.{Number, number_float}
use vdb_rs.Tests.Tiny.{Tiny, tiny_float, tiny_wire}

-- Lists of empty payloads, as the byte of their length.
abbrev of_text : List ℕ → Option (List (Payload Number))
of_text (n ∷ []) = some (replicate n [])
of_text _ = none

abbrev pub counted : PayloadJson Number
counted = record { to_vec = λ payloads. some (length payloads ∷ []); from_slice = of_text }

abbrev pub config : RabitqConfig Tiny
config = record { dim = 64; num_bits = 4; epsilon_0 = Tiny.one }

abbrev vector : List Tiny
vector = replicate 64 Tiny.one

abbrev code : RabitqCode Tiny
code = record { bits = replicate 8 255; alpha = Tiny.one; beta = Tiny.none }

abbrev pub index : IvfRabitqIndex Tiny Number
index = record {
  config = config;
  quantizer = record { config = config; rotation = replicate 4096 Tiny.none };
  centroids = vector ∷ [];
  rotated_centroids = vector ∷ [];
  rotated_centroid_norms_sq = Tiny.one ∷ [];
  partitions = ((0, code) ∷ []) ∷ [];
  raw = vector ∷ [];
  payloads = [] ∷ [];
  partition_stats = stats_new ∷ [];
  sq8 = [];
  id_to_partition = 0 ∷ [];
  sq8_dirty = true;
  next_id = 1;
}

save_index-image_example :
    save_index tiny_wire counted index ≡ Io.ok (image tiny_wire index (1 ∷ []))
save_index-image_example = save_index-image tiny_wire counted index (1 ∷ []) refl

total : length (join (sections tiny_wire index (1 ∷ []))) ≡ 16945
unfolding f32_bytes to_le_bytes entry_bytes metas_from serialize_meta le_fields
total = refl

pub index-IsValid : IsValid index
index-IsValid = record {
  same_dim = refl;
  some_partition = omega arith;
  centroid_count = refl;
  stats_count = refl;
  centroid_dims = (refl, tt);
  vector_dims = (refl, tt);
  payload_count = refl;
  id_count = refl;
  next_count = refl;
}

pub index-IsStorable : IsStorable tiny_wire index (1 ∷ [])
index-IsStorable = record {
  multiple = refl;
  dim_fits = omega arith;
  partitions_fit = omega arith;
  count_fits = omega arith;
  next_fits = omega arith;
  rotation_size = refl;
  centroid_count = refl;
  centroid_dims = (refl, tt);
  vector_dims = (refl, tt);
  entries = (((omega arith, refl), tt), tt);
  code_bytes = ((bytes, tt), tt);
  payload_some = omega arith;
  payload_IsBytes = (omega arith, tt);
  size_fits = omega (arith, length-image tiny_wire index (1 ∷ []), total);
}
  where
    bytes : All (λ b. b < 256) (replicate 8 255)
    bytes = let b : 255 < 256 = omega arith in (b, (b, (b, (b, (b, (b, (b, (b, tt))))))))

pub config_of_dim : RabitqConfig_new 64 ≡ some config
unfolding RabitqConfig_new
config_of_dim = refl

pub ids : All (All (λ e. e.0 < 1)) index.partitions
ids = ((omega arith, tt), tt)

load_index-save_index_example :
    (file : List ℕ) × (loaded : IvfRabitqIndex Tiny Number) × (save_index tiny_wire counted index
      ≡ Io.ok file)
    × (load_index tiny_wire counted file ≡ Io.ok loaded)
    × IsValid loaded
    × Holds loaded config index.quantizer index.centroids index.partitions index.raw index.payloads
        1
load_index-save_index_example =
    load_index-save_index tiny_wire counted index (1 ∷ []) index-IsValid index-IsStorable
      config_of_dim ids refl refl

opened : save_index tiny_wire counted index ≡ Io.ok (image tiny_wire index (1 ∷ []))
opened = save_index-image tiny_wire counted index (1 ∷ []) refl

load_index_mmap-load_index_example :
    load_index_mmap tiny_wire counted 20000 (image tiny_wire index (1 ∷ []))
    ≡ load_index tiny_wire counted (image tiny_wire index (1 ∷ []))
load_index_mmap-load_index_example =
    load_index_mmap-load_index tiny_wire counted index (1 ∷ []) (image tiny_wire index (1 ∷ []))
      20000 index-IsStorable refl refl opened
      (omega (arith, length-image tiny_wire index (1 ∷ []), total))

-- The file that the index is saved in, as `load_index` accepts it.
accepted :
    (loaded : IvfRabitqIndex Tiny Number) × (load_index tiny_wire counted
        (image tiny_wire index (1 ∷ []))
      ≡ Io.ok loaded)
accepted =
    let (file, loaded, saved, found, valid, same) =
      load_index-save_index tiny_wire counted index (1 ∷ []) index-IsValid index-IsStorable
        config_of_dim ids refl refl in
    let equal : Io.ok file ≡ Io.ok (image tiny_wire index (1 ∷ [])) = sym saved ∙ opened in
    let file_equal : file ≡ image tiny_wire index (1 ∷ []) = cc in
    (loaded, subst (λ f. load_index tiny_wire counted f ≡ Io.ok loaded) file_equal found)

load_index-verify_checksum_streaming_example :
    (take 8 (image tiny_wire index (1 ∷ [])) ≡ magic)
    × (read_le 8 4 (image tiny_wire index (1 ∷ [])) ≡ 1)
    × (verify_checksum_streaming 4096
          (read_le 132 8 (image tiny_wire index (1 ∷ [])))
          (image tiny_wire index (1 ∷ []))
        ≡ some true)
load_index-verify_checksum_streaming_example =
    load_index-verify_checksum_streaming tiny_wire counted 4096 (image tiny_wire index (1 ∷ []))
      accepted.0 (omega arith) (omega (arith, length-image tiny_wire index (1 ∷ []), total))
      accepted.1
