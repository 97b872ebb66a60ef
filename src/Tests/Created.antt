-- ===== src/Tests/Created.antt =====
-- A database of vectors of 64 coordinates that has just been created.
use vdb_rs.Prelude.{◌≡◌, refl, List, [], ◌∷◌, some, length, replicate, arith, false, false}
use vdb_rs.Prelude.Bytes.{to_le_bytes}
use vdb_rs.Prelude.Pieces.{join}
use vdb_rs.Prelude.Wire.{f32_bytes}
use vdb_rs.Stats.{new as stats_new}
use vdb_rs.Quantizer.{RabitqConfig_new}
use vdb_rs.Index.Defs.{IvfRabitqIndex, new}
use vdb_rs.Index.Sq8.{Sq8Data_new}
use vdb_rs.Index.Add.{IsValid}
use vdb_rs.Storage.Fields.{le_fields}
use vdb_rs.Storage.Header.{serialize_meta}
use vdb_rs.Storage.Io.{Io}
use vdb_rs.Storage.Save.{entry_bytes}
use vdb_rs.Storage.Layout.{sections, metas_from}
use vdb_rs.Storage.Storable.{IsStorable, length-image}
use vdb_rs.Vdb.Defs.{Database, manifest_of, create, open_database}
use vdb_rs.Vdb.Create.{open_database-create}
use vdb_rs.Tests.Number.{Number, number_float}
use vdb_rs.Tests.Tiny.{Tiny, tiny_float, tiny_wire}
use vdb_rs.Tests.Saved.{counted, config}
use vdb_rs.Tests.Opened.{strokes, content}

abbrev rotation : List Tiny
rotation = replicate 4096 Tiny.none

abbrev origin : List Tiny
origin = replicate 64 Tiny.none

abbrev empty : IvfRabitqIndex Tiny Number
empty = record {
  config = config;
  quantizer = record { config = config; rotation = rotation };
  centroids = replicate 4 origin;
  rotated_centroids = replicate 4 origin;
  rotated_centroid_norms_sq = replicate 4 Tiny.none;
  partitions = replicate 4 [];
  raw = [];
  payloads = [];
  partition_stats = replicate 4 stats_new;
  sq8 = replicate 4 (Sq8Data_new 64);
  id_to_partition = [];
  sq8_dirty = false;
  next_id = 0;
}

new-empty : new rotation 64 ≡ some empty
unfolding new RabitqConfig_new
new-empty = refl

total : length (join (sections tiny_wire empty (0 ∷ []))) ≡ 17505
unfolding f32_bytes to_le_bytes entry_bytes metas_from serialize_meta le_fields
total = refl

empty-IsStorable : IsStorable tiny_wire empty (0 ∷ [])
empty-IsStorable = record {
  multiple = refl;
  dim_fits = omega arith;
  partitions_fit = omega arith;
  count_fits = omega arith;
  next_fits = omega arith;
  rotation_size = refl;
  centroid_count = refl;
  centroid_dims = (refl, (refl, (refl, (refl, tt))));
  vector_dims = tt;
  entries = (tt, (tt, (tt, (tt, tt))));
  code_bytes = (tt, (tt, (tt, (tt, tt))));
  payload_some = omega arith;
  payload_IsBytes = (omega arith, tt);
  size_fits = omega (arith, length-image tiny_wire empty (0 ∷ []), total);
}

open_database-create_example :
    (db : Database Tiny Number) × (loaded : IvfRabitqIndex Tiny Number) × (create strokes tiny_wire
        counted rotation 64 []
      ≡ Io.ok db)
    × (open_database strokes tiny_wire counted db.disk ≡ Io.ok (record db { index = loaded }))
    × (db.manifest ≡ manifest_of strokes 0)
    × IsValid loaded
    × (loaded.config.dim ≡ 64)
    × (loaded.quantizer.rotation ≡ rotation)
    × (loaded.raw ≡ [])
    × (loaded.payloads ≡ [])
    × (loaded.partitions ≡ replicate 4 [])
unfolding manifest_of
open_database-create_example =
    open_database-create strokes tiny_wire counted rotation 64 [] empty (0 ∷ []) (content 0)
      new-empty empty-IsStorable refl refl refl refl
