-- ===== src/Index/Restored.antt =====
-- What `from_parts` computes again.
use vdb_rs.Prelude.Float.{Float}
use vdb_rs.Payload.{Payload}
use vdb_rs.Stats.{new as stats_new}
