-- ===== src/Sql/Pushdown/Partition.antt =====
-- The statistics that `update` builds for a partition cover each of its payloads.
use vdb_rs.Prelude.{ℕ, zero, suc, ◌≡◌, true, List, [], ◌∷◌, some, All, get_elem?, subst}
use vdb_rs.Prelude.Assoc.{string_eq}
use vdb_rs.Prelude.Float.{Float}
use vdb_rs.Payload.{Payload, IsFinitePayload}
use vdb_rs.Stats.{PartitionStats, new, update, update_all}
use vdb_rs.Stats.Covers.{
  IsRanged, new-IsRanged, update-IsRanged, update-keeps-CoversNumber, update-keeps-CoversString,
  update-CoversNumber, update-CoversString,
}
use vdb_rs.Sql.Predicate.{SqlPredicate}
use vdb_rs.Sql.Eval.{eval}
use vdb_rs.Sql.Pushdown.{can_partition_match}
use vdb_rs.Sql.Pushdown.Sound.{Covers, IsDecidable, can_partition_match_sound}

module _ {N : Type 0} ⦃fl : Float N⦄ where
  pub update-Covers :
      (st : PartitionStats N) (p : Payload N)
      → IsRanged st
      → IsFinitePayload p
      → Covers (update st p) p
  update-Covers st p h f = record {
    numbers = λ k n q. update-CoversNumber st p k n h f q;
    strings = λ k s q. update-CoversString st p k s q;
  }

  -- Later payloads take nothing back.
  pub update-keeps-Covers :
      (st : PartitionStats N) (p q : Payload N) → Covers st q → Covers (update st p) q
  update-keeps-Covers st p q c = record {
    numbers = λ k n h. update-keeps-CoversNumber st p k n (c.numbers k n h);
    strings = λ k s h. update-keeps-CoversString st p k s (c.strings k s h);
  }

  update_all-keeps-Covers :
      (st : PartitionStats N) (ps : List (Payload N)) (q : Payload N)
      → Covers st q
      → Covers (update_all st ps) q
  unfolding update_all
  update_all-keeps-Covers st [] q c = c
  update_all-keeps-Covers st (p ∷ ps) q c =
      update_all-keeps-Covers (update st p) ps q (update-keeps-Covers st p q c)

  update_all-Covers_from :
      (st : PartitionStats N) (ps : List (Payload N)) (i : ℕ) (q : Payload N)
      → IsRanged st
      → All IsFinitePayload ps
      → get_elem? ps i ≡ some q
      → Covers (update_all st ps) q
  unfolding update_all
  update_all-Covers_from st [] i q h f e = cc
  update_all-Covers_from st (p ∷ ps) zero q h f e =
      let same : p ≡ q = cc in
      update_all-keeps-Covers (update st p) ps q
        (subst (λ x. Covers (update st p) x) same (update-Covers st p h f.0))
  update_all-Covers_from st (p ∷ ps) (suc i) q h f e =
      update_all-Covers_from (update st p) ps i q (update-IsRanged st p h) f.1 e

  pub update_all-Covers :
      (ps : List (Payload N)) (i : ℕ) (q : Payload N)
      → All IsFinitePayload ps
      → get_elem? ps i ≡ some q
      → Covers (update_all new ps) q
  update_all-Covers ps i q f e = update_all-Covers_from new ps i q new-IsRanged f e

  -- Let `ps` be the payloads of a partition, all their numbers finite, and let the statistics that
  -- `update` builds from them be complete for the fields that the predicate decides by strings. If
  -- some payload of the partition passes the predicate, the partition is not skipped.
  pub can_partition_match-update_all :
      (pred : SqlPredicate N) (ps : List (Payload N)) (i : ℕ) (p : Payload N)
      → All IsFinitePayload ps
      → IsDecidable pred (update_all new ps)
      → get_elem? ps i ≡ some p
      → eval pred p ≡ true
      → can_partition_match pred (update_all new ps) ≡ true
  can_partition_match-update_all pred ps i p f d e h =
      can_partition_match_sound (update_all new ps) p (update_all-Covers ps i p f e) pred d h
