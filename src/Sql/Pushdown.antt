-- ===== src/Sql/Pushdown.antt =====
-- `can_partition_match` of src/sql.rs: whether a partition can hold a payload that a predicate
-- accepts, decided on the partition's statistics.
pub mod Sound
pub mod Partition
pub mod Gaps
use vdb_rs.Prelude.{Bool, true, false, ◌||◌, ◌&&◌, List, [], ◌∷◌, Option, none, some, any}
use vdb_rs.Prelude.Assoc.{Str, string_eq, lookup, contains}
use vdb_rs.Prelude.Float.{Float, flt, fle}
use vdb_rs.Stats.{PartitionStats}
use vdb_rs.Sql.Predicate.{ScalarValue, SqlPredicate}

module _ {N : Type 0} ⦃fl : Float N⦄ where
  -- The test of an `IN` value against a known set of strings, and against a range of numbers.
  unfoldable pub in_set : List Str → ScalarValue N → Bool
  in_set set (ScalarValue.string s) = contains set s
  in_set set _ = false

  unfoldable pub in_range : N × N → ScalarValue N → Bool
  in_range r (ScalarValue.number n) = fle r.0 n && fle n r.1
  in_range r _ = false

  unfoldable pub can_partition_match : SqlPredicate N → PartitionStats N → Bool
  unfolding in_set in_range
  can_partition_match (SqlPredicate.eq field (ScalarValue.number v)) st =
      elim (lookup field st.num_ranges) [ some r ↦ fle r.0 v && fle v r.1 | none ↦ true ]
  can_partition_match (SqlPredicate.eq field (ScalarValue.string v)) st =
      elim (lookup field st.string_values) [ some set ↦ contains set v | none ↦ true ]
  can_partition_match (SqlPredicate.ne _ _) st = true
  can_partition_match (SqlPredicate.lt field (ScalarValue.number v)) st =
      elim (lookup field st.num_ranges) [ some r ↦ flt r.0 v | none ↦ true ]
  can_partition_match (SqlPredicate.le field (ScalarValue.number v)) st =
      elim (lookup field st.num_ranges) [ some r ↦ fle r.0 v | none ↦ true ]
  can_partition_match (SqlPredicate.gt field (ScalarValue.number v)) st =
      elim (lookup field st.num_ranges) [ some r ↦ flt v r.1 | none ↦ true ]
  can_partition_match (SqlPredicate.ge field (ScalarValue.number v)) st =
      elim (lookup field st.num_ranges) [ some r ↦ fle v r.1 | none ↦ true ]
  can_partition_match (SqlPredicate.in_list field values) st =
      elim (lookup field st.string_values) [
        | some set ↦ any (in_set set) values
        | none ↦ elim (lookup field st.num_ranges) [
          | some r ↦ any (in_range r) values
          | none ↦ true
        ]
      ]
  can_partition_match (SqlPredicate.and a b) st =
      can_partition_match a st && can_partition_match b st
  can_partition_match (SqlPredicate.or a b) st =
      can_partition_match a st || can_partition_match b st
  can_partition_match _ st = true
