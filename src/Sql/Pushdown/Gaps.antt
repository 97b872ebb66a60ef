-- ===== src/Sql/Pushdown/Gaps.antt =====
-- Where `can_partition_match` skips a partition that holds a matching payload: a string beyond the
-- limit of the set, and a number in a field that also has strings.
use vdb_rs.Prelude.{◌≤◌, ◌≡◌, true, false, List, [], ◌∷◌, some, length, arith}
use vdb_rs.Prelude.Assoc.{Str, string_eq, lookup, lookup-insert, contains, eq_refl, str_cmp-eq_iff}
use vdb_rs.Prelude.Float.{Float}
use vdb_rs.Payload.{Value, Payload}
use vdb_rs.Stats.{PartitionStats, max_strings, add_string, update, update_entry}
use vdb_rs.Sql.Predicate.{ScalarValue, SqlPredicate}
use vdb_rs.Sql.Eval.{eval, compare, value_partial_cmp, values_equal, matches}
use vdb_rs.Sql.Pushdown.{can_partition_match}

module _ {N : Type 0} ⦃fl : Float N⦄ where
  -- Once the set of a field is full and lacks `s`, a payload with `s` in the field goes into the
  -- partition, passes the test for equality with `s`, and the partition is skipped all the same.
  pub full_set_skips_match :
      (st : PartitionStats N) (k s : Str) (set : List Str)
      → lookup k st.string_values ≡ some set
      → max_strings ≤ length set
      → contains set s ≡ false
      → let p : Payload N = (k, Value.string s) ∷ [] in
        (eval (SqlPredicate.eq k (ScalarValue.string s)) p ≡ true)
        × (can_partition_match (SqlPredicate.eq k (ScalarValue.string s)) (update st p) ≡ false)
  unfolding eval compare value_partial_cmp matches can_partition_match update update_entry lookup
      add_string
  full_set_skips_match st k s set e full absent = (
    ground (arith, eq_refl k, str_cmp-eq_iff s s),
    ground (arith, eq_refl k, lookup-insert k k set st.string_values),
  )

  -- Once a field has a string set, a payload with a number in the field passes `IN` of that
  -- number, and the partition is skipped all the same.
  pub mixed_field_skips_match :
      (st : PartitionStats N) (k : Str) (n : N) (set : List Str)
      → lookup k st.string_values ≡ some set
      → fl.is_nan n ≡ false
      → let p : Payload N = (k, Value.number n) ∷ [] in
        let pred = SqlPredicate.in_list k (ScalarValue.number n ∷ []) in
        (eval pred p ≡ true) × (can_partition_match pred (update st p) ≡ false)
  unfolding eval values_equal can_partition_match update update_entry lookup
  mixed_field_skips_match st k n set e o = (ground (arith, eq_refl k), ground arith)
