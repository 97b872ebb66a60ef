-- ===== src/Sql/Eval.antt =====
-- `SqlPredicate::eval` of src/sql.rs, with `compare`, `value_partial_cmp` and `values_equal`.
use vdb_rs.Prelude.{Bool, true, false, not, ◌||◌, ◌&&◌, Option, none, some, Ordering, any}
use vdb_rs.Prelude.Assoc.{Str, string_eq, lookup, str_cmp, str_eq}
use vdb_rs.Prelude.Float.{Float, partial_cmp, feq}
use vdb_rs.Payload.{Value, Payload}
use vdb_rs.Sql.Predicate.{ScalarValue, SqlPredicate}

pub data OrderingPred : Type 0 where
  lt eq gt : OrderingPred

-- `ord == Some(Less)`, `Some(Equal)` or `Some(Greater)`.
unfoldable pub matches : OrderingPred → Option Ordering → Bool
matches OrderingPred.lt (some Ordering.lt) = true
matches OrderingPred.eq (some Ordering.eq) = true
matches OrderingPred.gt (some Ordering.gt) = true
matches _ _ = false

-- `Ord for bool`.
unfoldable pub bool_cmp : Bool → Bool → Ordering
bool_cmp false true = Ordering.lt
bool_cmp true false = Ordering.gt
bool_cmp _ _ = Ordering.eq

unfoldable pub bool_eq : Bool → Bool → Bool
bool_eq true true = true
bool_eq false false = true
bool_eq _ _ = false

module _ {N : Type 0} ⦃fl : Float N⦄ where
  unfoldable pub value_partial_cmp : Option (Value N) → ScalarValue N → Option Ordering
  value_partial_cmp (some (Value.number n)) (ScalarValue.number v) = partial_cmp n v
  value_partial_cmp (some (Value.string s)) (ScalarValue.string v) = some (str_cmp s v)
  value_partial_cmp (some (Value.bool b)) (ScalarValue.bool v) = some (bool_cmp b v)
  value_partial_cmp _ _ = none

  unfoldable pub values_equal : Option (Value N) → ScalarValue N → Bool
  values_equal (some (Value.number n)) (ScalarValue.number v) = feq n v
  values_equal (some (Value.string s)) (ScalarValue.string v) = str_eq s v
  values_equal (some (Value.bool b)) (ScalarValue.bool v) = bool_eq b v
  values_equal _ _ = false

  unfoldable pub compare : Payload N → Str → ScalarValue N → OrderingPred → Bool
  compare payload field value pred = matches pred (value_partial_cmp (lookup field payload) value)

  unfoldable pub eval : SqlPredicate N → Payload N → Bool
  eval (SqlPredicate.eq field value) p = compare p field value OrderingPred.eq
  eval (SqlPredicate.ne field value) p = not (compare p field value OrderingPred.eq)
  eval (SqlPredicate.lt field value) p = compare p field value OrderingPred.lt
  eval (SqlPredicate.le field value) p =
      compare p field value OrderingPred.lt || compare p field value OrderingPred.eq
  eval (SqlPredicate.gt field value) p = compare p field value OrderingPred.gt
  eval (SqlPredicate.ge field value) p =
      compare p field value OrderingPred.gt || compare p field value OrderingPred.eq
  eval (SqlPredicate.in_list field values) p = any (values_equal (lookup field p)) values
  eval (SqlPredicate.and a b) p = eval a p && eval b p
  eval (SqlPredicate.or a b) p = eval a p || eval b p
