-- ===== src/Sql/Predicate.antt =====
-- `SqlPredicate` and `ScalarValue` of src/sql.rs.
use vdb_rs.Prelude.{Bool, List, All}
use vdb_rs.Prelude.Assoc.{Str}

pub data ScalarValue (N : Type 0) : Type 0 where
  number : N → ScalarValue N
  string : Str → ScalarValue N
  bool : Bool → ScalarValue N

pub data SqlPredicate (N : Type 0) : Type 0 where
  eq ne lt le gt ge : Str → ScalarValue N → SqlPredicate N
  in_list : Str → List (ScalarValue N) → SqlPredicate N
  and or : SqlPredicate N → SqlPredicate N → SqlPredicate N

module _ {N : Type 0} where
  abbrev pub IsLiteral : ScalarValue N → Type 0
  IsLiteral (ScalarValue.bool b) = ⊥
  IsLiteral _ = Unit

  -- No literal of the predicate is a Boolean.
  abbrev pub IsPlain : SqlPredicate N → Type 0
  IsPlain (SqlPredicate.eq k v) = IsLiteral v
  IsPlain (SqlPredicate.ne k v) = IsLiteral v
  IsPlain (SqlPredicate.lt k v) = IsLiteral v
  IsPlain (SqlPredicate.le k v) = IsLiteral v
  IsPlain (SqlPredicate.gt k v) = IsLiteral v
  IsPlain (SqlPredicate.ge k v) = IsLiteral v
  IsPlain (SqlPredicate.in_list k values) = All IsLiteral values
  IsPlain (SqlPredicate.and a b) = IsPlain a × IsPlain b
  IsPlain (SqlPredicate.or a b) = IsPlain a × IsPlain b
