-- ===== src/Sql/Parser.antt =====
-- `Parser` of src/sql.rs by recursive descent. `tokens[pos..]` is the list of the tokens left, and
-- a function returns what it read with the tokens left after it.
pub mod Total
pub mod RoundTrip
use vdb_rs.Prelude.{ℕ, zero, suc, ◌+◌, ◌*◌, List, [], ◌∷◌, ◌++◌, length}
use vdb_rs.Prelude.Assoc.{Str}
use vdb_rs.Sql.Predicate.{ScalarValue, SqlPredicate}
use vdb_rs.Sql.Result.{
  Result, ok, err, out_of_fuel, ◌>>=◌, expected_operator, expected_comparison, expected_scalar,
  expected_ident, trailing_tokens, expected_lparen, expected_rparen,
}
use vdb_rs.Sql.Token.{Token}

module _ {N : Type 0} where
  unfoldable pub expect_scalar : List (Token N) → Result (ScalarValue N × List (Token N))
  expect_scalar (Token.number v ∷ ts) = ok (ScalarValue.number v, ts)
  expect_scalar (Token.string s ∷ ts) = ok (ScalarValue.string s, ts)
  expect_scalar _ = err expected_scalar

  unfoldable pub expect_ident : List (Token N) → Result (Str × List (Token N))
  expect_ident (Token.ident s ∷ ts) = ok (s, ts)
  expect_ident _ = err expected_ident

  unfoldable pub expect_lparen : List (Token N) → Result (List (Token N))
  expect_lparen (Token.lparen ∷ ts) = ok ts
  expect_lparen _ = err expected_lparen

  unfoldable pub expect_rparen : List (Token N) → Result (List (Token N))
  expect_rparen (Token.rparen ∷ ts) = ok ts
  expect_rparen _ = err expected_rparen

  -- The `while` of the `IN` list: a comma and a scalar, as often as there is a comma.
  unfoldable pub in_loop :
      List (ScalarValue N) → List (Token N) → Result (List (ScalarValue N) × List (Token N))
  in_loop values (Token.comma ∷ Token.number v ∷ ts) =
      in_loop (values ++ ScalarValue.number v ∷ []) ts
  in_loop values (Token.comma ∷ Token.string s ∷ ts) =
      in_loop (values ++ ScalarValue.string s ∷ []) ts
  in_loop values (Token.comma ∷ _) = err expected_scalar
  in_loop values ts = ok (values, ts)

  unfoldable pub parse_in : Str → List (Token N) → Result (SqlPredicate N × List (Token N))
  parse_in field ts = do
    after_paren ← expect_lparen ts
    (first, after_first) ← expect_scalar after_paren
    (values, after_values) ← in_loop (first ∷ []) after_first
    rest ← expect_rparen after_values
    ok (SqlPredicate.in_list field values, rest)

  -- The `match op` at the end of `parse_comparison`.
  unfoldable pub build : Token N → Str → ScalarValue N → Result (SqlPredicate N)
  build Token.eq field value = ok (SqlPredicate.eq field value)
  build Token.ne field value = ok (SqlPredicate.ne field value)
  build Token.lt field value = ok (SqlPredicate.lt field value)
  build Token.le field value = ok (SqlPredicate.le field value)
  build Token.gt field value = ok (SqlPredicate.gt field value)
  build Token.ge field value = ok (SqlPredicate.ge field value)
  build _ field value = err expected_comparison

  unfoldable pub parse_operator : Str → List (Token N) → Result (SqlPredicate N × List (Token N))
  unfolding expect_scalar build
  parse_operator field [] = err expected_operator
  parse_operator field (op ∷ ts) = do
    (value, rest) ← expect_scalar ts
    pred ← build op field value
    ok (pred, rest)

  -- What follows the field name.
  unfoldable pub parse_test : Str → List (Token N) → Result (SqlPredicate N × List (Token N))
  unfolding parse_in parse_operator
  parse_test field (Token.in_word ∷ ts) = parse_in field ts
  parse_test field ts = parse_operator field ts

  unfoldable mutual
    pub parse_or : ℕ → List (Token N) → Result (SqlPredicate N × List (Token N))
    parse_or zero ts = out_of_fuel
    parse_or (suc f) ts = do (left, rest) ← parse_and f ts; or_loop f left rest

    pub or_loop : ℕ → SqlPredicate N → List (Token N) → Result (SqlPredicate N × List (Token N))
    or_loop zero left ts = out_of_fuel
    or_loop (suc f) left (Token.or ∷ ts) = do
      (right, rest) ← parse_and f ts
      or_loop f (SqlPredicate.or left right) rest
    or_loop (suc f) left ts = ok (left, ts)

    pub parse_and : ℕ → List (Token N) → Result (SqlPredicate N × List (Token N))
    parse_and zero ts = out_of_fuel
    parse_and (suc f) ts = do (left, rest) ← parse_comparison f ts; and_loop f left rest

    pub and_loop : ℕ → SqlPredicate N → List (Token N) → Result (SqlPredicate N × List (Token N))
    and_loop zero left ts = out_of_fuel
    and_loop (suc f) left (Token.and ∷ ts) = do
      (right, rest) ← parse_comparison f ts
      and_loop f (SqlPredicate.and left right) rest
    and_loop (suc f) left ts = ok (left, ts)

    pub parse_comparison : ℕ → List (Token N) → Result (SqlPredicate N × List (Token N))
    parse_comparison zero ts = out_of_fuel
    parse_comparison (suc f) (Token.lparen ∷ ts) = do
      (inner, after) ← parse_or f ts
      rest ← expect_rparen after
      ok (inner, rest)
    parse_comparison (suc f) ts = do (field, rest) ← expect_ident ts; parse_test field rest

  unfoldable pub finish : SqlPredicate N × List (Token N) → Result (SqlPredicate N)
  finish (expr, []) = ok expr
  finish (expr, _ ∷ _) = err trailing_tokens

  -- `Parser::parse`. The fuel is three calls for each token, and three more.
  unfoldable pub parse : List (Token N) → Result (SqlPredicate N)
  unfolding finish
  parse ts = parse_or (3 * length ts + 3) ts >>= finish
