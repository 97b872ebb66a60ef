-- ===== src/Sql/Parser/Total.antt =====
-- The parser's fuel suffices for every input, and no predicate that it returns has a Boolean
-- literal.
use vdb_rs.Prelude.{
  ℕ, zero, suc, ◌+◌, ◌*◌, ◌≤◌, ◌<◌, ◌≡◌, ◌≢◌, List, [], ◌∷◌, ◌++◌, length, arith, All, All-append,
}
use vdb_rs.Prelude.Assoc.{Str}
use vdb_rs.Sql.Predicate.{ScalarValue, SqlPredicate, IsLiteral, IsPlain}
use vdb_rs.Sql.Result.{
  Result, ok, out_of_fuel, Ensures, returns, fails, Ensures-bind, value_of_Ensures, ne-out_of_fuel,
}
use vdb_rs.Sql.Token.{Token}
use vdb_rs.Sql.Parser.{
  expect_scalar, expect_ident, expect_lparen, expect_rparen, in_loop, parse_in, build,
  parse_operator, parse_test, parse_or, or_loop, parse_and, and_loop, parse_comparison, finish,
  parse,
}

module _ {N : Type 0} where
  -- A part read a value with `P` and left fewer than `n` tokens.
  abbrev Reads {ℓ} : {A : Type ℓ} → (A → Type 0) → ℕ → A × List (Token N) → Type 0
  Reads P n r = P r.0 × (length r.1 < n)

  weaken :
      {n m : ℕ} {r : Result (SqlPredicate N × List (Token N))}
      → n ≤ m
      → Ensures (Reads IsPlain n) r
      → Ensures (Reads IsPlain m) r
  weaken le (returns {a} (p, s)) = returns (p, omega arith)
  weaken le fails = fails

  expect_scalar-Ensures :
      (ts : List (Token N)) → Ensures (Reads IsLiteral (length ts)) (expect_scalar ts)
  unfolding expect_scalar
  expect_scalar-Ensures [] = fails
  expect_scalar-Ensures (Token.number v ∷ ts) = returns (tt, omega arith)
  expect_scalar-Ensures (Token.string v ∷ ts) = returns (tt, omega arith)
  expect_scalar-Ensures (_ ∷ ts) = fails

  expect_ident-Ensures :
      (ts : List (Token N)) → Ensures (Reads (λ s. Unit) (length ts)) (expect_ident ts)
  unfolding expect_ident
  expect_ident-Ensures [] = fails
  expect_ident-Ensures (Token.ident s ∷ ts) = returns (tt, omega arith)
  expect_ident-Ensures (_ ∷ ts) = fails

  expect_lparen-Ensures :
      (ts : List (Token N)) → Ensures (λ r. length r < length ts) (expect_lparen ts)
  unfolding expect_lparen
  expect_lparen-Ensures [] = fails
  expect_lparen-Ensures (Token.lparen ∷ ts) = returns (omega arith)
  expect_lparen-Ensures (_ ∷ ts) = fails

  expect_rparen-Ensures :
      (ts : List (Token N)) → Ensures (λ r. length r < length ts) (expect_rparen ts)
  unfolding expect_rparen
  expect_rparen-Ensures [] = fails
  expect_rparen-Ensures (Token.rparen ∷ ts) = returns (omega arith)
  expect_rparen-Ensures (_ ∷ ts) = fails

  in_loop-Ensures :
      (values : List (ScalarValue N)) (ts : List (Token N)) (n : ℕ)
      → All IsLiteral values
      → length ts < n
      → Ensures (Reads (All IsLiteral) n) (in_loop values ts)
  unfolding in_loop
  in_loop-Ensures values [] n h m = returns (h, m)
  in_loop-Ensures values (Token.comma ∷ []) n h m = fails
  in_loop-Ensures values (Token.comma ∷ Token.number v ∷ ts) n h m =
      in_loop-Ensures (values ++ ScalarValue.number v ∷ []) ts n
        (All-append IsLiteral values _ h (tt, tt)) (omega arith)
  in_loop-Ensures values (Token.comma ∷ Token.string v ∷ ts) n h m =
      in_loop-Ensures (values ++ ScalarValue.string v ∷ []) ts n
        (All-append IsLiteral values _ h (tt, tt)) (omega arith)
  in_loop-Ensures values (Token.comma ∷ _ ∷ ts) n h m = fails
  in_loop-Ensures values (_ ∷ ts) n h m = returns (h, m)

  parse_in-Ensures :
      (k : Str) (ts : List (Token N)) → Ensures (Reads IsPlain (length ts)) (parse_in k ts)
  unfolding parse_in
  parse_in-Ensures k ts = Ensures-bind (expect_lparen-Ensures ts) λ ts₁ h₁.
      Ensures-bind (expect_scalar-Ensures ts₁) λ (v, ts₂) (lit, h₂).
        Ensures-bind (in_loop-Ensures (v ∷ []) ts₂ (length ts₁) (lit, tt) h₂)
          λ (vs, ts₃) (lits, h₃).
            Ensures-bind (expect_rparen-Ensures ts₃) λ ts₄ h₄. returns (lits, omega arith)

  build-Ensures :
      (op : Token N) (k : Str) (v : ScalarValue N) → IsLiteral v → Ensures IsPlain (build op k v)
  unfolding build
  build-Ensures Token.eq k v h = returns h
  build-Ensures Token.ne k v h = returns h
  build-Ensures Token.lt k v h = returns h
  build-Ensures Token.le k v h = returns h
  build-Ensures Token.gt k v h = returns h
  build-Ensures Token.ge k v h = returns h
  build-Ensures _ k v h = fails

  parse_operator-Ensures :
      (k : Str) (ts : List (Token N)) → Ensures (Reads IsPlain (length ts)) (parse_operator k ts)
  unfolding parse_operator
  parse_operator-Ensures k [] = fails
  parse_operator-Ensures k (op ∷ ts) = Ensures-bind (expect_scalar-Ensures ts) λ (v, rest) (lit, h).
      Ensures-bind (build-Ensures op k v lit) λ pred plain. returns (plain, omega arith)

  parse_test-Ensures :
      (k : Str) (ts : List (Token N)) (n : ℕ)
      → length ts < n
      → Ensures (Reads IsPlain n) (parse_test k ts)
  unfolding parse_test
  parse_test-Ensures k (Token.in_word ∷ ts) n h = weaken (omega arith) (parse_in-Ensures k ts)
  parse_test-Ensures k [] n h = fails
  parse_test-Ensures k (t ∷ ts) n h = weaken (omega arith) (parse_operator-Ensures k (t ∷ ts))

  -- One induction on the fuel for the five functions. A call's fuel is above three times the
  -- tokens left, with one more for each level between `parse_comparison` and `parse_or`.
  mutual
    unfolding parse_or

    parse_or-Ensures :
        (f : ℕ) (ts : List (Token N))
        → 3 * length ts + 2 < f
        → Ensures (Reads IsPlain (length ts)) (parse_or f ts)
    parse_or-Ensures zero ts h = absurd (omega arith)
    parse_or-Ensures (suc f) ts h =
        Ensures-bind (parse_and-Ensures f ts (omega arith)) λ (left, rest) (plain, shorter).
          or_loop-Ensures f left rest (length ts) plain shorter (omega arith)

    or_loop-Ensures :
        (f : ℕ) (left : SqlPredicate N) (ts : List (Token N)) (n : ℕ)
        → IsPlain left
        → length ts < n
        → 3 * length ts < f
        → Ensures (Reads IsPlain n) (or_loop f left ts)
    or_loop-Ensures zero left ts n p s h = absurd (omega arith)
    or_loop-Ensures (suc f) left [] n p s h = returns (p, s)
    or_loop-Ensures (suc f) left (Token.or ∷ ts) n p s h =
        Ensures-bind (parse_and-Ensures f ts (omega arith)) λ (right, rest) (q, shorter).
          or_loop-Ensures f (SqlPredicate.or left right) rest n (p, q) (omega arith) (omega arith)
    or_loop-Ensures (suc f) left (_ ∷ ts) n p s h = returns (p, s)

    parse_and-Ensures :
        (f : ℕ) (ts : List (Token N))
        → 3 * length ts + 1 < f
        → Ensures (Reads IsPlain (length ts)) (parse_and f ts)
    parse_and-Ensures zero ts h = absurd (omega arith)
    parse_and-Ensures (suc f) ts h =
        Ensures-bind (parse_comparison-Ensures f ts (omega arith)) λ (left, rest) (plain, shorter).
          and_loop-Ensures f left rest (length ts) plain shorter (omega arith)

    and_loop-Ensures :
        (f : ℕ) (left : SqlPredicate N) (ts : List (Token N)) (n : ℕ)
        → IsPlain left
        → length ts < n
        → 3 * length ts < f
        → Ensures (Reads IsPlain n) (and_loop f left ts)
    and_loop-Ensures zero left ts n p s h = absurd (omega arith)
    and_loop-Ensures (suc f) left [] n p s h = returns (p, s)
    and_loop-Ensures (suc f) left (Token.and ∷ ts) n p s h =
        Ensures-bind (parse_comparison-Ensures f ts (omega arith)) λ (right, rest) (q, shorter).
          and_loop-Ensures f (SqlPredicate.and left right) rest n (p, q) (omega arith) (omega arith)
    and_loop-Ensures (suc f) left (_ ∷ ts) n p s h = returns (p, s)

    parse_comparison-Ensures :
        (f : ℕ) (ts : List (Token N))
        → 3 * length ts < f
        → Ensures (Reads IsPlain (length ts)) (parse_comparison f ts)
    parse_comparison-Ensures zero ts h = absurd (omega arith)
    parse_comparison-Ensures (suc f) (Token.lparen ∷ ts) h =
        Ensures-bind (parse_or-Ensures f ts (omega arith)) λ (inner, after) (plain, shorter).
          Ensures-bind (expect_rparen-Ensures after) λ rest less. returns (plain, omega arith)
    parse_comparison-Ensures (suc f) [] h =
        Ensures-bind (expect_ident-Ensures [])
          λ (k, rest) (_, shorter). parse_test-Ensures k rest 0 shorter
    parse_comparison-Ensures (suc f) (t ∷ ts) h =
        Ensures-bind (expect_ident-Ensures (t ∷ ts))
          λ (k, rest) (_, shorter). parse_test-Ensures k rest (length (t ∷ ts)) shorter

  finish-Ensures : (r : SqlPredicate N × List (Token N)) → IsPlain r.0 → Ensures IsPlain (finish r)
  unfolding finish
  finish-Ensures (expr, []) h = returns h
  finish-Ensures (expr, _ ∷ _) h = fails

  pub parse-Ensures : (ts : List (Token N)) → Ensures IsPlain (parse ts)
  unfolding parse
  parse-Ensures ts =
      Ensures-bind (parse_or-Ensures (3 * length ts + 3) ts (omega arith))
        λ r (plain, _). finish-Ensures r plain

  -- The parser answers every token list, with a predicate or with an error.
  pub parse-ne-out_of_fuel : (ts : List (Token N)) → parse ts ≢ out_of_fuel
  parse-ne-out_of_fuel ts = ne-out_of_fuel (parse-Ensures ts)

  pub parse-IsPlain :
      (ts : List (Token N)) {pred : SqlPredicate N} → parse ts ≡ ok pred → IsPlain pred
  parse-IsPlain ts h = value_of_Ensures (parse-Ensures ts) h
