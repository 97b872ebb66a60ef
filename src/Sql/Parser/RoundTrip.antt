-- ===== src/Sql/Parser/RoundTrip.antt =====
-- A predicate printed as tokens parses back, and the grouping of a chain without parentheses.
use vdb_rs.Prelude.{
  ℕ, zero, suc, ◌+◌, ◌*◌, ◌≤◌, ◌<◌, ◌≡◌, refl, List, [], ◌∷◌, ◌++◌, length, length-append, arith,
  All, append-nil, append_assoc,
}
use vdb_rs.Prelude.Assoc.{Str}
use vdb_rs.Sql.Predicate.{ScalarValue, SqlPredicate, IsLiteral}
use vdb_rs.Sql.Result.{ok}
use vdb_rs.Sql.Token.{Token}
use vdb_rs.Sql.Parser.{
  expect_scalar, expect_ident, expect_lparen, expect_rparen, in_loop, parse_in, build,
  parse_operator, parse_test, parse_or, or_loop, and_loop, parse_comparison, parse,
}

module _ {N : Type 0} where
  -- A Boolean has no literal; it is printed as nothing, and `IsPrintable` excludes it.
  emit_scalar : ScalarValue N → List (Token N)
  emit_scalar (ScalarValue.number v) = Token.number v ∷ []
  emit_scalar (ScalarValue.string s) = Token.string s ∷ []
  emit_scalar (ScalarValue.bool b) = []

  emit_more : List (ScalarValue N) → List (Token N)
  unfolding emit_scalar
  emit_more [] = []
  emit_more (v ∷ vs) = Token.comma ∷ (emit_scalar v ++ emit_more vs)

  emit_list : List (ScalarValue N) → List (Token N)
  unfolding emit_more
  emit_list [] = []
  emit_list (v ∷ vs) = emit_scalar v ++ emit_more vs

  -- `AND` and `OR` are printed in parentheses.
  pub emit : SqlPredicate N → List (Token N)
  unfolding emit_list
  emit (SqlPredicate.eq k v) = Token.ident k ∷ Token.eq ∷ emit_scalar v
  emit (SqlPredicate.ne k v) = Token.ident k ∷ Token.ne ∷ emit_scalar v
  emit (SqlPredicate.lt k v) = Token.ident k ∷ Token.lt ∷ emit_scalar v
  emit (SqlPredicate.le k v) = Token.ident k ∷ Token.le ∷ emit_scalar v
  emit (SqlPredicate.gt k v) = Token.ident k ∷ Token.gt ∷ emit_scalar v
  emit (SqlPredicate.ge k v) = Token.ident k ∷ Token.ge ∷ emit_scalar v
  emit (SqlPredicate.in_list k vs) =
      Token.ident k ∷ Token.in_word ∷ Token.lparen ∷ (emit_list vs ++ Token.rparen ∷ [])
  emit (SqlPredicate.and a b) = Token.lparen ∷ (emit a ++ Token.and ∷ (emit b ++ Token.rparen ∷ []))
  emit (SqlPredicate.or a b) = Token.lparen ∷ (emit a ++ Token.or ∷ (emit b ++ Token.rparen ∷ []))

  -- The predicates that the grammar can write: no Boolean literal, no empty `IN` list.
  abbrev pub IsPrintable : SqlPredicate N → Type 0
  IsPrintable (SqlPredicate.eq k v) = IsLiteral v
  IsPrintable (SqlPredicate.ne k v) = IsLiteral v
  IsPrintable (SqlPredicate.lt k v) = IsLiteral v
  IsPrintable (SqlPredicate.le k v) = IsLiteral v
  IsPrintable (SqlPredicate.gt k v) = IsLiteral v
  IsPrintable (SqlPredicate.ge k v) = IsLiteral v
  IsPrintable (SqlPredicate.in_list k []) = ⊥
  IsPrintable (SqlPredicate.in_list k (v ∷ vs)) = IsLiteral v × All IsLiteral vs
  IsPrintable (SqlPredicate.and a b) = IsPrintable a × IsPrintable b
  IsPrintable (SqlPredicate.or a b) = IsPrintable a × IsPrintable b

  expect_scalar-emit :
      (v : ScalarValue N) (rest : List (Token N))
      → IsLiteral v
      → expect_scalar (emit_scalar v ++ rest) ≡ ok (v, rest)
  unfolding expect_scalar emit_scalar
  expect_scalar-emit (ScalarValue.number v) rest h = refl
  expect_scalar-emit (ScalarValue.string v) rest h = refl
  expect_scalar-emit (ScalarValue.bool v) rest h = absurd h

  in_loop-emit :
      (done vs : List (ScalarValue N)) (rest : List (Token N))
      → All IsLiteral vs
      → in_loop done (emit_more vs ++ Token.rparen ∷ rest) ≡ ok (done ++ vs, Token.rparen ∷ rest)
  unfolding in_loop emit_more
  in_loop-emit done [] rest h = rw append-nil
  in_loop-emit done (ScalarValue.number v ∷ vs) rest h =
      simp (in_loop-emit (done ++ ScalarValue.number v ∷ []) vs rest h.1, append_assoc)
  in_loop-emit done (ScalarValue.string v ∷ vs) rest h =
      simp (in_loop-emit (done ++ ScalarValue.string v ∷ []) vs rest h.1, append_assoc)
  in_loop-emit done (ScalarValue.bool v ∷ vs) rest h = absurd h.0

  parse_in-emit :
      (k : Str) (v : ScalarValue N) (vs : List (ScalarValue N)) (rest : List (Token N))
      → IsLiteral v
      → All IsLiteral vs
      → parse_in k (Token.lparen ∷ (emit_scalar v ++ (emit_more vs ++ Token.rparen ∷ rest)))
        ≡ ok (SqlPredicate.in_list k (v ∷ vs), rest)
  unfolding parse_in expect_lparen expect_rparen emit_list
  parse_in-emit k v vs rest h hs = simp (
    expect_scalar-emit v (emit_more vs ++ Token.rparen ∷ rest) h,
    in_loop-emit (v ∷ []) vs rest hs,
  )

  -- The loops stop at a closing parenthesis and at the end.
  data Stops : List (Token N) → Type 0 where
    at_end : Stops []
    at_rparen : (ts : List (Token N)) → Stops (Token.rparen ∷ ts)

  or_loop-Stops :
      (f : ℕ) (left : SqlPredicate N) {ts : List (Token N)}
      → Stops ts
      → or_loop (suc f) left ts ≡ ok (left, ts)
  unfolding or_loop
  or_loop-Stops f left at_end = refl
  or_loop-Stops f left (at_rparen ts) = refl

  and_loop-Stops :
      (f : ℕ) (left : SqlPredicate N) {ts : List (Token N)}
      → Stops ts
      → and_loop (suc f) left ts ≡ ok (left, ts)
  unfolding and_loop
  and_loop-Stops f left at_end = refl
  and_loop-Stops f left (at_rparen ts) = refl

  depth : SqlPredicate N → ℕ
  depth (SqlPredicate.and a b) = suc (depth a + depth b)
  depth (SqlPredicate.or a b) = suc (depth a + depth b)
  depth _ = 0

  -- Two comparisons joined by `AND`, and by `OR`, before a place where the loops stop.
  parse_or-and :
      (f : ℕ) (a b : SqlPredicate N) (ts us : List (Token N)) {rest : List (Token N)}
      → Stops rest
      → parse_comparison (suc (suc f)) ts ≡ ok (a, Token.and ∷ us)
      → parse_comparison (suc f) us ≡ ok (b, rest)
      → parse_or (suc (suc (suc (suc f)))) ts ≡ ok (SqlPredicate.and a b, rest)
  unfolding parse_or
  parse_or-and f a b ts us s p q =
      rw (p, q, and_loop-Stops f (SqlPredicate.and a b) s)
        (or_loop-Stops (suc (suc f)) (SqlPredicate.and a b) s)

  parse_or-or :
      (f : ℕ) (a b : SqlPredicate N) (ts us : List (Token N)) {rest : List (Token N)}
      → Stops rest
      → parse_comparison (suc (suc f)) ts ≡ ok (a, Token.or ∷ us)
      → parse_comparison (suc f) us ≡ ok (b, rest)
      → parse_or (suc (suc (suc (suc f)))) ts ≡ ok (SqlPredicate.or a b, rest)
  unfolding parse_or
  parse_or-or f a b ts us s p q =
      rw (p, q, and_loop-Stops f b s) (or_loop-Stops (suc f) (SqlPredicate.or a b) s)

  -- A printed predicate is read off the front of any input by `parse_comparison`.
  parse_comparison-emit :
      (pred : SqlPredicate N) (f : ℕ) (rest : List (Token N))
      → IsPrintable pred
      → 4 * depth pred < f
      → parse_comparison f (emit pred ++ rest) ≡ ok (pred, rest)
  unfolding parse_comparison emit depth expect_ident expect_rparen parse_test parse_operator build
  parse_comparison-emit pred zero rest p h = absurd (omega arith)
  parse_comparison-emit (SqlPredicate.eq k v) (suc f) rest p h = rw (expect_scalar-emit v rest p)
  parse_comparison-emit (SqlPredicate.ne k v) (suc f) rest p h = rw (expect_scalar-emit v rest p)
  parse_comparison-emit (SqlPredicate.lt k v) (suc f) rest p h = rw (expect_scalar-emit v rest p)
  parse_comparison-emit (SqlPredicate.le k v) (suc f) rest p h = rw (expect_scalar-emit v rest p)
  parse_comparison-emit (SqlPredicate.gt k v) (suc f) rest p h = rw (expect_scalar-emit v rest p)
  parse_comparison-emit (SqlPredicate.ge k v) (suc f) rest p h = rw (expect_scalar-emit v rest p)
  parse_comparison-emit (SqlPredicate.in_list k []) (suc f) rest p h = absurd p
  parse_comparison-emit (SqlPredicate.in_list k (v ∷ vs)) (suc f) rest p h =
      simp append_assoc (parse_in-emit k v vs rest p.0 p.1)
  parse_comparison-emit (SqlPredicate.and a b) (suc (suc (suc (suc (suc f))))) rest p h =
      simp append_assoc (
        rw (
          parse_or-and f a b _ _ (at_rparen rest)
            (parse_comparison-emit a (suc (suc f)) _ p.0 (omega arith))
            (parse_comparison-emit b (suc f) _ p.1 (omega arith))))
  parse_comparison-emit (SqlPredicate.or a b) (suc (suc (suc (suc (suc f))))) rest p h =
      simp append_assoc (
        rw (
          parse_or-or f a b _ _ (at_rparen rest)
            (parse_comparison-emit a (suc (suc f)) _ p.0 (omega arith))
            (parse_comparison-emit b (suc f) _ p.1 (omega arith))))
  parse_comparison-emit (SqlPredicate.and a b) (suc f) rest p h = absurd (omega arith)
  parse_comparison-emit (SqlPredicate.or a b) (suc f) rest p h = absurd (omega arith)

  tokens_append : (xs ys : List (Token N)) → length (xs ++ ys) ≡ length xs + length ys
  tokens_append xs ys = length-append xs ys

  depth-le : (pred : SqlPredicate N) → 4 * depth pred ≤ 3 * length (emit pred)
  unfolding emit depth
  depth-le (SqlPredicate.and a b) = omega (arith, tokens_append, depth-le a, depth-le b)
  depth-le (SqlPredicate.or a b) = omega (arith, tokens_append, depth-le a, depth-le b)
  depth-le _ = omega arith

  comparison_alone :
      (pred : SqlPredicate N) (f : ℕ)
      → IsPrintable pred
      → 4 * depth pred < suc f
      → parse_comparison (suc f) (emit pred) ≡ ok (pred, [])
  comparison_alone pred f p h = rw append-nil at (parse_comparison-emit pred (suc f) [] p h)

  parse_or-emit :
      (pred : SqlPredicate N) (f : ℕ)
      → IsPrintable pred
      → 4 * depth pred < suc f
      → parse_or (suc (suc (suc f))) (emit pred) ≡ ok (pred, [])
  unfolding parse_or
  parse_or-emit pred f p h =
      rw (comparison_alone pred f p h, and_loop-Stops f pred at_end)
        (or_loop-Stops (suc f) pred at_end)

  -- What `parse_or` reads whole with the fuel that `parse` gives it, `parse` returns.
  parse_of_parse_or :
      (ts : List (Token N)) (pred : SqlPredicate N) (f : ℕ)
      → f ≡ 3 * length ts + 3
      → parse_or f ts ≡ ok (pred, [])
      → parse ts ≡ ok pred
  unfolding parse
  parse_of_parse_or ts pred f e h = rw (← e, h)

  -- A printable predicate that is printed as tokens parses back to itself.
  pub parse-emit : (pred : SqlPredicate N) → IsPrintable pred → parse (emit pred) ≡ ok pred
  parse-emit pred p =
      parse_of_parse_or (emit pred) pred (suc (suc (suc (3 * length (emit pred))))) (omega arith)
        (parse_or-emit pred (3 * length (emit pred)) p (omega (arith, depth-le pred)))

  or_of_and_first :
      (a b c : SqlPredicate N) (f : ℕ)
      → IsPrintable a × IsPrintable b × IsPrintable c
      → 4 * (depth a + depth b + depth c) < suc f
      → parse_or
          (suc (suc (suc (suc (suc (suc f))))))
          (emit a ++ Token.and ∷ (emit b ++ Token.or ∷ emit c))
        ≡ ok (SqlPredicate.or (SqlPredicate.and a b) c, [])
  unfolding parse_or
  or_of_and_first a b c f p h = rw (
    parse_comparison-emit a (suc (suc (suc (suc f)))) _ p.0 (omega arith),
    parse_comparison-emit b (suc (suc (suc f))) (Token.or ∷ emit c) p.1 (omega arith),
    comparison_alone c (suc (suc f)) p.2 (omega arith),
  )

  or_of_and_last :
      (a b c : SqlPredicate N) (f : ℕ)
      → IsPrintable a × IsPrintable b × IsPrintable c
      → 4 * (depth a + depth b + depth c) < suc f
      → parse_or
          (suc (suc (suc (suc (suc (suc f))))))
          (emit a ++ Token.or ∷ (emit b ++ Token.and ∷ emit c))
        ≡ ok (SqlPredicate.or a (SqlPredicate.and b c), [])
  unfolding parse_or
  or_of_and_last a b c f p h = rw (
    parse_comparison-emit a (suc (suc (suc (suc f)))) _ p.0 (omega arith),
    parse_comparison-emit b (suc (suc (suc f))) (Token.and ∷ emit c) p.1 (omega arith),
    comparison_alone c (suc f) p.2 (omega arith),
  )

  -- Without parentheses `AND` binds more tightly than `OR`, on either side: for printable `a`, `b`
  -- and `c`, the tokens of `a AND b OR c` parse to `(a AND b) OR c`, and those of `a OR b AND c`
  -- to `a OR (b AND c)`.
  pub parse-precedence :
      (a b c : SqlPredicate N)
      → IsPrintable a × IsPrintable b × IsPrintable c
      → (parse (emit a ++ Token.and ∷ (emit b ++ Token.or ∷ emit c))
          ≡ ok (SqlPredicate.or (SqlPredicate.and a b) c))
        × (parse (emit a ++ Token.or ∷ (emit b ++ Token.and ∷ emit c))
            ≡ ok (SqlPredicate.or a (SqlPredicate.and b c)))
  parse-precedence a b c p =
      let n = 3 * (length (emit a) + length (emit b) + length (emit c)) + 3 in
      let bound : 4 * (depth a + depth b + depth c) < suc n =
        omega (arith, depth-le a, depth-le b, depth-le c) in
      (
        parse_of_parse_or _ _ (suc (suc (suc (suc (suc (suc n)))))) (omega (arith, tokens_append))
            (or_of_and_first a b c n p bound),
        parse_of_parse_or _ _ (suc (suc (suc (suc (suc (suc n)))))) (omega (arith, tokens_append))
            (or_of_and_last a b c n p bound),
      )
