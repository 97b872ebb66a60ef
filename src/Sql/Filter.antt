-- ===== src/Sql/Filter.antt =====
-- `parse_sql_filter` of src/sql.rs: the tokenizer, and then the parser.
use vdb_rs.Prelude.{refl, ◌⊎◌, inl, inr, ◌≡◌}
use vdb_rs.Prelude.Assoc.{Str}
use vdb_rs.Prelude.Float.{Float}
use vdb_rs.Sql.Predicate.{SqlPredicate, IsPlain}
use vdb_rs.Sql.Result.{SqlError, Result, ok, err, out_of_fuel, ◌>>=◌, Ensures, Ensures-bind}
use vdb_rs.Sql.Token.Lexer.{Lexis, tokenize}
use vdb_rs.Sql.Token.Total.{tokenize-Ensures}
use vdb_rs.Sql.Parser.{parse}
use vdb_rs.Sql.Parser.Total.{parse-Ensures}

module _ {N : Type 0} ⦃fl : Float N⦄ (lx : Lexis N) where
  unfoldable pub parse_sql_filter : Str → Result (SqlPredicate N)
  parse_sql_filter input = do tokens ← tokenize lx input; parse tokens

  parse_sql_filter-Ensures : (input : Str) → Ensures IsPlain (parse_sql_filter input)
  unfolding parse_sql_filter
  parse_sql_filter-Ensures input = Ensures-bind (tokenize-Ensures lx input) λ ts _. parse-Ensures ts

  answer :
      (r : Result (SqlPredicate N))
      → Ensures IsPlain r
      → ((pred : SqlPredicate N) × (r ≡ ok pred) × IsPlain pred) ⊎ ((e : SqlError) × (r ≡ err e))
  answer (ok pred) (Ensures.returns h) = inl (pred, refl, h)
  answer (err e) Ensures.fails = inr (e, refl)
  answer out_of_fuel h = elim h [ ]

  -- Every text is answered, with a predicate or with an error: neither loop runs on, and no input
  -- leaves the tokenizer or the parser without a result. A predicate that is returned has no
  -- Boolean literal, so `TRUE` and `FALSE` have become numbers.
  pub parse_sql_filter-total :
      (input : Str)
      → ((pred : SqlPredicate N) × (parse_sql_filter input ≡ ok pred) × IsPlain pred)
        ⊎ ((e : SqlError) × (parse_sql_filter input ≡ err e))
  parse_sql_filter-total input = answer (parse_sql_filter input) (parse_sql_filter-Ensures input)
