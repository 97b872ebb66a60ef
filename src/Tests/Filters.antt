-- ===== src/Tests/Filters.antt =====
-- Predicates, payloads and texts for the theorems on src/sql.rs and the statistics.
use vdb_rs.Prelude.{
  ◌⊎◌, ℕ, ◌-◌, ◌<◌, ◌≤◌, ◌≡◌, refl, Bool, true, false, List, [], ◌∷◌, ◌++◌, Option, none, some,
  replicate, arith, subst, leb, ◌&&◌, ◌||◌, ◌==◌, length,
}
use vdb_rs.Prelude.Assoc.{Str, string_eq, str_eq, str_cmp, lookup, insert, contains}
use vdb_rs.Payload.{Value, Payload, as_f64, as_str}
use vdb_rs.Stats.{PartitionStats, new, update, update_entry, update_all, add_string, max_strings}
use vdb_rs.Stats.Covers.{IsBounded, update-IsBounded}
use vdb_rs.Sql.Predicate.{ScalarValue, SqlPredicate, IsPlain}
use vdb_rs.Sql.Eval.{eval, compare, value_partial_cmp, matches}
use vdb_rs.Sql.Pushdown.{can_partition_match}
use vdb_rs.Sql.Pushdown.Partition.{can_partition_match-update_all}
use vdb_rs.Sql.Pushdown.Gaps.{full_set_skips_match, mixed_field_skips_match}
use vdb_rs.Sql.Result.{SqlError, err, ok}
use vdb_rs.Sql.Token.{Token}
use vdb_rs.Sql.Token.Lexer.{Lexis, tokenize}
use vdb_rs.Sql.Token.Total.{tokenize-quoted}
use vdb_rs.Sql.Parser.{parse}
use vdb_rs.Sql.Parser.RoundTrip.{emit, parse-emit, parse-precedence}
use vdb_rs.Sql.Filter.{parse_sql_filter, parse_sql_filter-total}
use vdb_rs.Tests.Number.{Number, number_float}

abbrev color : Str
color = b'c' ∷ []

abbrev year : Str
year = b'y' ∷ []

abbrev red : Str
red = b'r' ∷ []

abbrev red_old : Payload Number
red_old = (color, Value.string red) ∷ (year, Value.number (Number.num 7)) ∷ []

abbrev red_new : Payload Number
red_new = (color, Value.string red) ∷ (year, Value.number (Number.num 9)) ∷ []

-- `c = 'r' AND y < 8`
abbrev old_reds : SqlPredicate Number
old_reds =
    SqlPredicate.and (SqlPredicate.eq color (ScalarValue.string red))
      (SqlPredicate.lt year (ScalarValue.number (Number.num 8)))

abbrev late : SqlPredicate Number
late = SqlPredicate.in_list year (ScalarValue.number (Number.num 9) ∷ [])

-- The set of the colours holds one string.
room :
    (set : List Str)
    → lookup color (update_all new (red_new ∷ red_old ∷ [])).string_values ≡ some set
    → length set < max_strings
unfolding update_all update update_entry add_string contains lookup insert str_eq as_f64 as_str new
room set h = let e : red ∷ [] ≡ set = cc in subst (λ x. length x < max_strings) e (omega arith)

accepted : eval old_reds red_old ≡ true
unfolding eval compare value_partial_cmp matches lookup str_eq str_cmp
accepted = refl

can_partition_match-update_all_example :
    can_partition_match old_reds (update_all new (red_new ∷ red_old ∷ [])) ≡ true
can_partition_match-update_all_example =
    can_partition_match-update_all old_reds (red_new ∷ red_old ∷ []) 1 red_old
      ((tt, (refl, tt)), ((tt, (refl, tt)), tt)) (room, tt) refl accepted

parse-emit_example : parse (emit old_reds) ≡ ok old_reds
parse-emit_example = parse-emit old_reds (tt, tt)

parse-precedence_example :
    (parse (emit late ++ Token.and ∷ (emit old_reds ++ Token.or ∷ emit late))
      ≡ ok (SqlPredicate.or (SqlPredicate.and late old_reds) late))
    × (parse (emit late ++ Token.or ∷ (emit old_reds ++ Token.and ∷ emit late))
        ≡ ok (SqlPredicate.or late (SqlPredicate.and old_reds late)))
parse-precedence_example = parse-precedence late old_reds late ((tt, tt), (tt, tt), (tt, tt))

-- The classes of the ASCII characters, and numbers of one digit.
abbrev is_letter : ℕ → Bool
is_letter c = (leb b'a' c && leb c b'z') || (leb b'A' c && leb c b'Z')

abbrev is_letter_or_digit : ℕ → Bool
is_letter_or_digit c = is_letter c || (leb b'0' c && leb c b'9')

abbrev one_digit : Str → Option Number
one_digit (d ∷ []) = some (Number.num (d - b'0'))
one_digit _ = none

letter_alphanumeric : (c : ℕ) → is_letter c ≡ true → is_letter_or_digit c ≡ true
letter_alphanumeric c h = ground arith

pub ascii_lexis : Lexis Number
ascii_lexis = record {
  is_whitespace = λ c. c == 0x20;
  is_alphabetic = is_letter;
  is_alphanumeric = is_letter_or_digit;
  parse_f64 = one_digit;
  alphabetic-alphanumeric = letter_alphanumeric;
}

-- `'OR "x'`
abbrev or_quote : Str
or_quote = b'O' ∷ b'R' ∷ 0x20 ∷ 0x22 ∷ b'x' ∷ []

tokenize-quoted_example :
    tokenize ascii_lexis (b'\'' ∷ (or_quote ++ b'\'' ∷ [])) ≡ ok (Token.string or_quote ∷ [])
unfolding ascii_lexis
tokenize-quoted_example = tokenize-quoted ascii_lexis b'\'' or_quote refl refl refl

parse_sql_filter-total_example :
    ((pred : SqlPredicate Number) × (parse_sql_filter ascii_lexis or_quote ≡ ok pred)
      × IsPlain pred)
    ⊎ ((e : SqlError) × (parse_sql_filter ascii_lexis or_quote ≡ err e))
parse_sql_filter-total_example = parse_sql_filter-total ascii_lexis or_quote

-- A set of colours that is full.
abbrev full : PartitionStats Number
full = record { num_ranges = []; string_values = (color, replicate 64 year) ∷ [] }

full_lookup : lookup color full.string_values ≡ some (replicate 64 year)
unfolding lookup str_eq
full_lookup = refl

full_absent : contains (replicate 64 year) red ≡ false
unfolding contains str_eq
full_absent = refl

full_set_skips_match_example :
    (eval {N = Number}
        (SqlPredicate.eq color (ScalarValue.string red))
        ((color, Value.string red) ∷ [])
      ≡ true)
    × (can_partition_match
          (SqlPredicate.eq color (ScalarValue.string red))
          (update full ((color, Value.string red) ∷ []))
        ≡ false)
full_set_skips_match_example =
    full_set_skips_match full color red (replicate 64 year) full_lookup (omega arith) full_absent

mixed_field_skips_match_example :
    (eval
        (SqlPredicate.in_list color (ScalarValue.number (Number.num 5) ∷ []))
        ((color, Value.number (Number.num 5)) ∷ [])
      ≡ true)
    × (can_partition_match
          (SqlPredicate.in_list color (ScalarValue.number (Number.num 5) ∷ []))
          (update full ((color, Value.number (Number.num 5)) ∷ []))
        ≡ false)
mixed_field_skips_match_example =
    mixed_field_skips_match full color (Number.num 5) (replicate 64 year) full_lookup refl

new-IsBounded : IsBounded (new {N = Number})
unfolding new lookup
new-IsBounded k set h = cc

red_old_colors : lookup color (update new red_old).string_values ≡ some (red ∷ [])
unfolding update update_entry add_string contains lookup insert str_eq as_f64 as_str new
red_old_colors = refl

update-IsBounded_example : length (red ∷ []) ≤ max_strings
update-IsBounded_example =
    update-IsBounded new red_old new-IsBounded color (red ∷ []) red_old_colors
