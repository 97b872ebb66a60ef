-- ===== src/Sql/Token/Lexer.antt =====
-- `tokenize` of src/sql.rs. `chars[i..]` is the list of the characters left.
use vdb_rs.Prelude.{
  ℕ, zero, suc, ◌-◌, ◌≡◌, Bool, true, false, not, ◌&&◌, ◌||◌, List, [], ◌∷◌, ◌++◌, map, Option,
  none, some, length, leb, if◌then◌else◌, ◌==◌,
}
use vdb_rs.Prelude.Assoc.{Str, str_eq}
use vdb_rs.Prelude.Float.{Float}
use vdb_rs.Sql.Result.{
  Result, ok, err, out_of_fuel, ◌>>=◌, unterminated_string, bad_number, unexpected_char,
}
use vdb_rs.Sql.Token.{Token}

-- What the tokenizer takes from the standard library: Unicode's classes of characters, of which
-- the alphanumeric one holds the alphabetic one, and `str::parse::<f64>`.
pub record Lexis (N : Type 0) : Type 0 where
  pub is_whitespace : ℕ → Bool
  pub is_alphabetic : ℕ → Bool
  pub is_alphanumeric : ℕ → Bool
  pub parse_f64 : Str → Option N
  pub alphabetic-alphanumeric : (c : ℕ) → is_alphabetic c ≡ true → is_alphanumeric c ≡ true

-- The characters up to the first that fails the test, and the rest.
unfoldable pub span : (ℕ → Bool) → Str → Str × Str
span p [] = ([], [])
span p (c ∷ cs) = let (s, rest) = span p cs in if p c then (c ∷ s, rest) else ([], c ∷ cs)

unfoldable pub is_ascii_digit : ℕ → Bool
is_ascii_digit c = leb b'0' c && leb c b'9'

unfoldable pub to_ascii_uppercase : Str → Str
to_ascii_uppercase = map (λ c. if leb b'a' c && leb c b'z' then c - 32 else c)

abbrev pub is_quote : ℕ → Bool
is_quote c = c == b'\'' || c == 0x22

-- `chars[i + 1].is_ascii_digit()`, false at the end.
unfoldable pub next_is_digit : Str → Bool
next_is_digit [] = false
next_is_digit (c ∷ cs) = is_ascii_digit c

-- The tests of `match two.as_str()`.
abbrev pub is_ne_sign : ℕ → ℕ → Bool
is_ne_sign c d = (c == b'!' && d == b'=') || (c == b'<' && d == b'>')

abbrev pub is_le_sign : ℕ → ℕ → Bool
is_le_sign c d = c == b'<' && d == b'='

abbrev pub is_ge_sign : ℕ → ℕ → Bool
is_ge_sign c d = c == b'>' && d == b'='

abbrev pub starts_number : ℕ → Str → Bool
starts_number c cs = is_ascii_digit c || (c == b'-' && next_is_digit cs)

abbrev pub is_number_char : ℕ → Bool
is_number_char c = is_ascii_digit c || c == b'.'

module _ {N : Type 0} ⦃fl : Float N⦄ (lx : Lexis N) where
  -- One token, or none for a space, with the characters left.
  unfoldable pub close_string : Str × Str → Result (Option (Token N) × Str)
  close_string (s, []) = err unterminated_string
  close_string (s, _ ∷ rest) = ok (some (Token.string s), rest)

  unfoldable pub read_number : Str → Str × Str → Result (Option (Token N) × Str)
  read_number sign (digits, rest) = elim (lx.parse_f64 (sign ++ digits)) [
    | none ↦ err (bad_number (sign ++ digits))
    | some v ↦ ok (some (Token.number v), rest)
  ]

  unfoldable pub keyword : Str → Token N
  unfolding to_ascii_uppercase
  keyword s =
      let upper = to_ascii_uppercase s in
      if str_eq upper (b'A' ∷ b'N' ∷ b'D' ∷ [])
      then Token.and
      else if str_eq upper (b'O' ∷ b'R' ∷ [])
      then Token.or
      else if str_eq upper (b'I' ∷ b'N' ∷ [])
      then Token.in_word
      else if str_eq upper (b'T' ∷ b'R' ∷ b'U' ∷ b'E' ∷ [])
      then Token.number (fl.of_ℕ 1)
      else if str_eq upper (b'F' ∷ b'A' ∷ b'L' ∷ b'S' ∷ b'E' ∷ [])
      then Token.number (fl.of_ℕ 0)
      else Token.ident s

  unfoldable pub read_word : Str × Str → Result (Option (Token N) × Str)
  unfolding keyword
  read_word (s, rest) = ok (some (keyword s), rest)

  -- The operators of one character.
  unfoldable pub read_single : ℕ → Str → Result (Option (Token N) × Str)
  read_single c cs =
      if c == b'='
      then ok (some Token.eq, cs)
      else if c == b'<'
      then ok (some Token.lt, cs)
      else if c == b'>'
      then ok (some Token.gt, cs)
      else if c == b'('
      then ok (some Token.lparen, cs)
      else if c == b')'
      then ok (some Token.rparen, cs)
      else if c == b','
      then ok (some Token.comma, cs)
      else err (unexpected_char c)

  -- The operators of two characters come first.
  unfoldable pub read_operator : ℕ → Str → Result (Option (Token N) × Str)
  unfolding read_single
  read_operator c [] = read_single c []
  read_operator c (d ∷ cs) =
      if is_ne_sign c d
      then ok (some Token.ne, cs)
      else if is_le_sign c d
      then ok (some Token.le, cs)
      else if is_ge_sign c d
      then ok (some Token.ge, cs)
      else read_single c (d ∷ cs)

  abbrev pub starts_word : ℕ → Bool
  starts_word c = lx.is_alphabetic c || c == b'_'

  abbrev pub is_word_char : ℕ → Bool
  is_word_char c = lx.is_alphanumeric c || c == b'_' || c == b'.'

  -- One round of the outer `while`, at the character `c`.
  unfoldable pub step : ℕ → Str → Result (Option (Token N) × Str)
  unfolding span next_is_digit close_string read_number read_word read_operator is_ascii_digit
  step c cs =
      if lx.is_whitespace c
      then ok (none, cs)
      else if is_quote c
      then close_string (span (λ d. not (d == c)) cs)
      else if starts_number c cs
      then (if c == b'-'
          then read_number (c ∷ []) (span is_number_char cs)
          else read_number [] (span is_number_char (c ∷ cs)))
      else if starts_word c
      then read_word (span is_word_char (c ∷ cs))
      else read_operator c cs

  abbrev pub push : Option (Token N) → List (Token N) → List (Token N)
  push none ts = ts
  push (some t) ts = t ∷ ts

  -- The outer `while`; the fuel is one round for each character, and one for the end.
  unfoldable pub tokens : ℕ → Str → Result (List (Token N))
  tokens zero cs = out_of_fuel
  tokens (suc f) [] = ok []
  tokens (suc f) (c ∷ cs) = do (t, rest) ← step c cs; ts ← tokens f rest; ok (push t ts)

  unfoldable pub tokenize : Str → Result (List (Token N))
  tokenize cs = tokens (suc (length cs)) cs
