-- ===== src/Sql/Token/Total.antt =====
-- The tokenizer's rounds suffice for every text, and a quoted string is read as it stands.
use vdb_rs.Prelude.{
  ℕ, zero, suc, ◌≤◌, ◌<◌, ◌≡◌, refl, Bool, true, false, not, List, [], ◌∷◌, ◌++◌, Option, none,
  some, length, if◌then◌else◌, ◌==◌, arith, all,
}
use vdb_rs.Prelude.Assoc.{Str}
use vdb_rs.Prelude.Float.{Float}
use vdb_rs.Sql.Result.{
  Result, ok, err, out_of_fuel, ◌>>=◌, Ensures, returns, fails, Ensures-bind, ne-out_of_fuel,
}
use vdb_rs.Sql.Token.{Token}
use vdb_rs.Sql.Token.Lexer.{
  Lexis, span, is_quote, close_string, read_number, read_single, read_operator, is_number_char,
  is_word_char, is_ne_sign, is_le_sign, is_ge_sign, starts_number, starts_word, step, tokens,
  tokenize,
}

span-rest-le : (p : ℕ → Bool) (cs : Str) → length (span p cs).1 ≤ length cs
unfolding span
span-rest-le p [] = omega arith
span-rest-le p (c ∷ cs) = ground (arith, span-rest-le p cs)

-- A character that passes the test is consumed.
span-rest-lt :
    (p : ℕ → Bool) (c : ℕ) (cs : Str) → p c ≡ true → length (span p (c ∷ cs)).1 ≤ length cs
unfolding span
span-rest-lt p c cs h = ground (arith, span-rest-le p cs)

-- A text without the closing character, and then that character.
span-stop :
    (p : ℕ → Bool) (s : Str) (c : ℕ) (rest : Str)
    → all p s ≡ true
    → p c ≡ false
    → span p (s ++ c ∷ rest) ≡ (s, c ∷ rest)
unfolding span
span-stop p [] c rest h k = rw k
span-stop p (d ∷ s) c rest h k = ground (arith, span-stop p s c rest)

module _ {N : Type 0} ⦃fl : Float N⦄ (lx : Lexis N) where
  -- What a round leaves is no longer than `n`.
  abbrev Left : ℕ → Option (Token N) × Str → Type 0
  Left n r = length r.1 ≤ n

  close_string-Ensures :
      (r : Str × Str) (n : ℕ) → length r.1 ≤ n → Ensures (Left n) (close_string lx r)
  unfolding close_string
  close_string-Ensures (s, []) n h = fails
  close_string-Ensures (s, c ∷ rest) n h = returns (omega arith)

  read_number-Ensures :
      (sign : Str) (r : Str × Str) (n : ℕ)
      → length r.1 ≤ n
      → Ensures (Left n) (read_number lx sign r)
  unfolding read_number
  read_number-Ensures sign (digits, rest) n h =
      elim (lx.parse_f64 (sign ++ digits))
        as (λ x. Ensures (Left n) (elim x as (λ y. Result (Option (Token N) × Str)) [
          | none ↦ err (vdb_rs.Sql.Result.bad_number (sign ++ digits))
          | some v ↦ ok (some (Token.number v), rest)
        ])) [ none ↦ fails | some v ↦ returns h ]

  Ensures-if :
      (b : Bool) {x y : Result (Option (Token N) × Str)} {n : ℕ}
      → (b ≡ true → Ensures (Left n) x)
      → (b ≡ false → Ensures (Left n) y)
      → Ensures (Left n) (if b then x else y)
  Ensures-if true h k = h refl
  Ensures-if false h k = k refl

  read_single-Ensures : (c : ℕ) (cs : Str) → Ensures (Left (length cs)) (read_single lx c cs)
  unfolding read_single
  read_single-Ensures c cs =
      Ensures-if (c == b'=') (λ _. returns (omega arith))
        λ _.
          Ensures-if (c == b'<') (λ _. returns (omega arith))
            λ _.
              Ensures-if (c == b'>') (λ _. returns (omega arith))
                λ _.
                  Ensures-if (c == b'(') (λ _. returns (omega arith))
                    λ _.
                      Ensures-if (c == b')') (λ _. returns (omega arith))
                        λ _. Ensures-if (c == b',') (λ _. returns (omega arith)) λ _. fails

  read_operator-Ensures : (c : ℕ) (cs : Str) → Ensures (Left (length cs)) (read_operator lx c cs)
  unfolding read_operator
  read_operator-Ensures c [] = read_single-Ensures c []
  read_operator-Ensures c (d ∷ cs) =
      Ensures-if (is_ne_sign c d) (λ _. returns (omega arith))
        λ _.
          Ensures-if (is_le_sign c d) (λ _. returns (omega arith))
            λ _.
              Ensures-if (is_ge_sign c d) (λ _. returns (omega arith))
                λ _. read_single-Ensures c (d ∷ cs)

  -- A round consumes its character at least.
  step-Ensures : (c : ℕ) (cs : Str) → Ensures (Left (length cs)) (step lx c cs)
  unfolding step
  step-Ensures c cs =
      Ensures-if (lx.is_whitespace c) (λ _. returns (omega arith))
        λ _.
          Ensures-if (is_quote c)
            (λ _. close_string-Ensures _ (length cs) (span-rest-le (λ d. not (d == c)) cs))
            λ _.
              Ensures-if (starts_number c cs)
                (λ num.
                  Ensures-if (c == b'-')
                    (λ _.
                      read_number-Ensures (c ∷ []) _ (length cs) (span-rest-le (is_number_char) cs))
                    (λ minus.
                      read_number-Ensures [] _ (length cs)
                        (span-rest-lt (is_number_char) c cs (ground arith))))
                λ _.
                  Ensures-if (starts_word lx c)
                    (λ word. returns (
                      span-rest-lt (is_word_char lx) c cs
                        (ground (arith, lx.alphabetic-alphanumeric c))))
                    λ _. read_operator-Ensures c cs

  tokens-Ensures :
      (f : ℕ) (cs : Str)
      → length cs < f
      → Ensures (λ (ts : List (Token N)). Unit {0}) (tokens lx f cs)
  unfolding tokens
  tokens-Ensures zero cs h = absurd (omega arith)
  tokens-Ensures (suc f) [] h = returns tt
  tokens-Ensures (suc f) (c ∷ cs) h =
      Ensures-bind (step-Ensures c cs)
        λ (t, rest) shorter. Ensures-bind (tokens-Ensures f rest (omega arith)) λ ts _. returns tt

  pub tokenize-Ensures : (cs : Str) → Ensures (λ (ts : List (Token N)). Unit {0}) (tokenize lx cs)
  unfolding tokenize
  tokenize-Ensures cs = tokens-Ensures (suc (length cs)) cs (omega arith)

  -- A text between two quotes of one kind, with none of that kind inside, is one string token that
  -- holds it unchanged, spaces, keywords and the other kind of quote included.
  pub tokenize-quoted :
      (q : ℕ) (s : Str)
      → is_quote q ≡ true
      → lx.is_whitespace q ≡ false
      → all (λ d. not (d == q)) s ≡ true
      → tokenize lx (q ∷ (s ++ q ∷ [])) ≡ ok (Token.string s ∷ [])
  unfolding tokenize tokens step close_string
  tokenize-quoted q s quote space inside =
      let read = span-stop (λ d. not (d == q)) s q [] inside (ground arith) in
      rw (space, quote, read)
