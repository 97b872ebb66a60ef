-- ===== src/Sql/Result.antt =====
-- The outcome of the tokenizer and the parser of src/sql.rs, and postconditions on it.
use vdb_rs.Prelude.{ℕ, ◌≡◌, ◌≢◌, subst}
use vdb_rs.Prelude.Assoc.{Str}

-- `SqlError`, a constructor for each message of the source.
pub data SqlError : Type 0 where
  unterminated_string expected_operator expected_comparison expected_scalar : SqlError
  expected_ident trailing_tokens expected_lparen expected_rparen : SqlError
  bad_number : Str → SqlError
  unexpected_char : ℕ → SqlError

-- `out_of_fuel` has no counterpart in the source: the theorems exclude it.
pub data Result {ℓ} (A : Type ℓ) : Type ℓ where
  ok : A → Result A
  err : SqlError → Result A
  out_of_fuel : Result A

infixl 5 ◌>>=◌
abbrev pub ◌>>=◌ {ℓ κ} : {A : Type ℓ} {B : Type κ} → Result A → (A → Result B) → Result B
ok a >>= f = f a
err e >>= f = err e
out_of_fuel >>= f = out_of_fuel

-- The run kept within its fuel, and `P` holds of its value if it has one.
pub data Ensures {ℓ κ} {A : Type ℓ} (P : A → Type κ) : Result A → Type (ℓ ⊔ κ) where
  returns : {a : A} → P a → Ensures P (ok a)
  fails : {e : SqlError} → Ensures P (err e)

module _ {ℓ κ} {A : Type ℓ} {P : A → Type κ} where
  pub ne-out_of_fuel : {r : Result A} → Ensures P r → r ≢ out_of_fuel
  ne-out_of_fuel (returns h) = cc
  ne-out_of_fuel fails = cc

  pub value_of_Ensures : {r : Result A} {a : A} → Ensures P r → r ≡ ok a → P a
  value_of_Ensures (returns h) e = subst P (cc) h
  value_of_Ensures fails e = cc

  pub Ensures-bind {ℓ' κ'} :
      {B : Type ℓ'} {Q : B → Type κ'} {first : Result A} {next : A → Result B}
      → Ensures P first
      → ((a : A) → P a → Ensures Q (next a))
      → Ensures Q (first >>= next)
  Ensures-bind (returns {a} p) q = q a p
  Ensures-bind fails q = fails
