-- ===== src/Sql/Token.antt =====
-- `Token` of src/sql.rs.
pub mod Lexer
pub mod Total
use vdb_rs.Prelude.{ℕ}
use vdb_rs.Prelude.Assoc.{Str}

pub data Token (N : Type 0) : Type 0 where
  ident : Str → Token N
  number : N → Token N
  string : Str → Token N
  eq ne lt gt le ge lparen rparen comma and or in_word : Token N
