-- ===== src/Sql.antt =====
-- src/sql.rs: the WHERE subset, its evaluation on a payload, the decision for a whole partition,
-- and its tokenizer and parser.
pub mod Predicate
pub mod Eval
pub mod Pushdown
pub mod Result
pub mod Token
pub mod Parser
pub mod Filter
