-- ===== src/StreamQl.antt =====
-- streamql: queries over streams of records. Matching by a regular expression is a parameter.
pub mod Queries
pub mod Predicates
pub mod Execution
