-- ===== src/Resolver.antt =====
-- internal/resolver/resolver.go: from GraphQL arguments to parameterised SQL.
pub mod Quote
pub mod Sql
pub mod Columns
pub mod Where
pub mod Statements
pub mod Aggregates
pub mod Answers
pub mod Operations
