-- ===== src/Resolver/Operations.antt =====
-- The methods of `Resolver` of internal/resolver/resolver.go: which statements they send, and what they
-- make of the answers.
pub mod Sent
pub mod AggregateNames
use graphpost.Prelude.{
  ℕ, String, List, [], ◌∷◌, ◌++◌, Bool, Option, none, some, length, if◌then◌else◌, ◌==◌,
}
use mathlib.Core.Option.{get_or}
use graphpost.Prelude.Int.{ℤ}
use graphpost.Prelude.Text.{cut_prefix}
use graphpost.Json.{Value, str, Fields}
use graphpost.Maps.{GoMap, put}
use graphpost.Resolver.Sql.{Statement}
use graphpost.Resolver.Columns.{Encoders}
use graphpost.Resolver.Statements.{
  QueryParams, MutationParams, build_select_query, build_count_query, build_insert_query,
  build_batch_insert_query, build_update_by_pk_query, build_update_query, delete_statement,
  delete_by_pk_statement, query_by_pk_statement,
}
use graphpost.Resolver.Aggregates.{Column, aggregate_statement}
use graphpost.Resolver.Answers.{
  Pool, ResultRow, Reply, rows_reply, aggregate_reply, affected, AggregateFields, no_fields,
  first_reply, affected_reply, all_reply, fields_of, query_rows,
}

pub record Resolver : Type 0 where
  pub enc : Encoders
  pub db_schema : String
  pub tables : String → Option (List Column)
  pub pool : Pool

-- `NewResolver`: no schema is the schema public.
unfoldable pub new_resolver : Encoders → Pool → (String → Option (List Column)) → String → Resolver
new_resolver enc pool tables schema = record {
  enc = enc;
  db_schema = if schema == "" then "public" else schema;
  tables = tables;
  pool = pool;
}

-- The calls of the methods with the prefix `Resolve`.
pub data Call : Type 0 where
  call_query : QueryParams → Call
  call_query_by_pk : String → Fields → Call
  call_aggregate : QueryParams → Call
  call_insert_one : MutationParams → Call
  call_insert : MutationParams → Call
  call_update_by_pk : MutationParams → Call
  call_update : MutationParams → Call
  call_delete_by_pk : String → Fields → Call
  call_delete : MutationParams → Call

-- What a call sends, and its reply.
abbrev pub Outcome : Type 0
Outcome = List Statement × Option Reply

abbrev pub sent_if : Option Statement → List Statement
sent_if none = []
sent_if (some s) = s ∷ []

module _ (r : Resolver) where
  -- Without a column that can be compared there is no query.
  unfoldable pub aggregate_fields : Option Statement → Option AggregateFields
  unfolding fields_of
  aggregate_fields none = some no_fields
  aggregate_fields (some s) = fields_of (r.pool.query s)

  -- An error of the query for the fields leaves them out.
  unfoldable pub with_table : QueryParams → ℤ → List ResultRow → Option (List Column) → Outcome
  unfolding aggregate_fields
  with_table params n nodes none = ([], some (aggregate_reply n nodes no_fields))
  with_table params n nodes (some columns) =
      let s = aggregate_statement r.enc r.db_schema columns params in
      (sent_if s, some (aggregate_reply n nodes (get_or (aggregate_fields s) no_fields)))

  unfoldable pub with_nodes : QueryParams → ℤ → Option (List ResultRow) → Outcome
  unfolding with_table
  with_nodes params n none = ([], none)
  with_nodes params n (some nodes) = with_table params n nodes (r.tables params.table_name)

  unfoldable pub with_count : QueryParams → Option ℤ → Outcome
  unfolding with_nodes
  with_count params none = ([], none)
  with_count params (some n) =
      let s = build_select_query r.enc r.db_schema params in
      let (sent, reply) = with_nodes params n (query_rows r.pool s) in (s ∷ sent, reply)

  unfoldable pub resolve_aggregate : QueryParams → Outcome
  unfolding with_count
  resolve_aggregate params =
      let s = build_count_query r.enc r.db_schema params in
      let (sent, reply) = with_count params (r.pool.count s) in (s ∷ sent, reply)

  unfoldable pub by_pk_of : String → Fields → Option (List Column) → Outcome
  by_pk_of table pk none = ([], none)
  by_pk_of table pk (some columns) =
      let s = query_by_pk_statement r.db_schema table pk in
      (s ∷ [], first_reply (query_rows r.pool s))

  -- No objects are no statement.
  unfoldable pub resolve_insert : String → List Fields → Outcome
  resolve_insert table [] = ([], some (affected 0 []))
  resolve_insert table (object ∷ objects) =
      let s = build_batch_insert_query r.enc r.db_schema table (object ∷ objects) in
      (s ∷ [], affected_reply (query_rows r.pool s))

  abbrev pub resolve_query : QueryParams → Outcome
  resolve_query params =
      let s = build_select_query r.enc r.db_schema params in
      (s ∷ [], all_reply (query_rows r.pool s))

  abbrev pub resolve_insert_one : MutationParams → Outcome
  resolve_insert_one params =
      let s = build_insert_query r.enc r.db_schema params.table_name params.object in
      (s ∷ [], first_reply (query_rows r.pool s))

  abbrev pub resolve_update_by_pk : MutationParams → Outcome
  resolve_update_by_pk params =
      let s = build_update_by_pk_query r.enc r.db_schema params in
      (s ∷ [], first_reply (query_rows r.pool s))

  abbrev pub resolve_update : MutationParams → Outcome
  resolve_update params =
      let s = build_update_query r.enc r.db_schema params in
      (s ∷ [], affected_reply (query_rows r.pool s))

  abbrev pub resolve_delete_by_pk : String → Fields → Outcome
  resolve_delete_by_pk table pk =
      let s = delete_by_pk_statement r.db_schema table pk in
      (s ∷ [], first_reply (query_rows r.pool s))

  abbrev pub resolve_delete : MutationParams → Outcome
  resolve_delete params =
      let s = delete_statement r.enc r.db_schema params in
      (s ∷ [], affected_reply (query_rows r.pool s))

  abbrev pub resolve_query_by_pk : String → Fields → Outcome
  resolve_query_by_pk table pk = by_pk_of table pk (r.tables table)

  -- A call of any of the methods.
  unfoldable pub resolve : Call → Outcome
  resolve (call_query params) = resolve_query params
  resolve (call_query_by_pk table pk) = resolve_query_by_pk table pk
  resolve (call_aggregate params) = resolve_aggregate params
  resolve (call_insert_one params) = resolve_insert_one params
  resolve (call_insert params) = resolve_insert params.table_name params.objects
  resolve (call_update_by_pk params) = resolve_update_by_pk params
  resolve (call_update params) = resolve_update params
  resolve (call_delete_by_pk table pk) = resolve_delete_by_pk table pk
  resolve (call_delete params) = resolve_delete params
