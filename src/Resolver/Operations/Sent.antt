-- ===== src/Resolver/Operations/Sent.antt =====
-- The statements that the methods of `Resolver` of internal/resolver/resolver.go send.
use graphpost.Prelude.{String, List, [], ◌∷◌, Option, none, some, All}
use graphpost.Prelude.Int.{ℤ}
use graphpost.Json.{Fields}
use graphpost.Resolver.Sql.{Statement, IsNumberedClause}
use graphpost.Resolver.Statements.{QueryParams, build_select_query}
use graphpost.Resolver.Aggregates.{
  Column, IsNumberedOption, aggregate_statement, aggregate_statement-IsNumberedOption,
}
use graphpost.Resolver.Statements.Numbering.{
  build_select_query-IsNumberedClause, build_count_query-IsNumberedClause,
  build_insert_query-IsNumberedClause, build_batch_insert_query-IsNumberedClause,
  build_update_query-IsNumberedClause, build_update_by_pk_query-IsNumberedClause,
  delete_statement-IsNumberedClause, delete_by_pk_statement-IsNumberedClause,
  query_by_pk_statement-IsNumberedClause,
}
use graphpost.Resolver.Answers.{ResultRow, query_rows}
use graphpost.Resolver.Operations.{
  Resolver, Call, call_query, call_query_by_pk, call_aggregate, call_insert_one, call_insert,
  call_update_by_pk, call_update, call_delete_by_pk, call_delete, sent_if, with_table, with_nodes,
  with_count, resolve_aggregate, by_pk_of, resolve_insert, resolve,
}

sent_if-IsNumberedClause :
    (s : Option Statement) → IsNumberedOption s → All (IsNumberedClause 1) (sent_if s)
sent_if-IsNumberedClause none h = tt
sent_if-IsNumberedClause (some s) h = (h, tt)

module _ (r : Resolver) where
  with_table-IsNumberedClause :
      (params : QueryParams) (n : ℤ) (nodes : List ResultRow) (table : Option (List Column))
      → All (IsNumberedClause 1) ((with_table r params n nodes table).0)
  unfolding with_table
  with_table-IsNumberedClause params n nodes none = tt
  with_table-IsNumberedClause params n nodes (some columns) =
      sent_if-IsNumberedClause (aggregate_statement r.enc r.db_schema columns params)
        (aggregate_statement-IsNumberedOption r.enc r.db_schema columns params)

  with_nodes-IsNumberedClause :
      (params : QueryParams) (n : ℤ) (nodes : Option (List ResultRow))
      → All (IsNumberedClause 1) ((with_nodes r params n nodes).0)
  unfolding with_nodes
  with_nodes-IsNumberedClause params n none = tt
  with_nodes-IsNumberedClause params n (some nodes) =
      with_table-IsNumberedClause params n nodes (r.tables params.table_name)

  with_count-IsNumberedClause :
      (params : QueryParams) (n : Option ℤ) → All (IsNumberedClause 1) ((with_count r params n).0)
  unfolding with_count
  with_count-IsNumberedClause params none = tt
  with_count-IsNumberedClause params (some n) = (
    build_select_query-IsNumberedClause r.enc r.db_schema params,
    with_nodes-IsNumberedClause params n
        (query_rows r.pool (build_select_query r.enc r.db_schema params)),
  )

  by_pk_of-IsNumberedClause :
      (table : String) (pk : Fields) (columns : Option (List Column))
      → All (IsNumberedClause 1) ((by_pk_of r table pk columns).0)
  unfolding by_pk_of
  by_pk_of-IsNumberedClause table pk none = tt
  by_pk_of-IsNumberedClause table pk (some columns) =
      (query_by_pk_statement-IsNumberedClause r.db_schema table pk, tt)

  resolve_insert-IsNumberedClause :
      (table : String) (objects : List Fields)
      → All (IsNumberedClause 1) ((resolve_insert r table objects).0)
  unfolding resolve_insert
  resolve_insert-IsNumberedClause table [] = tt
  resolve_insert-IsNumberedClause table (object ∷ objects) =
      (build_batch_insert_query-IsNumberedClause r.enc r.db_schema table (object ∷ objects), tt)

  -- Every statement that a call of a method with the prefix Resolve sends, for rows, for aggregates or
  -- to change rows, holds the placeholders 1, 2, … in this order, as many as it has arguments, whatever
  -- the connections answer.
  pub resolve-IsNumberedClause : (c : Call) → All (IsNumberedClause 1) ((resolve r c).0)
  unfolding resolve resolve_aggregate
  resolve-IsNumberedClause (call_query params) =
      (build_select_query-IsNumberedClause r.enc r.db_schema params, tt)
  resolve-IsNumberedClause (call_query_by_pk table pk) =
      by_pk_of-IsNumberedClause table pk (r.tables table)
  resolve-IsNumberedClause (call_aggregate params) = (
    build_count_query-IsNumberedClause r.enc r.db_schema params,
    with_count-IsNumberedClause params _,
  )
  resolve-IsNumberedClause (call_insert_one params) =
      (build_insert_query-IsNumberedClause r.enc r.db_schema params.table_name params.object, tt)
  resolve-IsNumberedClause (call_insert params) =
      resolve_insert-IsNumberedClause params.table_name params.objects
  resolve-IsNumberedClause (call_update_by_pk params) =
      (build_update_by_pk_query-IsNumberedClause r.enc r.db_schema params, tt)
  resolve-IsNumberedClause (call_update params) =
      (build_update_query-IsNumberedClause r.enc r.db_schema params, tt)
  resolve-IsNumberedClause (call_delete_by_pk table pk) =
      (delete_by_pk_statement-IsNumberedClause r.db_schema table pk, tt)
  resolve-IsNumberedClause (call_delete params) =
      (delete_statement-IsNumberedClause r.enc r.db_schema params, tt)
