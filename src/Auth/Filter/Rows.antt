-- ===== src/Auth/Filter/Rows.antt =====
-- What a row filter of internal/auth/auth.go becomes in the SQL of internal/resolver/resolver.go.
use mathlib.Core.List.{append-nil}
use package.text.Mathlib.Text.{starts_with}
use graphpost.Prelude.{
  ℕ, ◌+◌, String, List, [], ◌∷◌, ◌++◌, none, true, length, ◌≡◌, ◌≢◌, refl, arith,
}
use graphpost.Json.{Value, str, obj, Fields, end, field}
use graphpost.Resolver.Sql.{Clause, Arg, Built, join, text}
use graphpost.Resolver.Columns.{Encoders, column_conditions}
use graphpost.Resolver.Where.{
  build_where_clause, filter_conditions, bracket, grouped, nested, nested_clause,
}
use graphpost.Auth.Config.{AuthConfig, Session}
use graphpost.Auth.Filter.{
  substitute_session_variables, substitute_text, session_variable, both_filters,
}

nested_clause_filled :
    (opening : String) (c : Clause) (args : List Arg)
    → c ≢ []
    → nested_clause opening c args ≡ (bracket opening c ∷ [], args)
unfolding nested_clause
nested_clause_filled opening [] args h = absurd (h refl)
nested_clause_filled opening (p ∷ ps) args h = refl

nested_filled :
    (opening : String) (b : Built)
    → join " AND " b.0 ≢ []
    → nested opening b ≡ (bracket opening (join " AND " b.0) ∷ [], b.1)
unfolding nested
nested_filled opening b h = nested_clause_filled opening (join " AND " b.0) b.1 h

module _ (enc : Encoders) where
  -- A query's filter joined with the row filter of a rule is one condition in brackets, the AND of
  -- both, with the arguments of both in the order of their placeholders, if neither is empty.
  pub build_where_clause-both_filters :
      (key : String) (v : Value) (rest row_filter : Fields) (i : ℕ)
      → (build_where_clause enc (field key v rest) i).0 ≢ []
      → (build_where_clause enc row_filter
          (i + length (build_where_clause enc (field key v rest) i).1)).0
        ≢ []
      → build_where_clause enc (both_filters (field key v rest) row_filter) i ≡ (
        bracket "(" (
            bracket "(" (build_where_clause enc (field key v rest) i).0
            ++ (text " AND "
                ∷ bracket "("
                    (build_where_clause enc row_filter
                      (i + length (build_where_clause enc (field key v rest) i).1)).0)),
        (build_where_clause enc (field key v rest) i).1
            ++ (build_where_clause enc row_filter
                (i + length (build_where_clause enc (field key v rest) i).1)).1,
      )
  unfolding both_filters build_where_clause filter_conditions grouped join
  build_where_clause-both_filters key v rest row_filter i hq hr =
      rw (nested_filled "(" (filter_conditions enc (field key v rest) i) hq) (
        rw
          (nested_filled "("
            (filter_conditions enc row_filter
              (i + length (filter_conditions enc (field key v rest) i).1))
            hr)
          (simp append-nil))

empty_comparison :
    (enc : Encoders) (column : String) (i : ℕ)
    → build_where_clause enc (field column (obj end) end) i ≡ ([], [])
unfolding build_where_clause filter_conditions nested nested_clause column_conditions join
empty_comparison enc column i = ground arith

-- A session variable that the session does not have.
module _ (cfg : AuthConfig) (session : Session) where
  substitute_text_missing :
      (v : String)
      → starts_with v "X-Hasura-" ≡ true
      → session_variable cfg session v ≡ none
      → substitute_text cfg session v ≡ none
  unfolding substitute_text
  substitute_text_missing v h e = rw (h, e)

  -- A row filter that compares a column with such a variable becomes no condition at all: the
  -- query is not restricted.
  pub missing_variable-drops_filter :
      (enc : Encoders) (column op v : String) (i : ℕ)
      → starts_with v "X-Hasura-" ≡ true
      → session_variable cfg session v ≡ none
      → build_where_clause enc
          (substitute_session_variables cfg session (field column (obj (field op (str v) end)) end))
          i
        ≡ ([], [])
  unfolding substitute_session_variables
  missing_variable-drops_filter enc column op v i h e =
      rw (substitute_text_missing v h e) (empty_comparison enc column i)
