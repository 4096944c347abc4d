-- ===== src/Analytics/Refresh/Schedule.antt =====
-- What a refresh does to the definitions in memory, and when an aggregate is due again.
use graphpost.Prelude.{
  ℕ, suc, ◌+◌, ◌≤◌, ◌<◌, String, List, [], ◌∷◌, Bool, true, false, Option, none, some,
  if◌then◌else◌, ◌≡◌, refl, ◌∙◌, ap, arith, Bool-cases, Option-cases, inl, inr,
}
use graphpost.Prelude.Int.{pos}
use graphpost.Maps.{lookup, put, lookup-put_same}
use graphpost.Analytics.Router.{AggregateDefinition}
use graphpost.Analytics.Store.{
  Store, StoredValue, RefreshLog, Failure, not_found, duckdb_error, not_lazy, clear_failed,
  query_failed, scan_failed, store_failed, out_of_range, rows_error, bad_group_key, is_pending,
  schedule_next, next_time, set_refreshed,
}
use graphpost.Analytics.Store.Operations.{
  get_aggregate, refreshed, exec_duckdb, update_last_refreshed, log_refresh, clear_aggregate_values,
  store_aggregate_value,
}
use graphpost.Analytics.Refresh.{Cell, Postgres, Rows, value_of_row, build_aggregation_query}
use graphpost.Analytics.Refresh.Execution.{
  store_rows, store_answer, execute_aggregation, conclude, finish, opening, closing,
  refresh_definition, refresh_aggregate,
}

-- The definition under an id was refreshed at a time of the clock between two states of the store, and
-- is due when an interval of `n + 1` has passed since, if it is enabled, and not before.
pub record Rescheduled (F : Type 0) (clock : ℕ → ℕ) (id : String) (n : ℕ) (is_on : Bool)
    (s t : Store F) : Type 0 where
  pub def : AggregateDefinition
  pub found : get_aggregate id t ≡ some def
  pub read_at : ℕ
  pub during : (s.statements ≤ read_at) × (read_at ≤ t.statements)
  pub taken : def.last_refreshed ≡ clock read_at
  pub quiet : (now : ℕ) → now ≤ clock read_at + suc n → is_pending now def ≡ false
  pub due : (now : ℕ) → clock read_at + suc n < now → is_pending now def ≡ is_on

-- Either the aggregation has worked, even if DuckDB refused the new times, or nothing has changed.
abbrev pub Next :
    (F : Type 0) → (ℕ → ℕ) → String → ℕ → Bool → Store F → Option Failure → Store F → Type 0
Next F clock id n is_on s none t = Rescheduled F clock id n is_on s t
Next F clock id n is_on s (some duckdb_error) t = Rescheduled F clock id n is_on s t
Next F clock id n is_on s (some e) t = t.definitions ≡ s.definitions

quiet_until :
    (def : AggregateDefinition) (m now : ℕ)
    → def.next_refresh ≡ suc m
    → now ≤ suc m
    → is_pending now def ≡ false
unfolding is_pending
quiet_until def m now e h = rw e (ground arith)

due_after :
    (def : AggregateDefinition) (m now : ℕ)
    → def.refresh_strategy ≡ "scheduled"
    → def.next_refresh ≡ suc m
    → suc m < now
    → is_pending now def ≡ def.is_enabled
unfolding is_pending
due_after def m now strategy e h = rw (strategy, e) (ground arith)

rescheduled :
    (F : Type 0) (clock : ℕ → ℕ) (id : String) (old : AggregateDefinition) (n read_at now : ℕ)
    (s t : Store F)
    → (s.statements ≤ read_at) × (read_at ≤ t.statements)
    → lookup id t.definitions ≡ some (refreshed (clock read_at) now old)
    → old.refresh_strategy ≡ "scheduled"
    → old.refresh_interval ≡ pos (suc n)
    → Rescheduled F clock id n old.is_enabled s t
unfolding refreshed schedule_next next_time get_aggregate
rescheduled F clock id old n read_at now s t during found strategy interval =
    let new = refreshed (clock read_at) now old in
    let later : new.next_refresh ≡ clock read_at + suc n = rw (strategy, interval) refl in
    record {
      def = new;
      found = found;
      read_at = read_at;
      during = during;
      taken = refl;
      quiet = λ m h. quiet_until new (clock read_at + n) m (later ∙ omega arith) (omega (arith, h));
      due = λ m h.
          due_after new (clock read_at + n) m strategy (later ∙ omega arith) (omega (arith, h));
    }

either_way :
    (works : Bool) {F : Type 0} (clock : ℕ → ℕ) (id : String) (n : ℕ) (is_on : Bool) (s t : Store F)
    → Rescheduled F clock id n is_on s t
    → Next F clock id n is_on s (if works then none else some duckdb_error) t
either_way true clock id n is_on s t h = h
either_way false clock id n is_on s t h = h

module _ {F : Type 0} (fails : ℕ → Bool) (clock : ℕ → ℕ) where
  exec_duckdb-definitions :
      (change : Store F → Store F) (s : Store F)
      → ((t : Store F) → (change t).definitions ≡ t.definitions)
      → (exec_duckdb fails clock change s).1.definitions ≡ s.definitions
  unfolding exec_duckdb
  exec_duckdb-definitions change s keeps = elim (Bool-cases (fails s.statements)) [
    | inl e ↦ rw (exec_duckdb, e) refl
    | inr e ↦ rw (exec_duckdb, e) (keeps _)
  ]

  exec_duckdb-statements :
      (change : Store F → Store F) (s : Store F)
      → ((t : Store F) → (change t).statements ≡ t.statements)
      → (exec_duckdb fails clock change s).1.statements ≡ s.statements + 1
  unfolding exec_duckdb
  exec_duckdb-statements change s keeps = elim (Bool-cases (fails s.statements)) [
    | inl e ↦ rw (exec_duckdb, e) refl
    | inr e ↦ rw (exec_duckdb, e) (keeps _)
  ]

  log_refresh-statements :
      (entry : RefreshLog) (s : Store F)
      → (log_refresh fails clock entry s).1.statements ≡ s.statements + 1
  unfolding log_refresh
  log_refresh-statements entry s = exec_duckdb-statements _ s (λ t. refl)

  log_refresh-definitions :
      (entry : RefreshLog) (s : Store F)
      → (log_refresh fails clock entry s).1.definitions ≡ s.definitions
  unfolding log_refresh
  log_refresh-definitions entry s = exec_duckdb-definitions _ s (λ t. refl)

  conclude-definitions :
      (id : String) (entry : RefreshLog) (e : Failure) (s : Store F)
      → (conclude fails clock id entry (some e) s).1.definitions ≡ s.definitions
  unfolding conclude
  conclude-definitions id entry e s = ground (
    arith,
    log_refresh-definitions (record entry { status = "failed"; error_message = some e }) s,
  )

  update_last_refreshed-Next :
      (id : String) (def : AggregateDefinition) (n : ℕ) (s t : Store F)
      → s.statements ≤ t.statements
      → lookup id t.definitions ≡ some def
      → def.refresh_strategy ≡ "scheduled"
      → def.refresh_interval ≡ pos (suc n)
      → let r = update_last_refreshed fails clock id (clock t.statements) t in
        Next F clock id n def.is_enabled s r.0 r.1
  unfolding update_last_refreshed
  update_last_refreshed-Next id def n s t after found strategy interval =
      let new = refreshed (clock t.statements) (clock t.statements) def in
      let begun : Store F = record t { definitions = put id new t.definitions } in
      let change = λ (x : Store F). record x { rows = set_refreshed id new x.rows } in
      let this : lookup id (exec_duckdb fails clock change begun).1.definitions ≡ some new =
        rw (exec_duckdb-definitions change begun (λ x. refl))
          (lookup-put_same id new t.definitions) in
      let counted : (exec_duckdb fails clock change begun).1.statements ≡ t.statements + 1 =
        exec_duckdb-statements change begun (λ x. refl) in
      rw (update_last_refreshed, found)
        (either_way _ clock id n def.is_enabled s _ (
          rescheduled F clock id def n t.statements (clock t.statements) s _
            (after, omega (arith, counted)) this strategy interval))

module _ {F : Type 0} (fails : ℕ → Bool) (clock : ℕ → ℕ) (source : Postgres F) where
  -- The definitions as before, no error of the update, and no fewer statements.
  abbrev Keeps : Store F → (ℕ × Option Failure) × Store F → Type 0
  Keeps s r =
      (r.1.definitions ≡ s.definitions)
      × (r.0.1 ≡ some duckdb_error → ⊥)
      × (s.statements ≤ r.1.statements)

  store_value-definitions :
      (v : StoredValue F) (s : Store F)
      → (store_aggregate_value fails clock v s).1.definitions ≡ s.definitions
  unfolding store_aggregate_value
  store_value-definitions v s = exec_duckdb-definitions fails clock _ s (λ t. refl)

  clear-definitions :
      (id : String) (s : Store F)
      → (clear_aggregate_values fails clock id s).1.definitions ≡ s.definitions
  unfolding clear_aggregate_values
  clear-definitions id s = exec_duckdb-definitions fails clock _ s (λ t. refl)

  store_value-statements :
      (v : StoredValue F) (s : Store F)
      → (store_aggregate_value fails clock v s).1.statements ≡ s.statements + 1
  unfolding store_aggregate_value
  store_value-statements v s = exec_duckdb-statements fails clock _ s (λ t. refl)

  clear-statements :
      (id : String) (s : Store F)
      → (clear_aggregate_values fails clock id s).1.statements ≡ s.statements + 1
  unfolding clear_aggregate_values
  clear-statements id s = exec_duckdb-statements fails clock _ s (λ t. refl)

  store_rows-Keeps :
      (def : AggregateDefinition) (is_broken : Bool) (rows : List (Option (List (Cell F)))) (n : ℕ)
      (s : Store F)
      → Keeps s (store_rows fails clock source def is_broken rows n s)
  unfolding store_rows
  store_rows-Keeps def true [] n s = (refl, λ h. cc, omega arith)
  store_rows-Keeps def false [] n s = (refl, λ h. cc, omega arith)
  store_rows-Keeps def is_broken (none ∷ rows) n s = (refl, λ h. cc, omega arith)
  store_rows-Keeps def is_broken (some cells ∷ rows) n s =
      elim (Option-cases (value_of_row source def cells)) [
        | inl e ↦ rw (store_rows, e) (refl, λ h. cc, omega arith)
        | inr (v, e) ↦ elim (Bool-cases (store_aggregate_value fails clock v s).0) [
          | inl works ↦
              let rest =
                store_rows-Keeps def is_broken rows (n + 1)
                  (store_aggregate_value fails clock v s).1 in
              rw (store_rows, e, works)
                (
                  rest.0 ∙ store_value-definitions v s,
                  rest.1,
                  omega (arith, rest.2, store_value-statements v s),
                )
          | inr refused ↦
              rw (store_rows, e, refused)
                (store_value-definitions v s, λ h. cc, omega (arith, store_value-statements v s))
        ]
      ]

  store_answer-Keeps :
      (def : AggregateDefinition) (answer : Option (Rows F)) (t : Store F)
      → Keeps t (store_answer fails clock source def answer t)
  unfolding store_answer
  store_answer-Keeps def none t = (refl, λ h. cc, omega arith)
  store_answer-Keeps def (some rows) t = store_rows-Keeps def rows.is_broken rows.scanned 0 t

  execute_aggregation-Keeps :
      (def : AggregateDefinition) (s : Store F)
      → Keeps s (execute_aggregation fails clock source def s)
  unfolding execute_aggregation
  execute_aggregation-Keeps def s =
      elim (Bool-cases (clear_aggregate_values fails clock def.id s).0) [
        | inl works ↦
            let t = (clear_aggregate_values fails clock def.id s).1 in
            let kept = store_answer-Keeps def (source.query (build_aggregation_query def)) t in
            rw works (
              kept.0 ∙ clear-definitions def.id s,
              kept.1,
              omega (arith, kept.2, clear-statements def.id s),
            )
        | inr refused ↦
            rw refused
              (clear-definitions def.id s, λ h. cc, omega (arith, clear-statements def.id s))
      ]

  failed-Next :
      (id : String) (n : ℕ) (is_on : Bool) (e : Failure) (s t : Store F)
      → (some e ≡ some duckdb_error → ⊥)
      → t.definitions ≡ s.definitions
      → Next F clock id n is_on s (some e) t
  failed-Next id n is_on duckdb_error s t no_update h = absurd (no_update refl)
  failed-Next id n is_on (not_found x) s t no_update h = h
  failed-Next id n is_on not_lazy s t no_update h = h
  failed-Next id n is_on clear_failed s t no_update h = h
  failed-Next id n is_on query_failed s t no_update h = h
  failed-Next id n is_on scan_failed s t no_update h = h
  failed-Next id n is_on store_failed s t no_update h = h
  failed-Next id n is_on out_of_range s t no_update h = h
  failed-Next id n is_on rows_error s t no_update h = h
  failed-Next id n is_on bad_group_key s t no_update h = h

  finish-Next :
      (id : String) (entry : RefreshLog) (def : AggregateDefinition) (n : ℕ) (s : Store F)
      (done : (ℕ × Option Failure) × Store F)
      → lookup id s.definitions ≡ some def
      → def.refresh_strategy ≡ "scheduled"
      → def.refresh_interval ≡ pos (suc n)
      → Keeps s done
      → let r = finish fails clock id entry done in Next F clock id n def.is_enabled s r.0 r.1
  unfolding finish conclude
  finish-Next id entry def n s ((k, none), t) found strategy interval kept =
      let entry' = record (closing (clock t.statements) k entry) { status = "completed" } in
      update_last_refreshed-Next fails clock id def n s _
        (omega (arith, kept.2, log_refresh-statements fails clock entry' t))
        (ap (lookup id) (log_refresh-definitions fails clock entry' t ∙ kept.0) ∙ found) strategy
        interval
  finish-Next id entry def n s ((k, some e), t) found strategy interval kept =
      failed-Next id n def.is_enabled e s _ kept.1
        (conclude-definitions fails clock id (closing (clock t.statements) k entry) e t ∙ kept.0)

  refresh_definition-Next :
      (id : String) (def : AggregateDefinition) (n : ℕ) (s : Store F)
      → lookup id s.definitions ≡ some def
      → def.refresh_strategy ≡ "scheduled"
      → def.refresh_interval ≡ pos (suc n)
      → let r = refresh_definition fails clock source id def s in
        Next F clock id n def.is_enabled s r.0 r.1
  unfolding refresh_definition
  refresh_definition-Next id def n s found strategy interval =
      let entry = opening id (clock s.statements) in
      let kept = execute_aggregation-Keeps def (log_refresh fails clock entry s).1 in
      finish-Next id entry def n s _ found strategy interval (
        kept.0 ∙ log_refresh-definitions fails clock entry s,
        kept.1,
        omega (arith, kept.2, log_refresh-statements fails clock entry s),
      )

  -- After a refresh of a scheduled aggregate with an interval, whatever DuckDB and PostgreSQL do,
  -- either its last time is one of the clock during this refresh, and it is due, if it is enabled, as
  -- soon as an interval has passed since, and not before, also if DuckDB has refused to take that down;
  -- or the refresh has failed and no definition has changed.
  pub refresh_aggregate-Next :
      (id : String) (def : AggregateDefinition) (n : ℕ) (s : Store F)
      → get_aggregate id s ≡ some def
      → def.refresh_strategy ≡ "scheduled"
      → def.refresh_interval ≡ pos (suc n)
      → let r = refresh_aggregate fails clock source id s in
        Next F clock id n def.is_enabled s r.0 r.1
  unfolding refresh_aggregate get_aggregate
  refresh_aggregate-Next id def n s found strategy interval =
      rw (refresh_aggregate, found) (refresh_definition-Next id def n s found strategy interval)
