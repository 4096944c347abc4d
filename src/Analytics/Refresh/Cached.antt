-- ===== src/Analytics/Refresh/Cached.antt =====
-- A lazy aggregate that is asked for twice.
use graphpost.Prelude.{
  ℕ, ◌+◌, ◌≤◌, ◌<◌, [], String, Bool, true, false, Option, none, some, ltb, eq_refl, ◌≡◌, refl, ◌∙◌,
  ap, arith, Bool-cases, inl, inr,
}
use graphpost.Maps.{GoMap, lookup}
use graphpost.Analytics.Router.{AggregateDefinition}
use graphpost.Analytics.Store.{Store, StoredValue, select_value, whole_micros}
use graphpost.Analytics.Store.Operations.{
  get_aggregate, get_aggregate_value, store_aggregate_value, exec_duckdb,
}
use graphpost.Analytics.Refresh.{Cell, int64_cell, set_aggregate, empty_value, Postgres}
use graphpost.Analytics.Refresh.Values.{select_value-replace_value}
use graphpost.Analytics.Refresh.Lazy.{
  LazyAnswer, refused, no_row, cell, LazySource, LazyValue, LazyResult, given, failed,
  store_computed, compute_group, compute_single_aggregate, is_fresh, answer_lazy,
  get_or_compute_lazy,
}

-- A value of the aggregate and the group is in the store.
abbrev IsStored : {F : Type 0} → String → String → StoredValue F → Store F → Type 0
IsStored id key v t = select_value id key t.values ≡ some v

lt→ltb : (a b : ℕ) → a < b → ltb a b ≡ true
lt→ltb a b h = ground arith

module _ {F : Type 0} (source : Postgres F) where
  abbrev Named : String → String → StoredValue F → Type 0
  Named id key v = (v.aggregate_id ≡ id) × (v.group_key ≡ key)

  set_aggregate-Named :
      (id key type : String) (c : Cell F) (v : StoredValue F)
      → Named id key v
      → Named id key (set_aggregate source type c v)
  unfolding set_aggregate
  set_aggregate-Named id key type (int64_cell n) v h = ground arith
  set_aggregate-Named id key type c v h = ground arith

  empty_value-Named : (id key : String) → Named id key (empty_value source id key)
  unfolding empty_value
  empty_value-Named id key = (refl, refl)

module _ {F : Type 0} (fails : ℕ → Bool) (clock : ℕ → ℕ) (works : (n : ℕ) → fails n ≡ false) where
  store_value-IsStored :
      (id key : String) (v : StoredValue F) (s : Store F)
      → (v.aggregate_id ≡ id) × (v.group_key ≡ key)
      → IsStored id key
          (record v { computed_at = whole_micros (clock s.statements) })
          (store_aggregate_value fails clock v s).1
  unfolding store_aggregate_value exec_duckdb
  store_value-IsStored id key v s h =
      rw (store_aggregate_value, works s.statements)
        (select_value-replace_value (record v { computed_at = whole_micros (clock s.statements) })
            id key s.values
          ∙ rw (h.0, h.1, eq_refl id, eq_refl key) refl)

  store_value-definitions :
      (v : StoredValue F) (s : Store F)
      → (store_aggregate_value fails clock v s).1.definitions ≡ s.definitions
  unfolding store_aggregate_value exec_duckdb
  store_value-definitions v s = rw (store_aggregate_value, works s.statements) refl

  get_aggregate_value-works :
      (id key : String) (s : Store F)
      → get_aggregate_value fails clock id key s
        ≡ ((true, select_value id key s.values), record s { statements = s.statements + 1 })
  unfolding get_aggregate_value
  get_aggregate_value-works id key s = rw (works s.statements) refl

-- A value with its time in whole microseconds.
abbrev pub to_micros : {F : Type 0} → StoredValue F → StoredValue F
to_micros v = record v { computed_at = whole_micros v.computed_at }

whole_micros_twice :
    {F : Type 0} (v : StoredValue F) (n : ℕ)
    → to_micros (record v { computed_at = whole_micros n })
      ≡ to_micros (record v { computed_at = n })
whole_micros_twice v n =
    let same : whole_micros (whole_micros n) ≡ whole_micros n = omega arith in
    ap (λ t. record v { computed_at = t }) same

module _ {F : Type 0} (fails : ℕ → Bool) (clock : ℕ → ℕ) (works : (n : ℕ) → fails n ≡ false)
    (ttl : ℕ) where
  -- The columns of a value as a row of the store has them, up to parts of a microsecond.
  abbrev IsKept : StoredValue F → StoredValue F → Type 0
  IsKept v w = (to_micros w ≡ to_micros v) × (whole_micros v.computed_at ≤ w.computed_at)

  -- What a result with a value says of the store.
  abbrev Leaves : String → String → GoMap AggregateDefinition → LazyResult F × Store F → Type 0
  Leaves id key defs (given (some v), t) =
      (w : StoredValue F) × IsStored id key w t × IsKept v.columns w × (t.definitions ≡ defs)
  Leaves id key defs (given none, t) = t.definitions ≡ defs
  Leaves id key defs (failed e, t) = t.definitions ≡ defs

  store_computed-Leaves :
      (lazy_source : LazySource F) (def : AggregateDefinition) (key : String) (group : GoMap String)
      (answer : LazyAnswer F) (s : Store F)
      → Leaves def.id key s.definitions
          (store_computed fails clock lazy_source ttl def key group answer s)
  unfolding store_computed
  store_computed-Leaves lazy_source def key group refused s = refl
  store_computed-Leaves lazy_source def key group no_row s = refl
  store_computed-Leaves lazy_source def key group (cell c) s =
      let empty = empty_value lazy_source.source def.id key in
      let v = set_aggregate lazy_source.source def.aggregate_type c empty in
      (
        record v { computed_at = whole_micros (clock s.statements) },
        store_value-IsStored fails clock works def.id key v s (
            set_aggregate-Named lazy_source.source def.id key def.aggregate_type c empty
              (empty_value-Named lazy_source.source def.id key)),
        (whole_micros_twice v (clock s.statements), omega arith),
        store_value-definitions fails clock works v s,
      )

  compute_group-Leaves :
      (lazy_source : LazySource F) (def : AggregateDefinition) (key : String)
      (group : Option (GoMap String)) (s : Store F)
      → Leaves def.id key s.definitions (compute_group fails clock lazy_source ttl def key group s)
  unfolding compute_group
  compute_group-Leaves lazy_source def key none s = refl
  compute_group-Leaves lazy_source def key (some group) s =
      store_computed-Leaves lazy_source def key group _ s

  compute-Leaves :
      (lazy_source : LazySource F) (def : AggregateDefinition) (key : String) (s : Store F)
      → Leaves def.id key s.definitions
          (compute_single_aggregate fails clock lazy_source ttl def key s)
  unfolding compute_single_aggregate
  compute-Leaves lazy_source def key s = compute_group-Leaves lazy_source def key _ s

  answer_lazy-Leaves :
      (lazy_source : LazySource F) (def : AggregateDefinition) (key : String)
      (found : Option (StoredValue F)) (s : Store F)
      → select_value def.id key s.values ≡ found
      → Leaves def.id key s.definitions
          (answer_lazy fails clock lazy_source ttl def key (true, found) s)
  unfolding answer_lazy
  answer_lazy-Leaves lazy_source def key none s h = compute-Leaves lazy_source def key s
  answer_lazy-Leaves lazy_source def key (some v) s h =
      elim (Bool-cases (is_fresh ttl (clock s.statements) v)) [
        | inl e ↦ rw e (v, h, (refl, omega arith), refl)
        | inr e ↦ rw e (compute-Leaves lazy_source def key s)
      ]

  get_or_compute_lazy-Leaves :
      (lazy_source : LazySource F) (id key : String) (def : AggregateDefinition) (s : Store F)
      → get_aggregate id s ≡ some def
      → def.id ≡ id
      → def.refresh_strategy ≡ "lazy"
      → Leaves def.id key s.definitions (get_or_compute_lazy fails clock lazy_source ttl id key s)
  unfolding get_or_compute_lazy
  get_or_compute_lazy-Leaves lazy_source id key def s found named lazy =
      rw (get_or_compute_lazy, found, lazy, get_aggregate_value-works fails clock works id key s)
        (answer_lazy-Leaves lazy_source def key (select_value id key s.values)
          (record s { statements = s.statements + 1 }) (rw named refl))

  stays_fresh :
      (lazy_source : LazySource F) (id key : String) (def : AggregateDefinition) (v : StoredValue F)
      (t : Store F)
      → get_aggregate id t ≡ some def
      → def.refresh_strategy ≡ "lazy"
      → IsStored id key v t
      → clock (t.statements + 1) < v.computed_at + ttl
      → get_or_compute_lazy fails clock lazy_source ttl id key t ≡ (
        given (some (record { columns = v; group_values = [] })),
        record t { statements = t.statements + 1 },
      )
  unfolding get_or_compute_lazy answer_lazy is_fresh
  stays_fresh lazy_source id key def v t found lazy stored fresh =
      let still : is_fresh ttl (clock (t.statements + 1)) v ≡ true =
        lt→ltb (clock (t.statements + 1)) (v.computed_at + ttl) fresh in
      rw
        (
          get_or_compute_lazy,
          found,
          lazy,
          get_aggregate_value-works fails clock works id key t,
          stored,
          still,
        )
        refl

  -- A lazy aggregate that has been asked for and has a value gives, while no statement of DuckDB
  -- fails, the same value again before its time to live is over, from the whole microsecond of its time
  -- on, whatever PostgreSQL would answer by then, and without a change of the values in the store: all
  -- columns are as before, up to the parts of a microsecond of the time, but the answer has no values
  -- of the group.
  pub get_or_compute_lazy-twice :
      (before after : LazySource F) (id key : String) (def : AggregateDefinition) (v : LazyValue F)
      (s t : Store F)
      → get_aggregate id s ≡ some def
      → def.id ≡ id
      → def.refresh_strategy ≡ "lazy"
      → get_or_compute_lazy fails clock before ttl id key s ≡ (given (some v), t)
      → clock (t.statements + 1) < whole_micros v.columns.computed_at + ttl
      → let r = get_or_compute_lazy fails clock after ttl id key t in
        (w : StoredValue F) × (r.0 ≡ given (some (record { columns = w; group_values = [] })))
        × (to_micros w ≡ to_micros v.columns)
        × (r.1.values ≡ t.values)
  unfolding get_aggregate
  get_or_compute_lazy-twice before after id key def v s t found named lazy first fresh =
      let (w, stored, kept, defs) =
        rw first at (get_or_compute_lazy-Leaves before id key def s found named lazy) in
      let again =
        stays_fresh after id key def w t (ap (lookup id) defs ∙ found) lazy (rw (← named) stored)
          (omega (arith, fresh, kept.1)) in
      (w, rw again refl, kept.0, rw again refl)
