-- ===== src/Analytics/Refresh/Values.antt =====
-- The values that a refresh leaves in the store.
use graphpost.Prelude.{
  ℕ, ◌+◌, String, List, [], ◌∷◌, Bool, true, false, ◌&&◌, Option, none, some, ◌==◌, eq_iff, eq_refl,
  if◌then◌else◌, ◌≡◌, refl, ◌∙◌, ap, arith, Bool-cases, Option-cases, inl, inr,
}
use graphpost.Maps.{GoMap}
use graphpost.Analytics.Router.{AggregateDefinition}
use graphpost.Analytics.Store.{
  Store, StoredValue, select_value, delete_values, replace_value, remove_key, whole_micros,
}
use graphpost.Analytics.Store.Operations.{store_aggregate_value, exec_duckdb, now}
use graphpost.Analytics.Refresh.{
  Cell, Postgres, is_aggregate_type, int64_cell, group_key_of, group_values, value_of_row,
  value_of_cells, set_aggregate, empty_value,
}
use graphpost.Analytics.Refresh.Execution.{store_rows}

module _ {F : Type 0} where
  pub select_value-delete_values :
      (id i key : String) (vs : List (StoredValue F))
      → select_value i key (delete_values id vs) ≡ (if id == i then none else select_value i key vs)
  unfolding select_value delete_values
  select_value-delete_values id i key [] = ground arith
  select_value-delete_values id i key (v ∷ vs) = ground (
    arith,
    select_value-delete_values id i key vs,
    eq_iff v.aggregate_id id,
    eq_iff v.aggregate_id i,
    eq_iff id i,
  )

  abbrev is_of : String → String → StoredValue F → Bool
  is_of id key v = (v.aggregate_id == id) && (v.group_key == key)

  select_value-remove_key :
      (id own i key : String) (vs : List (StoredValue F))
      → select_value i key (remove_key id own vs)
        ≡ (if (id == i) && (own == key) then none else select_value i key vs)
  unfolding select_value remove_key
  select_value-remove_key id own i key [] = ground arith
  select_value-remove_key id own i key (w ∷ vs) = ground (
    arith,
    select_value-remove_key id own i key vs,
    eq_iff w.aggregate_id id,
    eq_iff w.aggregate_id i,
    eq_iff id i,
    eq_iff w.group_key own,
    eq_iff w.group_key key,
    eq_iff own key,
  )

  pub select_value-replace_value :
      (v : StoredValue F) (i key : String) (vs : List (StoredValue F))
      → select_value i key (replace_value v vs)
        ≡ (if is_of i key v then some v else select_value i key vs)
  unfolding select_value replace_value
  select_value-replace_value v i key vs =
      ground (arith, select_value-remove_key v.aggregate_id v.group_key i key vs)

  -- A value without the time at which it was stored.
  abbrev pub untimed : Option (StoredValue F) → Option (StoredValue F)
  untimed none = none
  untimed (some v) = some (record v { computed_at = 0 })

  -- Spec: the last of the rows that is of a group.
  unfoldable pub last_of :
      (List (Cell F) → Option (StoredValue F))
      → String
      → List (Option (List (Cell F)))
      → Option (StoredValue F)
      → Option (StoredValue F)
  last_of value key [] found = found
  last_of value key (none ∷ rows) found = last_of value key rows found
  last_of value key (some cells ∷ rows) found =
      last_of value key rows (elim (value cells) [
        | none ↦ found
        | some v ↦ if v.group_key == key then some v else found
      ])

module _ {F : Type 0} (source : Postgres F) where
  abbrev Begun : String → StoredValue F → Type 0
  Begun id v = (v.aggregate_id ≡ id) × (v.computed_at ≡ 0)

  some-Begun : (id : String) (x v : StoredValue F) → Begun id x → some x ≡ some v → Begun id v
  some-Begun id x v h e = let this : x ≡ v = cc in rw (← this) h

  unless-Begun :
      (b : Bool) (id : String) (x v : StoredValue F)
      → Begun id x
      → (if b then none else some x) ≡ some v
      → Begun id v
  unless-Begun true id x v h e = cc
  unless-Begun false id x v h e = some-Begun id x v h e

  set_aggregate-Begun :
      (id type : String) (cell : Cell F) (v : StoredValue F)
      → Begun id v
      → Begun id (set_aggregate source type cell v)
  unfolding set_aggregate
  set_aggregate-Begun id type (int64_cell n) v h = ground arith
  set_aggregate-Begun id type cell v h = ground arith

  value_of_cells-Begun :
      (def : AggregateDefinition) (found : GoMap (Cell F) × List (Cell F)) (v : StoredValue F)
      → value_of_cells source def found ≡ some v
      → Begun def.id v
  unfolding value_of_cells empty_value
  value_of_cells-Begun def (groups, []) v h =
      unless-Begun (is_aggregate_type def.aggregate_type) def.id _ v (refl, refl) h
  value_of_cells-Begun def (groups, cell ∷ rest) v h =
      some-Begun def.id _ v
        (set_aggregate-Begun def.id def.aggregate_type cell
          (empty_value source def.id (group_key_of source groups)) (refl, refl))
        h

  -- The value of a row is of the aggregate, and has no time yet.
  value_of_row-Begun :
      (def : AggregateDefinition) (cells : List (Cell F)) (v : StoredValue F)
      → value_of_row source def cells ≡ some v
      → Begun def.id v
  unfolding value_of_row
  value_of_row-Begun def cells v h =
      elim (Option-cases (group_values source def.group_by_columns cells [])) [
        | inl e ↦ cc (rw (value_of_row, e) at h)
        | inr (found, e) ↦ value_of_cells-Begun def found v (rw (value_of_row, e) at h)
      ]

module _ {F : Type 0} (fails : ℕ → Bool) (clock : ℕ → ℕ) (source : Postgres F) where
  fresh_value : (v : StoredValue F) → v.computed_at ≡ 0 → record v { computed_at = 0 } ≡ v
  fresh_value v h = rw h cc

  same_aggregate :
      (a id : String) (b : Bool) (v : StoredValue F) (now : ℕ) (found : Option (StoredValue F))
      → a ≡ id
      → v.computed_at ≡ 0
      → untimed (if (a == id) && b then some (record v { computed_at = now }) else found)
        ≡ (if b then some v else untimed found)
  same_aggregate a id true v now found e h = rw (e, eq_refl id) (ap some (fresh_value v h))
  same_aggregate a id false v now found e h = rw (e, eq_refl id) refl

  -- A stored value is there for its group, and the others stay.
  store_value-group :
      (id key : String) (v : StoredValue F) (s : Store F)
      → (v.aggregate_id ≡ id) × (v.computed_at ≡ 0)
      → (store_aggregate_value fails clock v s).0 ≡ true
      → untimed (select_value id key (store_aggregate_value fails clock v s).1.values)
        ≡ (if v.group_key == key then some v else untimed (select_value id key s.values))
  unfolding store_aggregate_value exec_duckdb
  store_value-group id key v s begun works = elim (Bool-cases (fails s.statements)) [
    | inl e ↦ cc (rw (store_aggregate_value, e) at works)
    | inr e ↦
        rw (store_aggregate_value, e)
          (rw
            (select_value-replace_value
              (record v { computed_at = whole_micros (clock s.statements) }) id key s.values)
            (same_aggregate v.aggregate_id id (v.group_key == key) v _ _ begun.0 begun.1))
  ]

  pub store_rows-values :
      (def : AggregateDefinition) (is_broken : Bool) (key : String)
      (rows : List (Option (List (Cell F)))) (n : ℕ) (s : Store F)
      → (store_rows fails clock source def is_broken rows n s).0.1 ≡ none
      → untimed
          (select_value def.id key (store_rows fails clock source def is_broken rows n s).1.values)
        ≡ last_of (value_of_row source def) key rows (untimed (select_value def.id key s.values))
  unfolding store_rows last_of
  store_rows-values def is_broken key [] n s h = refl
  store_rows-values def is_broken key (none ∷ rows) n s h = cc
  store_rows-values def is_broken key (some cells ∷ rows) n s h =
      elim (Option-cases (value_of_row source def cells)) [
        | inl e ↦ cc (rw (store_rows, e) at h)
        | inr (v, e) ↦ elim (Bool-cases (store_aggregate_value fails clock v s).0) [
          | inl works ↦
              rw (store_rows, e, works)
                (store_rows-values def is_broken key rows (n + 1)
                    (store_aggregate_value fails clock v s).1 (rw (store_rows, e, works) at h)
                  ∙ ap (last_of (value_of_row source def) key rows) (
                      store_value-group def.id key v s (value_of_row-Begun source def cells v e)
                        works))
          | inr refused ↦ cc (rw (store_rows, e, refused) at h)
        ]
      ]
