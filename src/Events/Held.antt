-- ===== src/Events/Held.antt =====
-- What holds of the events in flight of internal/events/triggers.go, that is in the queue or with a
-- goroutine, and of their rows.
use graphpost.Prelude.{
  ◌+◌, ◌≤◌, String, List, [], ◌∷◌, ◌++◌, map, Bool, true, false, none, some, arith, ◌≡◌, ◌⊎◌, inl,
  inr, refl, ◌==◌, eq_iff, if◌then◌else◌, All,
}
use mathlib.Core.Option
use graphpost.Maps.{GoMap, lookup, keys, count}
use graphpost.Events.Table.{processing, Row, Event, TriggerManager, update, exec, is_due}

abbrev pub ids : List Event → List String
ids = map (λ e. e.id)

pub count-append : (k : String) (xs ys : List String) → count k (xs ++ ys) ≡ count k xs + count k ys
unfolding count
count-append k [] ys = omega arith
count-append k (x ∷ xs) ys = omega (arith, count-append k xs ys)

pub ids-append : (xs ys : List Event) → ids (xs ++ ys) ≡ ids xs ++ ids ys
ids-append [] ys = refl
ids-append (x ∷ xs) ys = cong_ids x (ids-append xs ys)
  where
    cong_ids : (e : Event) {l m : List String} → l ≡ m → e.id ∷ l ≡ e.id ∷ m
    cong_ids e h = rw h

pub lookup-update :
    (id k : String) (change : Row → Row) (rows : GoMap Row)
    → lookup k (update id change rows)
      ≡ (if id == k then Option.map change (lookup k rows) else lookup k rows)
unfolding lookup update
lookup-update id k change [] = ground arith
lookup-update id k change ((j, row) ∷ rows) =
    ground (arith, lookup-update id k change rows, eq_iff j id, eq_iff j k, eq_iff id k)

pub keys-update :
    (id : String) (change : Row → Row) (rows : GoMap Row) → keys (update id change rows) ≡ keys rows
unfolding update
keys-update id change [] = refl
keys-update id change ((j, row) ∷ rows) = rw (keys-update id change rows)

-- An event in flight was invoked by hand and has no row, or its row waits for it.
abbrev pub Held : GoMap Row → Event → Type 0
Held rows e =
    (lookup e.id rows ≡ none)
    ⊎ ((row : Row) × (lookup e.id rows ≡ some row)
        × (row.status ≡ processing)
        × (row.retry_count ≡ e.retry_count))

-- Each row has its own id; each event in flight has its own id and is held.
pub record IsConsistent (tm : TriggerManager) : Type 0 where
  pub distinct : (k : String) → count k (keys tm.rows) ≤ 1
  pub once : (k : String) → count k (ids tm.working) + count k (ids tm.event_queue) ≤ 1
  pub at_work : All (Held tm.rows) tm.working
  pub waiting : All (Held tm.rows) tm.event_queue

pub Held-update :
    (id : String) (change : Row → Row) (rows : GoMap Row) (e : Event)
    → (id == e.id) ≡ false
    → Held rows e
    → Held (update id change rows) e
Held-update id change rows e other h = rw (lookup-update, other) h

pub Held-others :
    (id : String) (change : Row → Row) (rows : GoMap Row) (es : List Event)
    → count id (ids es) ≡ 0
    → All (Held rows) es
    → All (Held (update id change rows)) es
unfolding count
Held-others id change rows [] absent h = tt
Held-others id change rows (e ∷ es) absent h = (
  Held-update id change rows e (ground (arith, eq_iff e.id id, eq_iff id e.id)) h.0,
  Held-others id change rows es (ground arith) h.1,
)

is_due-processing : (row : Row) → row.status ≡ processing → is_due row ≡ false
is_due-processing row h = rw h

due_elsewhere :
    (id : String) (row : Row) (rows : GoMap Row) (e : Event)
    → lookup id rows ≡ some row
    → is_due row ≡ true
    → Held rows e
    → e.id ≡ id
    → ⊥
due_elsewhere id row rows e found due (inl missing) same = cc
due_elsewhere id row rows e found due (inr (r, there, at_work, _)) same =
    let idle = is_due-processing r at_work in cc

-- A row that is due is not in flight.
pub due_not_in_flight :
    (id : String) (row : Row) (rows : GoMap Row) (es : List Event)
    → lookup id rows ≡ some row
    → is_due row ≡ true
    → All (Held rows) es
    → count id (ids es) ≡ 0
unfolding count
due_not_in_flight id row rows [] found due h = refl
due_not_in_flight id row rows (e ∷ es) found due h =
    let other = due_elsewhere id row rows e found due h.0 in
    ground (arith, due_not_in_flight id row rows es found due h.1, eq_iff e.id id)

pub exec-IsConsistent :
    (works : Bool) (id : String) (change : Row → Row) {tm : TriggerManager}
    → count id (ids tm.working) ≡ 0
    → count id (ids tm.event_queue) ≡ 0
    → IsConsistent tm
    → IsConsistent (exec works id change tm)
unfolding exec
exec-IsConsistent false id change idle absent c = c
exec-IsConsistent true id change {tm} idle absent c = record {
  distinct = λ k. rw keys-update (c.distinct k);
  once = c.once;
  at_work = Held-others id change tm.rows tm.working idle c.at_work;
  waiting = Held-others id change tm.rows tm.event_queue absent c.waiting;
}
