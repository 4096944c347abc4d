-- ===== src/Events/Fetch.antt =====
-- `fetchPendingEvents` of internal/events/triggers.go keeps rows and events in flight consistent.
use graphpost.Prelude.{
  ℕ, zero, suc, ◌+◌, ◌≤◌, String, List, [], ◌∷◌, ◌++◌, Bool, true, false, some, arith, ◌≡◌, inl,
  inr, refl, ◌==◌, eq_iff, eq_refl, ltb, length, All, All-append, Bool-cases,
}
use graphpost.Maps.{GoMap, lookup, keys, count}
use graphpost.Events.Table.{
  processing, pending, Row, TriggerManager, update, set_status, exec, is_due, due_rows, event_of,
  Replies, fetch_row, fetch_rows, fetch_pending_events, queue_capacity,
}
use graphpost.Events.Held.{
  ids, count-append, ids-append, lookup-update, keys-update, Held, IsConsistent, Held-others,
  due_not_in_flight, exec-IsConsistent,
}

-- The database takes the updates of the fetch.
abbrev pub taken : (String → Bool) → Replies
taken scans = record { answers = true; scans = scans; marks = λ id. true; unmarks = λ id. true }

once_more :
    (k id : String) (ws qs : List String)
    → count id ws ≡ 0
    → count id qs ≡ 0
    → count k ws + count k qs ≤ 1
    → count k ws + (count k qs + count k (id ∷ [])) ≤ 1
once_more k id ws qs idle absent h = unfold count in ground (arith, eq_iff id k)

-- A row in the queue: marked, and behind the others.
queue_row :
    (id : String) (row : Row) {tm : TriggerManager}
    → lookup id tm.rows ≡ some row
    → is_due row ≡ true
    → IsConsistent tm
    → IsConsistent (record tm {
      rows = update id (set_status processing) tm.rows;
      event_queue = tm.event_queue ++ (event_of id row ∷ []);
    })
queue_row id row {tm} found due c =
    let idle = due_not_in_flight id row tm.rows tm.working found due c.at_work in
    let absent = due_not_in_flight id row tm.rows tm.event_queue found due c.waiting in
    record {
      distinct = λ k. rw keys-update (c.distinct k);
      once = λ k.
          rw (ids-append, count-append)
            (once_more k id (ids tm.working) (ids tm.event_queue) idle absent (c.once k));
      at_work = Held-others id (set_status processing) tm.rows tm.working idle c.at_work;
      waiting =
          All-append (Held (update id (set_status processing) tm.rows)) tm.event_queue
            (event_of id row ∷ [])
            (Held-others id (set_status processing) tm.rows tm.event_queue absent c.waiting)
            (inr (set_status processing row, rw (lookup-update, eq_refl, found), refl, refl), tt);
    }

-- A row that finds the queue full is marked twice.
put_back :
    (id : String) (row : Row) {tm : TriggerManager}
    → lookup id tm.rows ≡ some row
    → is_due row ≡ true
    → IsConsistent tm
    → IsConsistent (exec true id (set_status pending) (exec true id (set_status processing) tm))
put_back id row {tm} found due c =
    let idle = due_not_in_flight id row tm.rows tm.working found due c.at_work in
    let absent = due_not_in_flight id row tm.rows tm.event_queue found due c.waiting in
    unfold exec in
    exec-IsConsistent true id (set_status pending) idle absent
      (exec-IsConsistent true id (set_status processing) idle absent c)

-- Rows that the loop of the fetch has still to do.
unfoldable pub Ready : GoMap Row → GoMap Row → Type 0
Ready rows [] = Unit
Ready rows ((id, row) ∷ picks) =
    (lookup id rows ≡ some row)
    × (is_due row ≡ true)
    × (count id (keys picks) ≡ 0)
    × Ready rows picks

Ready-update :
    (id : String) (change : Row → Row) (rows picks : GoMap Row)
    → count id (keys picks) ≡ 0
    → Ready rows picks
    → Ready (update id change rows) picks
unfolding Ready count
Ready-update id change rows [] absent r = tt
Ready-update id change rows ((k, row) ∷ picks) absent (found, due, alone, rest) = (
  let other : (id == k) ≡ false = ground (arith, eq_iff k id, eq_iff id k) in
      rw (lookup-update, other) found,
  due,
  alone,
  Ready-update id change rows picks (ground arith) rest,
)

fetch_row-IsConsistent :
    (scans : String → Bool) (id : String) (row : Row) (picks : GoMap Row) {tm : TriggerManager}
    → Ready tm.rows ((id, row) ∷ picks)
    → IsConsistent tm
    → IsConsistent (fetch_row (taken scans) id row tm)
      × Ready (fetch_row (taken scans) id row tm).rows picks
unfolding fetch_row exec Ready
fetch_row-IsConsistent scans id row picks {tm} (found, due, alone, rest) c =
    elim (Bool-cases (scans id)) [
      | inl read ↦ elim (Bool-cases (ltb (length tm.event_queue) queue_capacity)) [
        | inl room ↦
            rw (read, room)
              (
                queue_row id row found due c,
                Ready-update id (set_status processing) tm.rows picks alone rest,
              )
        | inr full ↦
            rw (read, full)
              (
                put_back id row found due c,
                Ready-update id (set_status pending) _ picks alone
                    (Ready-update id (set_status processing) tm.rows picks alone rest),
              )
      ]
      | inr unread ↦ rw unread (c, rest)
    ]

fetch_rows-IsConsistent :
    (scans : String → Bool) (picks : GoMap Row) {tm : TriggerManager}
    → Ready tm.rows picks
    → IsConsistent tm
    → IsConsistent (fetch_rows (taken scans) picks tm)
unfolding fetch_rows
fetch_rows-IsConsistent scans [] r c = c
fetch_rows-IsConsistent scans ((id, row) ∷ picks) r c =
    let (c', r') = fetch_row-IsConsistent scans id row picks r c in
    fetch_rows-IsConsistent scans picks r' c'

-- The table finds every entry of a part of it.
Found : GoMap Row → GoMap Row → Type 0
Found rows = All (λ e. lookup e.0 rows ≡ some e.1)

Found-cons :
    (j : String) (row : Row) (rows part : GoMap Row)
    → count j (keys part) ≡ 0
    → Found rows part
    → Found ((j, row) ∷ rows) part
unfolding Found lookup count
Found-cons j row rows [] absent h = tt
Found-cons j row rows ((k, r) ∷ part) absent (found, rest) =
    (ground (arith, eq_iff j k, eq_iff k j), Found-cons j row rows part (ground arith) rest)

Found-all : (rows : GoMap Row) → ((k : String) → count k (keys rows) ≤ 1) → Found rows rows
unfolding Found lookup count
Found-all [] d = tt
Found-all ((j, row) ∷ rows) d = (
  rw eq_refl refl,
  Found-cons j row rows rows (ground (arith, d j, eq_refl j))
      (Found-all rows (λ k. ground (arith, d k))),
)

count-due_rows :
    (k : String) (n : ℕ) (rows : GoMap Row) → count k (keys (due_rows n rows)) ≤ count k (keys rows)
unfolding count due_rows
count-due_rows k zero rows = omega arith
count-due_rows k (suc n) [] = omega arith
count-due_rows k (suc n) ((j, row) ∷ rows) = elim (Bool-cases (is_due row)) [
  | inl due ↦ rw due (omega (arith, count-due_rows k n rows))
  | inr not_due ↦ rw not_due (omega (arith, count-due_rows k (suc n) rows))
]

due_rows-Ready :
    (all : GoMap Row) (n : ℕ) (rows : GoMap Row)
    → ((k : String) → count k (keys rows) ≤ 1)
    → Found all rows
    → Ready all (due_rows n rows)
unfolding Ready Found due_rows count
due_rows-Ready all zero rows d h = tt
due_rows-Ready all (suc n) [] d h = tt
due_rows-Ready all (suc n) ((j, row) ∷ rows) d (found, rest) =
    let d' : (k : String) → count k (keys rows) ≤ 1 = λ k. ground (arith, d k) in
    elim (Bool-cases (is_due row)) [
      | inl due ↦ rw due (
        found,
        due,
        ground (arith, count-due_rows j n rows, d j, eq_refl j),
        due_rows-Ready all n rows d' rest,
      )
      | inr not_due ↦ rw not_due (due_rows-Ready all (suc n) rows d' rest)
    ]

pub fetch_pending_events-IsConsistent :
    (scans : String → Bool) {tm : TriggerManager}
    → IsConsistent tm
    → IsConsistent (fetch_pending_events (taken scans) tm)
unfolding fetch_pending_events
fetch_pending_events-IsConsistent scans {tm} c =
    fetch_rows-IsConsistent scans (due_rows 100 tm.rows)
      (due_rows-Ready tm.rows 100 tm.rows c.distinct (Found-all tm.rows c.distinct)) c
