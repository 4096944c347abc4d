-- ===== src/Analytics/Capture/Polls.antt =====
-- Many polls of the listener: what a table's events are.
use mathlib.Core.List.{append_assoc}
use graphpost.Prelude.{
  ℕ, String, List, [], ◌∷◌, ◌++◌, Bool, true, false, Option, none, some, ◌==◌, eq_iff,
  if◌then◌else◌, ◌≡◌, refl, sym, ◌∙◌, ap, arith, Bool-cases, inl, inr, keep, keep-append,
}
use graphpost.Prelude.Int.{ℤ, ltb_ℤ}
use graphpost.Maps.{GoMap, lookup, put, lookup-put}
use graphpost.Analytics.Capture.{
  CdcListener, CdcEvent, TableStats, change_event, event_if, changes, first_seen, poll_rows,
  poll_tables, poll_changes,
}

abbrev pub Reading : Type 0
Reading = Option (String × TableStats × ℕ)

-- The events of one poll after the other, and the counters at the end.
unfoldable pub run_polls :
    CdcListener → List (Option (List Reading)) → GoMap TableStats → List CdcEvent × GoMap TableStats
run_polls l [] prev = ([], prev)
run_polls l (poll ∷ polls) prev =
    let (events, next) = poll_changes poll l prev in
    let (rest, last) = run_polls l polls next in (events ++ rest, last)

-- All rows of polls whose query works, in order.
unfoldable pub all_rows : List (Option (List Reading)) → List Reading
all_rows [] = []
all_rows (none ∷ polls) = all_rows polls
all_rows (some rows ∷ polls) = rows ++ all_rows polls

-- Spec: what is read of one table.
unfoldable pub readings_of : String → List Reading → List (TableStats × ℕ)
readings_of t [] = []
readings_of t (none ∷ rows) = readings_of t rows
readings_of t (some (table, stats, now) ∷ rows) =
    let rest = readings_of t rows in if table == t then (stats, now) ∷ rest else rest

-- Spec: the event of a counter that is larger than it was.
unfoldable pub grown : String → ℕ → String → ℤ → ℤ → List CdcEvent
grown t now operation before after =
    if ltb_ℤ before after
    then record {
      table = t;
      operation = operation;
      timestamp = now;
      old_data = none;
      new_data = none;
    }
      ∷ []
    else []

-- Spec: the events of one table, each reading against the one before.
unfoldable pub growth : String → Option TableStats → List (TableStats × ℕ) → List CdcEvent
unfolding grown
growth t prev [] = []
growth t none ((stats, now) ∷ readings) = growth t (some stats) readings
growth t (some prev) ((stats, now) ∷ readings) =
    grown t now "INSERT" prev.inserts stats.inserts
    ++ grown t now "UPDATE" prev.updates stats.updates
    ++ grown t now "DELETE" prev.deletes stats.deletes
    ++ growth t (some stats) readings

growth-first_seen :
    (t : String) (prev : Option TableStats) (stats : TableStats) (now : ℕ)
    (readings : List (TableStats × ℕ))
    → growth t prev ((stats, now) ∷ readings)
      ≡ first_seen now t prev stats ++ growth t (some stats) readings
unfolding growth changes change_event grown
growth-first_seen t none stats now readings = refl
growth-first_seen t (some prev) stats now readings = refl

abbrev pub events_of : String → List CdcEvent → List CdcEvent
events_of t = keep (λ e. e.table == t)

events_of-event_if :
    (t : String) (b : Bool) (now : ℕ) (table op : String)
    → events_of t (event_if b (change_event now table op))
      ≡ (if table == t then event_if b (change_event now table op) else [])
unfolding change_event
events_of-event_if t true now table op = refl
events_of-event_if t false now table op = ground arith

either_table :
    (b : Bool) (xs ys zs : List CdcEvent)
    → (if b then xs else []) ++ (if b then ys else []) ++ (if b then zs else [])
      ≡ (if b then xs ++ ys ++ zs else [])
either_table true xs ys zs = refl
either_table false xs ys zs = refl

events_of-changes :
    (t : String) (now : ℕ) (table : String) (prev stats : TableStats)
    → events_of t (changes now table prev stats)
      ≡ (if table == t then changes now table prev stats else [])
unfolding changes
events_of-changes t now table prev stats =
    let insert = event_if (ltb_ℤ prev.inserts stats.inserts) (change_event now table "INSERT") in
    let update = event_if (ltb_ℤ prev.updates stats.updates) (change_event now table "UPDATE") in
    let delete = event_if (ltb_ℤ prev.deletes stats.deletes) (change_event now table "DELETE") in
    keep-append (λ (e : CdcEvent). e.table == t) (insert ++ update) delete
    ∙ ap (λ es. es ++ events_of t delete)
        (keep-append (λ (e : CdcEvent). e.table == t) insert update)
    ∙ rw
        (
          events_of-event_if t (ltb_ℤ prev.inserts stats.inserts) now table "INSERT",
          events_of-event_if t (ltb_ℤ prev.updates stats.updates) now table "UPDATE",
          events_of-event_if t (ltb_ℤ prev.deletes stats.deletes) now table "DELETE",
        )
        (either_table (table == t) insert update delete)

events_of-first_seen :
    (t : String) (now : ℕ) (table : String) (prev : Option TableStats) (stats : TableStats)
    → events_of t (first_seen now table prev stats)
      ≡ (if table == t then first_seen now table prev stats else [])
events_of-first_seen t now table none stats = ground arith
events_of-first_seen t now table (some prev) stats = events_of-changes t now table prev stats

events_of-poll_rows :
    (t : String) (rows : List Reading) (prev : GoMap TableStats)
    → events_of t (poll_rows true rows prev).0 ≡ growth t (lookup t prev) (readings_of t rows)
unfolding poll_rows growth readings_of
events_of-poll_rows t [] prev = refl
events_of-poll_rows t (none ∷ rows) prev = events_of-poll_rows t rows prev
events_of-poll_rows t (some (table, stats, now) ∷ rows) prev =
    let seen = first_seen now table (lookup table prev) stats in
    let ih = events_of-poll_rows t rows (put table stats prev) in
    keep-append (λ (e : CdcEvent). e.table == t) seen (poll_rows true rows (put table stats prev)).0
    ∙ rw
        (
          events_of-first_seen t now table (lookup table prev) stats,
          ih,
          lookup-put table t stats prev,
        )
        (elim (Bool-cases (table == t)) [
          | inl e ↦ rw e (
              ap
                (λ x.
                  first_seen now x (lookup x prev) stats
                  ++ growth t (some stats) (readings_of t rows))
                ((eq_iff table t).0 e)
              ∙ sym (growth-first_seen t (lookup t prev) stats now (readings_of t rows)))
          | inr e ↦ rw e refl
        ])

poll_rows-append :
    (xs ys : List Reading) (prev : GoMap TableStats)
    → let first = poll_rows true xs prev in
      (poll_rows true (xs ++ ys) prev).0 ≡ first.0 ++ (poll_rows true ys first.1).0
unfolding poll_rows
poll_rows-append [] ys prev = refl
poll_rows-append (none ∷ xs) ys prev = poll_rows-append xs ys prev
poll_rows-append (some (table, stats, now) ∷ xs) ys prev =
    let seen = first_seen now table (lookup table prev) stats in
    let next = put table stats prev in
    ap (λ es. seen ++ es) (poll_rows-append xs ys next)
    ∙ sym (append_assoc seen (poll_rows true xs next).0 _)

poll_tables-some :
    (m : GoMap Bool) (rows : List Reading) (prev : GoMap TableStats)
    → (m ≡ [] → ⊥)
    → poll_tables m true rows prev ≡ poll_rows true rows prev
unfolding poll_tables
poll_tables-some [] rows prev monitors = absurd (monitors refl)
poll_tables-some (t ∷ ts) rows prev monitors = refl

-- Polls of a listener with a callback and a table are one poll of all their rows.
run_polls-poll_rows :
    (l : CdcListener) (polls : List (Option (List Reading))) (prev : GoMap TableStats)
    → l.has_callback ≡ true
    → (l.monitored_tables ≡ [] → ⊥)
    → (run_polls l polls prev).0 ≡ (poll_rows true (all_rows polls) prev).0
unfolding run_polls all_rows poll_changes poll_rows
run_polls-poll_rows l [] prev calls monitors = refl
run_polls-poll_rows l (none ∷ polls) prev calls monitors =
    run_polls-poll_rows l polls prev calls monitors
run_polls-poll_rows l (some rows ∷ polls) prev calls monitors =
    rw (calls, poll_tables-some l.monitored_tables rows prev monitors)
      (rw (run_polls-poll_rows l polls (poll_rows true rows prev).1 calls monitors)
        (sym (poll_rows-append rows (all_rows polls) prev)))

-- However many polls there are, and whatever else they read, the events of one table are, for each of its
-- readings in order, an INSERT, an UPDATE and a DELETE without data at the time of the reading, each if
-- the counter of it is larger than in the reading before, and none for a reading that has none before: a
-- poll that fails or misses the table only delays them. The listener has a callback and monitors a
-- table.
pub run_polls-growth :
    (l : CdcListener) (t : String) (polls : List (Option (List Reading))) (prev : GoMap TableStats)
    → l.has_callback ≡ true
    → (l.monitored_tables ≡ [] → ⊥)
    → events_of t (run_polls l polls prev).0
      ≡ growth t (lookup t prev) (readings_of t (all_rows polls))
run_polls-growth l t polls prev calls monitors =
    ap (events_of t) (run_polls-poll_rows l polls prev calls monitors)
    ∙ events_of-poll_rows t (all_rows polls) prev
