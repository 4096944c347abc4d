-- ===== src/Events/Runs.antt =====
-- Runs of the goroutines of internal/events/triggers.go in any order.
use graphpost.Prelude.{
  ℕ, ◌+◌, ◌≤◌, String, List, [], ◌∷◌, ◌++◌, Bool, true, false, none, arith, ◌≡◌, inl, inr, refl,
  ◌==◌, eq_iff, eqb, if◌then◌else◌, length, All, All-append, not, ◌&&◌, ltb, Bool-cases,
  Option-cases,
}
use graphpost.Json.{Fields}
use graphpost.Maps.{GoMap, lookup, keys, count, lookup-none_of_count}
use graphpost.Events.Table.{
  pending, Row, Event, EventTrigger, TriggerManager, EventsConfig, register_trigger,
  unregister_trigger, fetch_pending_events, start_delivery, queue_capacity,
}
use graphpost.Events.Delivery.{
  WebhookRequest, Reply, deliver_event, redeliver_event, Invoked, not_enabled, waits, queued,
  invoke_event_trigger,
}
use graphpost.Events.Held.{ids, count-append, ids-append, Held, IsConsistent}
use graphpost.Events.Deliveries.{
  start_delivery-IsConsistent, deliver_event-IsConsistent, redeliver_event-IsConsistent,
}
use graphpost.Events.Fetch.{taken, fetch_pending_events-IsConsistent}

-- A new id: of no row and of no event in flight.
abbrev pub is_fresh : String → TriggerManager → Bool
is_fresh id tm =
    eqb (count id (keys tm.rows) + (count id (ids tm.working) + count id (ids tm.event_queue))) 0

-- What can happen next. `inserted` is a row that the trigger of the database writes.
pub data Action : Type 0 where
  registered : Bool → EventTrigger → Action
  unregistered : Bool → String → Action
  inserted : String → Row → Action
  fetched : (String → Bool) → Action
  started : Action
  finished : ℕ → Action
  redelivered : String → Action
  invoked : String → ℕ → String → Fields → Action

-- A manager with nothing in it.
abbrev pub idle_manager : TriggerManager
idle_manager = record { triggers = []; rows = []; event_queue = []; working = [] }

abbrev new_row : Row → Row
new_row row = record row { status = pending; retry_count = 0; last_error = none }

abbrev invoke_result : TriggerManager → Invoked → TriggerManager
invoke_result tm (queued tm') = tm'
invoke_result tm _ = tm

module _ (cfg : EventsConfig) (http : WebhookRequest → Reply) where
  -- The database works, and it and the clock give new ids.
  unfoldable pub act : Action → TriggerManager → TriggerManager
  act (registered created trigger) tm = (register_trigger created trigger tm).1
  act (unregistered dropped name) tm = (unregister_trigger dropped name tm).1
  act (inserted id row) tm =
      if is_fresh id tm then record tm { rows = tm.rows ++ ((id, new_row row) ∷ []) } else tm
  act (fetched scans) tm = fetch_pending_events (taken scans) tm
  act started tm = start_delivery tm
  act (finished n) tm = deliver_event cfg http true n tm
  act (redelivered id) tm = (redeliver_event true id tm).1
  act (invoked uuid now name payload) tm =
      if is_fresh uuid tm
      then invoke_result tm (invoke_event_trigger cfg uuid now name payload tm)
      else tm

  unfoldable pub run : List Action → TriggerManager → TriggerManager
  run [] tm = tm
  run (action ∷ actions) tm = run actions (act action tm)

lookup-append_other :
    (id k : String) (row : Row) (rows : GoMap Row)
    → (id == k) ≡ false
    → lookup k (rows ++ ((id, row) ∷ [])) ≡ lookup k rows
unfolding lookup
lookup-append_other id k row [] other = rw other refl
lookup-append_other id k row ((j, r) ∷ rows) other =
    rw (lookup-append_other id k row rows other) refl

Held-append :
    (id : String) (row : Row) (rows : GoMap Row) (es : List Event)
    → count id (ids es) ≡ 0
    → All (Held rows) es
    → All (Held (rows ++ ((id, row) ∷ []))) es
unfolding count
Held-append id row rows [] absent h = tt
Held-append id row rows (e ∷ es) absent h =
    let other : (id == e.id) ≡ false = ground (arith, eq_iff e.id id, eq_iff id e.id) in
    (
      rw (lookup-append_other id e.id row rows other) h.0,
      Held-append id row rows es (ground arith) h.1,
    )

keys-append :
    (rows : GoMap Row) (id : String) (row : Row)
    → keys (rows ++ ((id, row) ∷ [])) ≡ keys rows ++ (id ∷ [])
keys-append [] id row = refl
keys-append (e ∷ rows) id row = rw (keys-append rows id row)

count-fresh :
    (k id : String) (l : List String)
    → count id l ≡ 0
    → count k l ≤ 1
    → count k (l ++ (id ∷ [])) ≤ 1
count-fresh k id l absent h = rw count-append (unfold count in ground (arith, eq_iff id k))

insert-IsConsistent :
    (id : String) (row : Row) {tm : TriggerManager}
    → is_fresh id tm ≡ true
    → IsConsistent tm
    → IsConsistent (record tm { rows = tm.rows ++ ((id, row) ∷ []) })
insert-IsConsistent id row {tm} fresh c = record {
  distinct = λ k. rw keys-append (count-fresh k id (keys tm.rows) (ground arith) (c.distinct k));
  once = c.once;
  at_work = Held-append id row tm.rows tm.working (ground arith) c.at_work;
  waiting = Held-append id row tm.rows tm.event_queue (ground arith) c.waiting;
}

queue_fresh :
    (e : Event) {tm : TriggerManager}
    → is_fresh e.id tm ≡ true
    → IsConsistent tm
    → IsConsistent (record tm { event_queue = tm.event_queue ++ (e ∷ []) })
queue_fresh e {tm} fresh c = record {
  distinct = c.distinct;
  once =
      λ k. rw (ids-append, count-append) (unfold count in ground (arith, c.once k, eq_iff e.id k));
  at_work = c.at_work;
  waiting =
      All-append (Held tm.rows) tm.event_queue (e ∷ []) c.waiting
        (inl (lookup-none_of_count e.id tm.rows (ground arith)), tt);
}

invoke-IsConsistent :
    (cfg : EventsConfig) (uuid : String) (now : ℕ) (name : String) (payload : Fields)
    {tm : TriggerManager}
    → is_fresh uuid tm ≡ true
    → IsConsistent tm
    → IsConsistent (invoke_result tm (invoke_event_trigger cfg uuid now name payload tm))
unfolding invoke_event_trigger
invoke-IsConsistent cfg uuid now name payload {tm} fresh c =
    elim (Option-cases (lookup name tm.triggers)) [
      | inl missing ↦ rw (invoke_result, missing) c
      | inr (trigger, found) ↦
          rw (invoke_result, found)
            (if-invoked (not trigger.enable_manual && not cfg.enable_manual_trigger)
              (ltb (length tm.event_queue) queue_capacity) _ c (queue_fresh _ fresh c))
    ]
  where
    if-invoked :
        (refused room : Bool) (next : TriggerManager)
        → IsConsistent tm
        → IsConsistent next
        → IsConsistent (
            invoke_result tm (if refused then not_enabled else if room then queued next else waits))
    if-invoked true room next h k = h
    if-invoked false true next h k = k
    if-invoked false false next h k = h

with_triggers :
    (triggers : GoMap EventTrigger) {tm : TriggerManager}
    → IsConsistent tm
    → IsConsistent (record tm { triggers = triggers })
with_triggers triggers c = record {
  distinct = c.distinct;
  once = c.once;
  at_work = c.at_work;
  waiting = c.waiting;
}

unregister_trigger-IsConsistent :
    (dropped : Bool) (name : String) {tm : TriggerManager}
    → IsConsistent tm
    → IsConsistent (unregister_trigger dropped name tm).1
unfolding unregister_trigger
unregister_trigger-IsConsistent dropped name {tm} c =
    elim (Option-cases (lookup name tm.triggers)) [
      | inl missing ↦ rw (unregister_trigger, missing) c
      | inr (trigger, found) ↦
          rw (unregister_trigger, found)
            (elim (Bool-cases dropped) [
              | inl gone ↦ rw gone (with_triggers _ c)
              | inr kept ↦ rw kept c
            ])
    ]

act-IsConsistent :
    (cfg : EventsConfig) (http : WebhookRequest → Reply) (action : Action) {tm : TriggerManager}
    → IsConsistent tm
    → IsConsistent (act cfg http action tm)
unfolding act register_trigger
act-IsConsistent cfg http (registered created trigger) c = with_triggers _ c
act-IsConsistent cfg http (unregistered dropped name) c =
    unregister_trigger-IsConsistent dropped name c
act-IsConsistent cfg http (inserted id row) {tm} c = elim (Bool-cases (is_fresh id tm)) [
  | inl fresh ↦ rw fresh (insert-IsConsistent id (new_row row) fresh c)
  | inr used ↦ rw used c
]
act-IsConsistent cfg http (fetched scans) c = fetch_pending_events-IsConsistent scans c
act-IsConsistent cfg http started c = start_delivery-IsConsistent c
act-IsConsistent cfg http (finished n) c = deliver_event-IsConsistent cfg http n c
act-IsConsistent cfg http (redelivered id) c = redeliver_event-IsConsistent id c
act-IsConsistent cfg http (invoked uuid now name payload) {tm} c =
    elim (Bool-cases (is_fresh uuid tm)) [
      | inl fresh ↦ rw fresh (invoke-IsConsistent cfg uuid now name payload fresh c)
      | inr used ↦ rw used c
    ]

run-from :
    (cfg : EventsConfig) (http : WebhookRequest → Reply) (actions : List Action)
    {tm : TriggerManager}
    → IsConsistent tm
    → IsConsistent (run cfg http actions tm)
unfolding run
run-from cfg http [] c = c
run-from cfg http (action ∷ actions) c =
    run-from cfg http actions (act-IsConsistent cfg http action c)

-- Whatever happens in whatever order, if the database works: no event is twice in flight, and the
-- row of an event in flight that is not a manual one is being processed, with the retries that the
-- event counts.
pub run-IsConsistent :
    (cfg : EventsConfig) (http : WebhookRequest → Reply) (actions : List Action)
    → IsConsistent (run cfg http actions idle_manager)
run-IsConsistent cfg http actions = run-from cfg http actions (record {
  distinct = λ k. unfold count in omega arith;
  once = λ k. unfold count in omega arith;
  at_work = tt;
  waiting = tt;
})
