-- ===== src/Events/Deliveries.antt =====
-- The start and the end of a delivery, and `RedeliverEvent`, of internal/events/triggers.go keep rows
-- and events in flight consistent.
use graphpost.Prelude.{
  ℕ, zero, suc, String, List, [], ◌∷◌, true, Option, none, some, arith, ◌≡◌, inl, inr, refl, ◌==◌,
  eq_refl, All, Bool-cases, Option-cases,
}
use mathlib.Core.Option
use graphpost.Maps.{GoMap, count}
use graphpost.Events.Table.{
  processing, Row, Event, EventTrigger, TriggerManager, EventsConfig, update, exec, start_delivery,
}
use graphpost.Events.Delivery.{
  WebhookRequest, Reply, outcome, take_out, deliver_event, revive, redeliver_event,
}
use graphpost.Events.Held.{ids, lookup-update, keys-update, Held, IsConsistent, exec-IsConsistent}

start_next :
    (triggers : GoMap EventTrigger) (rows : GoMap Row) (queue working : List Event)
    → IsConsistent
        (record { triggers = triggers; rows = rows; event_queue = queue; working = working })
    → IsConsistent (
        start_delivery
          (record { triggers = triggers; rows = rows; event_queue = queue; working = working }))
unfolding start_delivery count
start_next triggers rows [] working c = c
start_next triggers rows (event ∷ rest) working c = record {
  distinct = c.distinct;
  once = λ k. omega (arith, c.once k);
  at_work = (c.waiting.0, c.at_work);
  waiting = c.waiting.1;
}

pub start_delivery-IsConsistent :
    {tm : TriggerManager} → IsConsistent tm → IsConsistent (start_delivery tm)
start_delivery-IsConsistent {tm} c = start_next tm.triggers tm.rows tm.event_queue tm.working c

-- What taking one of the events out leaves.
TakenOut : (Event → Type 0) → List Event → Option (Event × List Event) → Type 0
TakenOut P es none = Unit
TakenOut P es (some (e, others)) =
    P e × All P others × ((k : String) → count k (ids es) ≡ count k (e.id ∷ ids others))

take_out-TakenOut :
    (P : Event → Type 0) (n : ℕ) (es : List Event) → All P es → TakenOut P es (take_out n es)
unfolding take_out TakenOut
take_out-TakenOut P n [] all = tt
take_out-TakenOut P zero (event ∷ events) all = (all.0, all.1, λ k. refl)
take_out-TakenOut P (suc n) (event ∷ events) all =
    past event events all.0 (take_out n events) (take_out-TakenOut P n events all.1)
  where
    past :
        (x : Event) (xs : List Event)
        → P x
        → (o : Option (Event × List Event)) → TakenOut P xs o
        → TakenOut P (x ∷ xs) (Option.map (λ found. (found.0, x ∷ found.1)) o)
    past x xs h none t = tt
    past x xs h (some (e, others)) (first, rest, counts) =
        (first, (h, rest), λ k. unfold count in ground (arith, counts k))

pub deliver_event-IsConsistent :
    (cfg : EventsConfig) (http : WebhookRequest → Reply) (n : ℕ) {tm : TriggerManager}
    → IsConsistent tm
    → IsConsistent (deliver_event cfg http true n tm)
unfolding deliver_event TakenOut
deliver_event-IsConsistent cfg http n {tm} c = elim (Option-cases (take_out n tm.working)) [
  | inl nothing_left ↦ rw (deliver_event, nothing_left) c
  | inr ((e, others), found) ↦
      rw (deliver_event, found)
        (let (held, rest, counts) =
            rw found at (take_out-TakenOut (Held tm.rows) n tm.working c.at_work) in
          exec-IsConsistent true e.id (outcome cfg http tm.triggers e)
            (unfold count in ground (arith, counts e.id, c.once e.id, eq_refl e.id))
            (unfold count in ground (arith, counts e.id, c.once e.id, eq_refl e.id))
            (record {
              distinct = c.distinct;
              once = λ k. unfold count in ground (arith, counts k, c.once k);
              at_work = rest;
              waiting = c.waiting;
            }))
]

revive-processing : (row : Row) → row.status ≡ processing → revive row ≡ row
revive-processing row h = rw h refl

Held-revive :
    (id : String) (rows : GoMap Row) (e : Event) → Held rows e → Held (update id revive rows) e
Held-revive id rows e (inl missing) = inl (
    rw (lookup-update, missing)
      (elim (Bool-cases (id == e.id)) [ inl same ↦ rw same refl | inr other ↦ rw other refl ]))
Held-revive id rows e (inr (row, found, at_work, as_queued)) = inr (
  row,
  rw (lookup-update, found)
      (elim (Bool-cases (id == e.id)) [
        | inl same ↦ rw (same, revive-processing row at_work) refl
        | inr other ↦ rw other refl
      ]),
  at_work,
  as_queued,
)

All-Held-revive :
    (id : String) (rows : GoMap Row) (es : List Event)
    → All (Held rows) es
    → All (Held (update id revive rows)) es
All-Held-revive id rows [] h = tt
All-Held-revive id rows (e ∷ es) h = (Held-revive id rows e h.0, All-Held-revive id rows es h.1)

pub redeliver_event-IsConsistent :
    (id : String) {tm : TriggerManager}
    → IsConsistent tm
    → IsConsistent (redeliver_event true id tm).1
unfolding redeliver_event exec
redeliver_event-IsConsistent id {tm} c = record {
  distinct = λ k. rw keys-update (c.distinct k);
  once = c.once;
  at_work = All-Held-revive id tm.rows tm.working c.at_work;
  waiting = All-Held-revive id tm.rows tm.event_queue c.waiting;
}
