-- ===== src/Subscription/Delivery.antt =====
-- Whom `broadcastEvent` of internal/subscription/manager.go reaches.
use mathlib.Core.Option
use mathlib.Core.Option.{get_or}
use graphpost.Prelude.{
  String, [], ◌∷◌, ◌++◌, Bool, not, ◌&&◌, ◌||◌, ltb, length, Option, none, some, arith, ◌≡◌, ◌⊎◌,
  inl, inr, refl, sym, ◌∙◌, ap, ◌==◌, eq_iff, if◌then◌else◌, Bool-cases,
}
use graphpost.Maps.{GoMap, lookup, put, lookup-put}
use graphpost.Subscription.{
  SubscriptionEvent, NotificationPayload, Subscriber, Manager, of_table, offer, offer_all, event_of,
  broadcast_event,
}

-- The subscriber that a manager has for a table and an id.
abbrev pub subscriber : String → String → Manager → Option Subscriber
subscriber table id m = lookup id (of_table table m.subscribers)

pub of_table-put :
    (table other : String) (subs : GoMap Subscriber) (tables : GoMap (GoMap Subscriber))
    → of_table other (put table subs tables)
      ≡ (if table == other then subs else of_table other tables)
of_table-put table other subs tables = elim (Bool-cases (table == other)) [
  | inl same ↦ rw (lookup-put table other subs tables, same) refl
  | inr differs ↦ rw (lookup-put table other subs tables, differs) refl
]

pub offer-closed :
    (picks_channel : Bool) (event : SubscriptionEvent) (sub : Subscriber)
    → (offer picks_channel event sub).closed ≡ sub.closed
unfolding offer
offer-closed picks_channel event sub = ground arith

pub lookup-offer_all :
    (picks : String → Bool) (event : SubscriptionEvent) (id : String) (subs : GoMap Subscriber)
    → lookup id (offer_all picks event subs) ≡ Option.map (offer (picks id) event) (lookup id subs)
unfolding lookup offer_all
lookup-offer_all picks event id [] = refl
lookup-offer_all picks event id ((k, sub) ∷ subs) = elim (Bool-cases (k == id)) [
  | inl same ↦ let this : k ≡ id = ground (arith, eq_iff k id) in rw (same, this) refl
  | inr differs ↦ rw differs (lookup-offer_all picks event id subs)
]

list_cases :
    (subs : GoMap Subscriber)
    → (subs ≡ []) ⊎ ((e : String × Subscriber) × (rest : GoMap Subscriber) × (subs ≡ e ∷ rest))
list_cases [] = inl refl
list_cases (e ∷ rest) = inr (e, rest, refl)

of_table-broadcast_event :
    (picks : String → Bool) (table other : String) (payload : NotificationPayload) (m : Manager)
    → of_table other (broadcast_event picks table payload m).subscribers ≡ (
        if table == other
        then offer_all picks (event_of table payload) (of_table other m.subscribers)
        else of_table other m.subscribers)
unfolding broadcast_event offer_all
of_table-broadcast_event picks table other payload m =
    elim (list_cases (of_table table m.subscribers)) [
      | inl nobody ↦ elim (Bool-cases (table == other)) [
        | inl same ↦
            let this : table ≡ other = ground (arith, eq_iff table other) in
            let nobody_there : of_table other m.subscribers ≡ [] = rw (← this) nobody in
            rw (broadcast_event, nobody, same, nobody_there) refl
        | inr differs ↦ rw (broadcast_event, nobody, differs) refl
      ]
      | inr (e, rest, present) ↦
          rw (broadcast_event, present)
            (of_table-put table other (offer_all picks (event_of table payload) (e ∷ rest))
                m.subscribers
              ∙ elim (Bool-cases (table == other)) [
                | inl same ↦
                    let this : table ≡ other = ground (arith, eq_iff table other) in
                    rw same
                      (ap (offer_all picks (event_of table payload)) (sym present ∙ rw this refl))
                | inr differs ↦ rw differs refl
              ])
    ]

-- The subscriber of a table after a broadcast, by the `offer` of the loop.
pub subscriber-offer :
    (picks : String → Bool) (table other id : String) (payload : NotificationPayload) (m : Manager)
    → subscriber other id (broadcast_event picks table payload m) ≡ (
        if table == other
        then Option.map (offer (picks id) (event_of table payload)) (subscriber other id m)
        else subscriber other id m)
subscriber-offer picks table other id payload m = elim (Bool-cases (table == other)) [
  | inl same ↦
      rw (of_table-broadcast_event picks table other payload m, same)
        (lookup-offer_all picks (event_of table payload) id (of_table other m.subscribers))
  | inr differs ↦ rw (of_table-broadcast_event picks table other payload m, differs) refl
]

-- The channel has room, and `Done` is open or its case is not taken.
abbrev pub is_reached : Bool → Subscriber → Bool
is_reached picks_channel sub =
    ltb (length sub.channel) sub.capacity && (not sub.closed || picks_channel)

-- A subscriber behind whose events the one of a notification stands, if it is reached.
abbrev pub with_event : Bool → String → NotificationPayload → Subscriber → Subscriber
with_event picks_channel table payload sub = record sub {
  channel =
      if is_reached picks_channel sub
      then sub.channel
        ++ (record {
          event_type = payload.operation;
          table = table;
          data_fields = payload.data_fields;
          old_data = payload.old_data;
        }
            ∷ [])
      else sub.channel;
}

offer-with_event :
    (picks_channel : Bool) (table : String) (payload : NotificationPayload) (sub : Subscriber)
    → offer picks_channel (event_of table payload) sub ≡ with_event picks_channel table payload sub
unfolding offer
offer-with_event picks_channel table payload sub = ground arith

map-offer :
    (picks_channel : Bool) (table : String) (payload : NotificationPayload) (o : Option Subscriber)
    → Option.map (offer picks_channel (event_of table payload)) o
      ≡ Option.map (with_event picks_channel table payload) o
map-offer picks_channel table payload none = refl
map-offer picks_channel table payload (some sub) =
    ap some (offer-with_event picks_channel table payload sub)

-- After `broadcastEvent` every subscriber of the table whose channel has room, and whose `Done` is open
-- or, if it is closed, has its case not taken, has the event with the operation and the data of the
-- notification behind what its channel held. Every other subscriber of the table, and each of another
-- table, is as before.
pub subscriber-broadcast_event :
    (picks : String → Bool) (table other id : String) (payload : NotificationPayload) (m : Manager)
    → subscriber other id (broadcast_event picks table payload m) ≡ (
        if table == other
        then Option.map (with_event (picks id) table payload) (subscriber other id m)
        else subscriber other id m)
subscriber-broadcast_event picks table other id payload m =
    rw (← map-offer (picks id) table payload (subscriber other id m))
      (subscriber-offer picks table other id payload m)
