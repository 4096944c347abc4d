-- ===== src/Subscription.antt =====
-- Subscriptions of internal/subscription/manager.go. A channel is the list of what it holds, with
-- its capacity; a result that is none is a panic. Each method is one step.
pub mod Delivery
pub mod Lifetime
pub mod Stopped
pub mod Polling
use mathlib.Core.Option
use mathlib.Core.Option.{get_or}
use graphpost.Prelude.{
  ℕ, ◌+◌, String, List, [], ◌∷◌, ◌++◌, map, Bool, true, false, not, Option, none, some, ltb, ◌==◌,
  if◌then◌else◌, length,
}
use graphpost.Json.{Fields}
use graphpost.Maps.{GoMap, lookup, delete, put}

pub record SubscriptionEvent : Type 0 where
  pub event_type : String
  pub table : String
  pub data_fields : Option Fields
  pub old_data : Option Fields

pub record NotificationPayload : Type 0 where
  pub operation : String
  pub data_fields : Option Fields
  pub old_data : Option Fields

-- `closed` is whether `Done` is closed.
pub record Subscriber : Type 0 where
  pub id : String
  pub table_name : String
  pub channel : List SubscriptionEvent
  pub capacity : ℕ
  pub closed : Bool

-- `subscribers` by table, and by id in each; `listeners` are the tables that have one.
pub record Manager : Type 0 where
  pub listeners : List String
  pub subscribers : GoMap (GoMap Subscriber)

-- The map of a table, nil if there is none.
abbrev pub of_table : String → GoMap (GoMap Subscriber) → GoMap Subscriber
of_table table subs = get_or (lookup table subs) []

unfoldable pub subscribe : Subscriber → Manager → Manager
subscribe sub m = record m {
  subscribers =
      put sub.table_name (put sub.id sub (of_table sub.table_name m.subscribers)) m.subscribers;
}

-- Closing `Done` twice panics; the subscriber that is closed leaves the manager.
unfoldable pub unsubscribe : String → String → Manager → Option Manager
unsubscribe table id m = elim (lookup table m.subscribers) [
  | none ↦ some m
  | some subs ↦ elim (lookup id subs) [
    | none ↦ some m
    | some sub ↦
        if sub.closed
        then none
        else some (record m { subscribers = put table (delete id subs) m.subscribers })
  ]
]

abbrev pub close_done : Subscriber → Subscriber
close_done sub = record sub { closed = true }

unfoldable pub close_table : GoMap Subscriber → Option (GoMap Subscriber)
close_table [] = some []
close_table ((id, sub) ∷ subs) =
    let rest = Option.map (◌∷◌ (id, close_done sub)) (close_table subs) in
    if sub.closed then none else rest

unfoldable pub close_tables : GoMap (GoMap Subscriber) → Option (GoMap (GoMap Subscriber))
unfolding close_table
close_tables [] = some []
close_tables ((table, subs) ∷ tables) = elim (close_table subs) [
  | none ↦ none
  | some closed_subs ↦ Option.map (◌∷◌ (table, closed_subs)) (close_tables tables)
]

-- `Stop` keeps the subscribers that it closes, and the listeners that it stops.
unfoldable pub stop : Manager → Option Manager
unfolding close_tables
stop m = Option.map (λ subs. record m { subscribers = subs }) (close_tables m.subscribers)

abbrev pub send : SubscriptionEvent → Subscriber → Subscriber
send event sub = record sub { channel = sub.channel ++ (event ∷ []) }

-- The `select` of `broadcastEvent`: where the channel has room and `Done` is closed, either case may
-- be taken, and `picks_channel` says which.
unfoldable pub offer : Bool → SubscriptionEvent → Subscriber → Subscriber
offer picks_channel event sub =
    if ltb (length sub.channel) sub.capacity
    then if sub.closed then if picks_channel then send event sub else sub else send event sub
    else sub

-- The loop over the subscribers of a table.
unfoldable pub offer_all : (String → Bool) → SubscriptionEvent → GoMap Subscriber → GoMap Subscriber
offer_all picks event [] = []
offer_all picks event ((id, sub) ∷ subs) =
    (id, offer (picks id) event sub) ∷ offer_all picks event subs

abbrev pub event_of : String → NotificationPayload → SubscriptionEvent
event_of table payload = record {
  event_type = payload.operation;
  table = table;
  data_fields = payload.data_fields;
  old_data = payload.old_data;
}

unfoldable pub broadcast_event : (String → Bool) → String → NotificationPayload → Manager → Manager
broadcast_event picks table payload m = elim (of_table table m.subscribers) [
  | [] ↦ m
  | sub ∷ subs ↦ record m {
    subscribers = put table (offer_all picks (event_of table payload) (sub ∷ subs)) m.subscribers;
  }
]

-- A live query: the channel holds results, and the hash of a result is its JSON text.
pub record LiveQuery : Type 0 where
  pub id : String
  pub channel : List (List Fields)
  pub capacity : ℕ
  pub closed : Bool
  pub last_result : List Fields
  pub last_hash : String

-- `pollQuery`; `rows` is what `ResolveQuery` gives, none if it fails.
unfoldable pub poll_query :
    (List Fields → String) → Bool → Option (List Fields) → LiveQuery → LiveQuery
poll_query hash_results picks_channel none lq = lq
poll_query hash_results picks_channel (some rows) lq =
    let seen = record lq { last_result = rows; last_hash = hash_results rows } in
    let sent = record seen { channel = lq.channel ++ (rows ∷ []) } in
    if hash_results rows == lq.last_hash
    then lq
    else if ltb (length lq.channel) lq.capacity
    then if lq.closed then if picks_channel then sent else seen else sent
    else seen

unfoldable pub subscribe_live : LiveQuery → GoMap LiveQuery → GoMap LiveQuery
subscribe_live lq queries = put lq.id lq queries

unfoldable pub unsubscribe_live : String → GoMap LiveQuery → Option (GoMap LiveQuery)
unsubscribe_live id queries = elim (lookup id queries) [
  | none ↦ some queries
  | some lq ↦ if lq.closed then none else some (delete id queries)
]
