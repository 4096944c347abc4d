-- ===== src/Subscription/Lifetime.antt =====
-- When `Done` is closed in internal/subscription/manager.go.
use mathlib.Core.Option
use graphpost.Prelude.{
  String, List, [], ◌∷◌, Bool, false, All, Option, none, some, ◌≡◌, inl, inr, refl, ◌∙◌, ◌==◌,
  Bool-cases, Option-cases,
}
use graphpost.Maps.{GoMap, lookup, delete, put, lookup-put, lookup-delete}
use graphpost.Subscription.{
  NotificationPayload, Subscriber, Manager, of_table, offer, event_of, subscribe, unsubscribe,
  broadcast_event,
}
use graphpost.Subscription.Delivery.{subscriber, of_table-put, offer-closed, subscriber-offer}

-- Every subscriber of the manager has an open `Done`.
abbrev pub AllOpen : Manager → Type 0
AllOpen m =
    (table id : String) (sub : Subscriber) → subscriber table id m ≡ some sub → sub.closed ≡ false

-- Calls before `Stop`.
pub data Call : Type 0 where
  subscribed : Subscriber → Call
  unsubscribed : String → String → Call
  broadcast : (String → Bool) → String → NotificationPayload → Call

-- A call that subscribes does so with an open `Done`.
abbrev pub IsOpening : Call → Type 0
IsOpening (subscribed sub) = sub.closed ≡ false
IsOpening _ = Unit

unfoldable pub call : Call → Manager → Option Manager
call (subscribed sub) m = some (subscribe sub m)
call (unsubscribed table id) m = unsubscribe table id m
call (broadcast picks table payload) m = some (broadcast_event picks table payload m)

unfoldable pub calls : List Call → Manager → Option Manager
unfolding Option.bind
calls [] m = some m
calls (c ∷ cs) m = Option.bind (call c m) (calls cs)

OpenIn : GoMap Subscriber → Type 0
OpenIn subs = (id : String) (sub : Subscriber) → lookup id subs ≡ some sub → sub.closed ≡ false

put-AllOpen :
    (to : String) (subs : GoMap Subscriber) (m : Manager)
    → AllOpen m
    → OpenIn subs
    → AllOpen (record m { subscribers = put to subs m.subscribers })
unfolding OpenIn
put-AllOpen to subs m all_open in_subs table id sub found = elim (Bool-cases (to == table)) [
  | inl same ↦ in_subs id sub (rw (of_table-put to table subs m.subscribers, same) at found)
  | inr differs ↦
      all_open table id sub (rw (of_table-put to table subs m.subscribers, differs) at found)
]

put-OpenIn :
    (sub : Subscriber) (subs : GoMap Subscriber)
    → sub.closed ≡ false
    → OpenIn subs
    → OpenIn (put sub.id sub subs)
unfolding OpenIn
put-OpenIn sub subs is_open in_subs id s found = elim (Bool-cases (sub.id == id)) [
  | inl same ↦
      let this : some sub ≡ some s = rw (lookup-put sub.id id sub subs, same) at found in
      let that : sub ≡ s = cc in rw (← that) is_open
  | inr differs ↦ in_subs id s (rw (lookup-put sub.id id sub subs, differs) at found)
]

delete-OpenIn : (k : String) (subs : GoMap Subscriber) → OpenIn subs → OpenIn (delete k subs)
unfolding OpenIn
delete-OpenIn k subs in_subs id s found = elim (Bool-cases (k == id)) [
  | inl same ↦ let gone : none ≡ some s = rw (lookup-delete k id subs, same) at found in absurd cc
  | inr differs ↦ in_subs id s (rw (lookup-delete k id subs, differs) at found)
]

of_table-OpenIn : (table : String) (m : Manager) → AllOpen m → OpenIn (of_table table m.subscribers)
unfolding OpenIn
of_table-OpenIn table m all_open id sub found = all_open table id sub found

subscribe-AllOpen :
    (sub : Subscriber) (m : Manager) → sub.closed ≡ false → AllOpen m → AllOpen (subscribe sub m)
unfolding subscribe
subscribe-AllOpen sub m is_open all_open =
    put-AllOpen sub.table_name (put sub.id sub (of_table sub.table_name m.subscribers)) m all_open (
      put-OpenIn sub (of_table sub.table_name m.subscribers) is_open
        (of_table-OpenIn sub.table_name m all_open))

broadcast-AllOpen :
    (picks : String → Bool) (to : String) (payload : NotificationPayload) (m : Manager)
    → AllOpen m
    → AllOpen (broadcast_event picks to payload m)
broadcast-AllOpen picks to payload m all_open table id s found = elim (Bool-cases (to == table)) [
  | inl same ↦ elim (Option-cases (subscriber table id m)) [
    | inl missing ↦
        let gone : none ≡ some s =
          rw (subscriber-offer picks to table id payload m, same, missing) at found in
        absurd cc
    | inr (r, present) ↦
        let offered : some (offer (picks id) (event_of to payload) r) ≡ some s =
          rw (subscriber-offer picks to table id payload m, same, present) at found in
        let this : offer (picks id) (event_of to payload) r ≡ s = cc in
        rw (← this) (offer-closed (picks id) (event_of to payload) r ∙ all_open table id r present)
  ]
  | inr differs ↦
      all_open table id s (rw (subscriber-offer picks to table id payload m, differs) at found)
]

unsubscribe-AllOpen :
    (table id : String) (m : Manager)
    → AllOpen m
    → (m' : Manager) × (unsubscribe table id m ≡ some m') × AllOpen m'
unfolding unsubscribe
unsubscribe-AllOpen table id m all_open = elim (Option-cases (lookup table m.subscribers)) [
  | inl no_table ↦ (m, rw (unsubscribe, no_table) refl, all_open)
  | inr (subs, found) ↦ elim (Option-cases (lookup id subs)) [
    | inl no_sub ↦ (m, rw (unsubscribe, found, no_sub) refl, all_open)
    | inr (sub, present) ↦
        let is_open : sub.closed ≡ false = all_open table id sub (rw found present) in
        let there : OpenIn subs = rw found at (of_table-OpenIn table m all_open) in
        (
          record m { subscribers = put table (delete id subs) m.subscribers },
          rw (unsubscribe, found, present, is_open) refl,
          put-AllOpen table (delete id subs) m all_open (delete-OpenIn id subs there),
        )
  ]
]

call-AllOpen :
    (c : Call) (m : Manager)
    → IsOpening c
    → AllOpen m
    → (m' : Manager) × (call c m ≡ some m') × AllOpen m'
unfolding call
call-AllOpen (subscribed sub) m is_open all_open =
    (subscribe sub m, refl, subscribe-AllOpen sub m is_open all_open)
call-AllOpen (unsubscribed table id) m opening all_open = unsubscribe-AllOpen table id m all_open
call-AllOpen (broadcast picks table payload) m opening all_open =
    (broadcast_event picks table payload m, refl, broadcast-AllOpen picks table payload m all_open)

-- Before `Stop`, a sequence of `Subscribe`, `Unsubscribe` and `broadcastEvent` does not panic, and
-- leaves every subscriber that the manager keeps open, if every subscriber comes with a `Done` of its
-- own that is open.
pub calls-AllOpen :
    (cs : List Call) (m : Manager)
    → All IsOpening cs
    → AllOpen m
    → (m' : Manager) × (calls cs m ≡ some m') × AllOpen m'
unfolding calls Option.bind
calls-AllOpen [] m opening all_open = (m, refl, all_open)
calls-AllOpen (c ∷ cs) m opening all_open =
    let (m1, first, open1) = call-AllOpen c m opening.0 all_open in
    let (m2, rest, open2) = calls-AllOpen cs m1 opening.1 open1 in (m2, rw (first) rest, open2)
