-- ===== src/Tests/SubscriptionTests.antt =====
-- Runs of internal/subscription at concrete inputs.
use mathlib.Core.Option
use graphpost.Prelude.{
  String, List, [], ◌∷◌, Bool, true, false, none, some, ◌≡◌, refl, ◌==◌, if◌then◌else◌, length, ltb,
}
use graphpost.Json.{Fields, end}
use graphpost.Maps.{lookup, delete}
use graphpost.Subscription.{
  Subscriber, Manager, NotificationPayload, LiveQuery, subscribe, unsubscribe, stop, offer,
  offer_all, broadcast_event, poll_query,
}
use graphpost.Subscription.Delivery.{subscriber, with_event, subscriber-broadcast_event}
use graphpost.Subscription.Lifetime.{
  AllOpen, subscribed, unsubscribed, broadcast, Call, call, calls, calls-AllOpen,
}
use graphpost.Subscription.Stopped.{unsubscribe-stop}
use graphpost.Subscription.Polling.{drained, poll_query-sends_once}

program : Unit {0}
unfolding lookup delete subscribe unsubscribe stop offer offer_all broadcast_event poll_query call
    calls
program = tt

abbrev alice : Subscriber
alice = record { id = "a"; table_name = "users"; channel = []; capacity = 1; closed = false }

abbrev nobody : Manager
nobody = record { listeners = []; subscribers = [] }

abbrev manager : Manager
manager = record { listeners = []; subscribers = ("users", ("a", alice) ∷ []) ∷ [] }

abbrev stopped : Manager
stopped = record {
  listeners = [];
  subscribers = ("users", ("a", record alice { closed = true }) ∷ []) ∷ [];
}

abbrev payload : NotificationPayload
payload = record { operation = "INSERT"; data_fields = some end; old_data = none }

abbrev always : String → Bool
always id = true

-- The second event finds the channel full.
drops_second :
    Option.map
      (λ s. length s.channel)
      (subscriber "users" "a"
        (broadcast_event always "users" payload (broadcast_event always "users" payload manager)))
    ≡ some 1
unfolding program
drops_second = refl

subscriber-broadcast_event_example :
    subscriber "users" "a" (broadcast_event always "users" payload manager) ≡ (
      if "users" == "users"
      then Option.map (with_event true "users" payload) (subscriber "users" "a" manager)
      else subscriber "users" "a" manager)
subscriber-broadcast_event_example =
    subscriber-broadcast_event always "users" "users" "a" payload manager

nobody-AllOpen : AllOpen nobody
nobody-AllOpen table id sub found = unfold lookup in cc

abbrev history : List Call
history =
    subscribed alice
    ∷ broadcast always "users" payload
    ∷ unsubscribed "users" "a"
    ∷ unsubscribed "users" "a"
    ∷ []

calls-AllOpen_example : (m' : Manager) × (calls history nobody ≡ some m') × AllOpen m'
calls-AllOpen_example = calls-AllOpen history nobody (refl, (tt, (tt, (tt, tt)))) nobody-AllOpen

unsubscribe-stop_example : unsubscribe "users" "a" stopped ≡ none
unsubscribe-stop_example =
    unsubscribe-stop "users" "a" alice manager stopped (unfold stop in refl) (unfold lookup in refl)

abbrev live : LiveQuery
live = record {
  id = "q";
  channel = [] ∷ [];
  capacity = 1;
  closed = false;
  last_result = [];
  last_hash = "";
}

abbrev hash_results : List Fields → String
hash_results rows = if ltb (length rows) 1 then "[]" else "[{}]"

poll_query-sends_once_example :
    poll_query hash_results true
      (some (end ∷ []))
      (drained (poll_query hash_results true (some (end ∷ [])) live))
    ≡ drained (poll_query hash_results true (some (end ∷ [])) live)
poll_query-sends_once_example = poll_query-sends_once hash_results true true (end ∷ []) live
