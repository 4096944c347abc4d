-- ===== src/Tests/EventsTests.antt =====
-- Runs of internal/events at concrete inputs.
use graphpost.Prelude.{
  String, List, [], ◌∷◌, Bool, true, false, Option, none, some, ◌≡◌, refl, length,
}
use graphpost.Prelude.Int.{pos}
use graphpost.Json.{end}
use graphpost.Maps.{lookup, count}
use graphpost.Resolver.Sql.{decimal}
use graphpost.Events.Table.{
  EventStatus, pending, delivered, failed, retrying, Row, EventTrigger, EventsConfig, update, exec,
  register_trigger, due_rows, fetch_row, fetch_rows, fetch_pending_events, start_delivery,
}
use graphpost.Events.Delivery.{
  WebhookRequest, Reply, no_response, response, handle_delivery_failure, outcome, after_reply,
  take_out, deliver_event, redeliver_event, invoke_event_trigger,
}
use graphpost.Events.Held.{IsConsistent}
use graphpost.Events.Runs.{
  Action, registered, inserted, fetched, started, finished, invoked, idle_manager, act, run,
  run-IsConsistent,
}
use graphpost.Events.Retries.{lone, rounds, call_count, Progress, rounds-Progress}

program : Unit {0}
unfolding lookup count decimal update exec register_trigger due_rows fetch_row fetch_rows
    fetch_pending_events start_delivery handle_delivery_failure outcome after_reply take_out
    deliver_event redeliver_event invoke_event_trigger act run rounds
program = tt

abbrev config : EventsConfig
config = record { retry_limit = pos 1; enable_manual_trigger = false }

abbrev trigger : EventTrigger
trigger = record {
  name = "new_user";
  table = record { schema = "public"; name = "users" };
  operations = "INSERT" ∷ [];
  webhook_url = "http://hook";
  headers = [];
  retry_config = none;
  enable_manual = true;
}

abbrev user_row : Row
user_row = record {
  trigger_name = "new_user";
  table = record { schema = "public"; name = "users" };
  operation = "INSERT";
  old_data = none;
  new_data = some end;
  status = pending;
  retry_count = 0;
  last_error = none;
  created_at = 5;
}

abbrev down : WebhookRequest → Reply
down r = no_response "refused"

abbrev works : WebhookRequest → Reply
works r = response 204

abbrev reads : String → Bool
reads id = true

abbrev delivery : List Action
delivery = fetched reads ∷ started ∷ finished 0 ∷ []

abbrev setup : List Action
setup = registered true trigger ∷ inserted "e1" user_row ∷ delivery

abbrev status_of : Option Row → Option EventStatus
status_of none = none
status_of (some row) = some row.status

delivers : status_of (lookup "e1" (run config works setup idle_manager).rows) ≡ some delivered
unfolding program
delivers = refl

retries_once : status_of (lookup "e1" (run config down setup idle_manager).rows) ≡ some retrying
unfolding program
retries_once = refl

fails_then :
    status_of (lookup "e1" (run config down delivery (run config down setup idle_manager)).rows)
    ≡ some failed
unfolding program
fails_then = refl

-- An event that is invoked by hand has no row.
invokes :
    length
      (act config works
        (invoked "7" 7 "new_user" end)
        (run config works setup idle_manager)).event_queue
    ≡ 1
unfolding program
invokes = refl

run-IsConsistent_example : IsConsistent (run config down setup idle_manager)
run-IsConsistent_example = run-IsConsistent config down setup

rounds-Progress_example :
    (r : Row) × (rounds config down 2 (lone (("new_user", trigger) ∷ []) "e1" user_row)
      ≡ lone (("new_user", trigger) ∷ []) "e1" r)
    × Progress config down "new_user" 1 2
        (call_count config down 2 (lone (("new_user", trigger) ∷ []) "e1" user_row))
        r
unfolding program
rounds-Progress_example =
    rounds-Progress config down (("new_user", trigger) ∷ []) "e1" trigger 1 user_row 2 refl refl
      (λ r. refl) refl refl
