-- ===== src/Events/Delivery.antt =====
-- Deliveries of internal/events/triggers.go: the webhook request, what its reply writes into the row of
-- the event, and events that are queued or revived by hand.
use Prim.Native.String
use mathlib.Core.Option
use graphpost.Prelude.{
  ℕ, zero, suc, ◌+◌, String, List, [], ◌∷◌, ◌++◌, Bool, true, false, not, ◌&&◌, Option, none, some,
  ltb, leb, if◌then◌else◌, length,
}
use graphpost.Prelude.Int.{ℤ, pos, negsuc}
use graphpost.Json.{Fields}
use graphpost.Maps.{GoMap, lookup}
use graphpost.Resolver.Sql.{decimal}
use graphpost.Events.Table.{
  pending, delivered, failed, retrying, TableInfo, Row, Event, EventTrigger, EventsConfig,
  TriggerManager, set_status, exec, queue_capacity,
}

pub record EventPayload : Type 0 where
  pub id : String
  pub created_at : ℕ
  pub op : String
  pub old : Option Fields
  pub new : Option Fields
  pub trigger_name : String
  pub table : TableInfo

-- `headers` are the calls of `Header.Set`, in order.
pub record WebhookRequest : Type 0 where
  pub url : String
  pub headers : GoMap String
  pub payload : EventPayload

-- What becomes of a request: it cannot be made, it gets no response, or one with a status.
pub data Reply : Type 0 where
  bad_request : String → Reply
  no_response : String → Reply
  response : ℕ → Reply

abbrev pub request_of : EventTrigger → Event → WebhookRequest
request_of trigger event = record {
  url = trigger.webhook_url;
  headers = ("Content-Type", "application/json") ∷ trigger.headers;
  payload = record {
    id = event.id;
    created_at = event.created_at;
    op = event.operation;
    old = event.old_data;
    new = event.new_data;
    trigger_name = trigger.name;
    table = event.table;
  };
}

abbrev pub mark_event_delivered : Row → Row
mark_event_delivered = set_status delivered

abbrev pub mark_event_failed : String → Row → Row
mark_event_failed message row = record row { status = failed; last_error = some message }

abbrev pub mark_retrying : String → Row → Row
mark_retrying message row = record row {
  status = retrying;
  retry_count = row.retry_count + 1;
  last_error = some message;
}

abbrev pub max_retries : EventsConfig → EventTrigger → ℤ
max_retries cfg trigger = elim trigger.retry_config [
  | none ↦ cfg.retry_limit
  | some retry ↦ retry.num_retries
]

-- `event.RetryCount >= maxRetries`
abbrev pub is_exhausted : ℕ → ℤ → Bool
is_exhausted n (pos m) = leb m n
is_exhausted n (negsuc m) = true

unfoldable pub handle_delivery_failure : EventsConfig → Event → EventTrigger → String → Row → Row
handle_delivery_failure cfg event trigger message =
    if is_exhausted event.retry_count (max_retries cfg trigger)
    then mark_event_failed message
    else mark_retrying message

-- One of the events that are being delivered, and the others.
unfoldable pub take_out : ℕ → List Event → Option (Event × List Event)
take_out n [] = none
take_out zero (event ∷ events) = some (event, events)
take_out (suc n) (event ∷ events) =
    Option.map (λ found. (found.0, event ∷ found.1)) (take_out n events)

-- The requests that `deliverEvent` sends for the n-th of these events: one, if its trigger is there.
unfoldable pub requests_sent : ℕ → TriggerManager → List WebhookRequest
requests_sent n tm = elim (take_out n tm.working) [
  | none ↦ []
  | some (event, others) ↦ elim (lookup event.trigger_name tm.triggers) [
    | none ↦ []
    | some trigger ↦ request_of trigger event ∷ []
  ]
]

module _ (cfg : EventsConfig) (http : WebhookRequest → Reply) where
  unfoldable pub after_reply : Event → EventTrigger → Reply → Row → Row
  after_reply event trigger (bad_request message) = mark_event_failed message
  after_reply event trigger (no_response message) =
      handle_delivery_failure cfg event trigger message
  after_reply event trigger (response status) =
      if leb 200 status && ltb status 300
      then mark_event_delivered
      else handle_delivery_failure cfg event trigger (String.◌++◌ "HTTP " (decimal status))

  -- What `deliverEvent` writes into the row of the event.
  unfoldable pub outcome : GoMap EventTrigger → Event → Row → Row
  unfolding after_reply
  outcome triggers event = elim (lookup event.trigger_name triggers) [
    | none ↦ mark_event_failed "trigger not found"
    | some trigger ↦ after_reply event trigger (http (request_of trigger event))
  ]

  -- `deliverEvent` in the goroutine that holds the n-th of these events, to its end.
  unfoldable pub deliver_event : Bool → ℕ → TriggerManager → TriggerManager
  deliver_event works n tm = elim (take_out n tm.working) [
    | none ↦ tm
    | some (event, others) ↦
        exec works event.id (outcome tm.triggers event) (record tm { working = others })
  ]

-- What `InvokeEventTrigger` does; the send waits while the queue is full.
pub data Invoked : Type 0 where
  not_found : Invoked
  not_enabled : Invoked
  waits : Invoked
  queued : TriggerManager → Invoked

abbrev pub manual_event : String → ℕ → String → EventTrigger → Fields → Event
manual_event uuid now name trigger payload = record {
  id = uuid;
  trigger_name = name;
  table = trigger.table;
  operation = "MANUAL";
  new_data = some payload;
  old_data = none;
  created_at = now;
  retry_count = 0;
}

unfoldable pub invoke_event_trigger :
    EventsConfig → String → ℕ → String → Fields → TriggerManager → Invoked
invoke_event_trigger cfg uuid now name payload tm = elim (lookup name tm.triggers) [
  | none ↦ not_found
  | some trigger ↦
      if not trigger.enable_manual && not cfg.enable_manual_trigger
      then not_enabled
      else if ltb (length tm.event_queue) queue_capacity
      then queued (record tm {
        event_queue = tm.event_queue ++ (manual_event uuid now name trigger payload ∷ []);
      })
      else waits
]

-- `WHERE id = $1 AND status = 'failed'`
abbrev pub revive : Row → Row
revive row = elim row.status [ failed ↦ record row { status = pending; retry_count = 0 } | _ ↦ row ]

abbrev pub is_failed : Option Row → Bool
is_failed none = false
is_failed (some row) = elim row.status [ failed ↦ true | _ ↦ false ]

-- The result says whether there is no error.
unfoldable pub redeliver_event : Bool → String → TriggerManager → Bool × TriggerManager
redeliver_event works id tm = (works && is_failed (lookup id tm.rows), exec works id revive tm)
