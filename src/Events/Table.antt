-- ===== src/Events/Table.antt =====
-- The table `graphpost_events` of internal/events/triggers.go, the registry of triggers, and the fetch
-- of events into the queue. A statement that the database refuses changes nothing, since the source
-- drops the errors of these.
use graphpost.Prelude.{
  ℕ, zero, suc, String, List, [], ◌∷◌, ◌++◌, Bool, true, false, Option, none, some, ltb, ◌==◌,
  if◌then◌else◌, length,
}
use graphpost.Prelude.Int.{ℤ}
use graphpost.Json.{Fields}
use graphpost.Maps.{GoMap, lookup, delete, put}

pub data EventStatus : Type 0 where
  pending : EventStatus
  processing : EventStatus
  delivered : EventStatus
  failed : EventStatus
  retrying : EventStatus

pub record TableInfo : Type 0 where
  pub schema : String
  pub name : String

-- A row of `graphpost_events`, behind its id, without the time of its delivery. Times are instants.
pub record Row : Type 0 where
  pub trigger_name : String
  pub table : TableInfo
  pub operation : String
  pub old_data : Option Fields
  pub new_data : Option Fields
  pub status : EventStatus
  pub retry_count : ℕ
  pub last_error : Option String
  pub created_at : ℕ

pub record Event : Type 0 where
  pub id : String
  pub trigger_name : String
  pub table : TableInfo
  pub operation : String
  pub new_data : Option Fields
  pub old_data : Option Fields
  pub created_at : ℕ
  pub retry_count : ℕ

pub record RetryConfig : Type 0 where
  pub num_retries : ℤ

pub record EventTrigger : Type 0 where
  pub name : String
  pub table : TableInfo
  pub operations : List String
  pub webhook_url : String
  pub headers : GoMap String
  pub retry_config : Option RetryConfig
  pub enable_manual : Bool

pub record EventsConfig : Type 0 where
  pub retry_limit : ℤ
  pub enable_manual_trigger : Bool

-- `rows` is the table in the order of `created_at`; `working` are the events of the goroutines that
-- deliver.
pub record TriggerManager : Type 0 where
  pub triggers : GoMap EventTrigger
  pub rows : GoMap Row
  pub event_queue : List Event
  pub working : List Event

-- `UPDATE graphpost_events SET … WHERE id = …`
unfoldable pub update : String → (Row → Row) → GoMap Row → GoMap Row
update id change [] = []
update id change ((j, row) ∷ rows) =
    let rest = update id change rows in (j, if j == id then change row else row) ∷ rest

abbrev pub set_status : EventStatus → Row → Row
set_status s row = record row { status = s }

-- An `Exec` that may fail.
unfoldable pub exec : Bool → String → (Row → Row) → TriggerManager → TriggerManager
exec works id change tm = if works then record tm { rows = update id change tm.rows } else tm

-- Registering writes the trigger down before the database creates its own.
unfoldable pub register_trigger : Bool → EventTrigger → TriggerManager → Bool × TriggerManager
register_trigger created trigger tm =
    (created, record tm { triggers = put trigger.name trigger tm.triggers })

unfoldable pub unregister_trigger : Bool → String → TriggerManager → Bool × TriggerManager
unregister_trigger dropped name tm = elim (lookup name tm.triggers) [
  | none ↦ (false, tm)
  | some trigger ↦
      if dropped then (true, record tm { triggers = delete name tm.triggers }) else (false, tm)
]

-- `status IN ('pending', 'retrying')`
abbrev pub is_due : Row → Bool
is_due row = elim row.status [ pending ↦ true | retrying ↦ true | _ ↦ false ]

-- The first rows that are due, as many as `LIMIT` says.
unfoldable pub due_rows : ℕ → GoMap Row → GoMap Row
due_rows zero rows = []
due_rows (suc limit) [] = []
due_rows (suc limit) ((id, row) ∷ rows) =
    let taken = due_rows limit rows in
    let others = due_rows (suc limit) rows in if is_due row then (id, row) ∷ taken else others

abbrev pub event_of : String → Row → Event
event_of id row = record {
  id = id;
  trigger_name = row.trigger_name;
  table = row.table;
  operation = row.operation;
  new_data = row.new_data;
  old_data = row.old_data;
  created_at = row.created_at;
  retry_count = row.retry_count;
}

-- What the database does in a fetch: whether it answers the query, and for one row whether `Scan`
-- reads it, and whether it takes the two
-- updates.
pub record Replies : Type 0 where
  pub answers : Bool
  pub scans : String → Bool
  pub marks : String → Bool
  pub unmarks : String → Bool

abbrev pub queue_capacity : ℕ
queue_capacity = 10000

abbrev pub enqueue : Bool → Event → TriggerManager → TriggerManager
enqueue unmark event tm =
    if ltb (length tm.event_queue) queue_capacity
    then record tm { event_queue = tm.event_queue ++ (event ∷ []) }
    else exec unmark event.id (set_status pending) tm

-- One round of the loop of `fetchPendingEvents`, and the loop.
unfoldable pub fetch_row : Replies → String → Row → TriggerManager → TriggerManager
fetch_row db id row tm =
    if db.scans id
    then enqueue (db.unmarks id) (event_of id row)
        (exec (db.marks id) id (set_status processing) tm)
    else tm

unfoldable pub fetch_rows : Replies → GoMap Row → TriggerManager → TriggerManager
fetch_rows db [] tm = tm
fetch_rows db ((id, row) ∷ rows) tm = fetch_rows db rows (fetch_row db id row tm)

unfoldable pub fetch_pending_events : Replies → TriggerManager → TriggerManager
fetch_pending_events db tm =
    let rest = fetch_rows db (due_rows 100 tm.rows) tm in if db.answers then rest else tm

-- `processEvents` takes an event and starts a goroutine for it; when that is, is left open, so the
-- bound on the goroutines, `workerPool`, only leaves runs out.
unfoldable pub start_delivery : TriggerManager → TriggerManager
start_delivery tm = elim tm.event_queue [
  | [] ↦ tm
  | event ∷ rest ↦ record tm { event_queue = rest; working = event ∷ tm.working }
]
