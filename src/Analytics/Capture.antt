-- ===== src/Analytics/Capture.antt =====
-- The listener of internal/analytics/cdc_listener.go. The loops are here the number of goroutines; a
-- poll and a notification are steps on the listener.
pub mod Polls
pub mod Start
use graphpost.Prelude.{
  ℕ, zero, String, List, [], ◌∷◌, ◌++◌, Bool, true, false, not, ◌&&◌, Option, none, some, ◌==◌,
  if◌then◌else◌,
}
use graphpost.Prelude.Int.{ℤ, pos, ltb_ℤ}
use graphpost.Json.{Fields}
use graphpost.Maps.{GoMap, lookup, delete, put, keys}
use graphpost.Analytics.Router.{AggregateDefinition}
use graphpost.Analytics.Store.{aggregates_for_table}
use Prim.Native.String

pub record CdcEvent : Type 0 where
  pub table : String
  pub operation : String
  pub timestamp : ℕ
  pub old_data : Option Fields
  pub new_data : Option Fields

pub record CdcListenerConfig : Type 0 where
  pub mode : String
  pub poll_interval : ℤ
  pub reconnect_delay : ℤ
  pub create_triggers : Bool
  pub trigger_prefix : String
  pub include_row_data : Bool
  pub database_url : String

pub record TableStats : Type 0 where
  pub inserts : ℤ
  pub updates : ℤ
  pub deletes : ℤ

-- The tables are the keys of maps to `true`. `loops` are the goroutines that `Start` has begun since
-- the last `Stop`.
pub record CdcListener : Type 0 where
  pub config : CdcListenerConfig
  pub has_callback : Bool
  pub running : Bool
  pub loops : List String
  pub monitored_tables : GoMap Bool
  pub triggers_created : GoMap Bool

-- `if d == 0 { d = 5 * time.Second }`
abbrev five_seconds_or : ℤ → ℤ
five_seconds_or (pos zero) = pos 5000000000
five_seconds_or d = d

unfoldable pub new_cdc_listener : CdcListenerConfig → CdcListener
new_cdc_listener config = record {
  config = record config {
    poll_interval = five_seconds_or config.poll_interval;
    reconnect_delay = five_seconds_or config.reconnect_delay;
    trigger_prefix =
        (if config.trigger_prefix == "" then "graphpost_cdc_" else config.trigger_prefix);
  };
  has_callback = false;
  running = false;
  loops = [];
  monitored_tables = [];
  triggers_created = [];
}

-- `m[k]` of a map to Booleans.
unfoldable pub has : String → GoMap Bool → Bool
has k m = elim (lookup k m) [ none ↦ false | some b ↦ b ]

-- Both statements of a trigger, which `creates` says whether the database takes.
unfoldable pub create_trigger_for_table :
    (String → Bool) → String → CdcListener → Bool × CdcListener
create_trigger_for_table creates table l =
    if creates table
    then (true, record l { triggers_created = put table true l.triggers_created })
    else (false, l)

-- Whether it reports no error.
unfoldable pub add_table : (String → Bool) → String → CdcListener → Bool × CdcListener
unfolding create_trigger_for_table has
add_table creates table l =
    let t = record l { monitored_tables = put table true l.monitored_tables } in
    let created = create_trigger_for_table creates table t in
    if l.config.create_triggers && l.running && not (has table l.triggers_created)
    then created
    else (true, t)

unfoldable pub remove_table : String → CdcListener → CdcListener
remove_table table l = record l { monitored_tables = delete table l.monitored_tables }

-- The tables whose triggers fail, and the listener.
unfoldable pub create_triggers :
    (String → Bool) → List String → CdcListener → List String × CdcListener
unfolding create_trigger_for_table has
create_triggers creates [] l = ([], l)
create_triggers creates (table ∷ tables) l =
    let (works, t) = create_trigger_for_table creates table l in
    let skipped = create_triggers creates tables l in
    let (errs, u) = create_triggers creates tables t in
    if has table l.triggers_created then skipped else (if works then errs else table ∷ errs, u)

-- The loops of a mode; no value is an unknown mode.
unfoldable pub loops_of : String → Option (List String)
loops_of mode =
    if mode == "realtime"
    then some ("listen" ∷ [])
    else if mode == "polling"
    then some ("poll" ∷ [])
    else if mode == "both"
    then some ("listen" ∷ "poll" ∷ [])
    else none

begin_loops : Option (List String) → CdcListener → Bool × CdcListener
begin_loops none l = (false, l)
begin_loops (some loops) l = (true, record l { loops = loops })

-- Whether it reports no error; the errors of triggers are only logged.
unfoldable pub start_listener : (String → Bool) → CdcListener → Bool × CdcListener
unfolding create_triggers loops_of begin_loops
start_listener creates l =
    let begun = record l { running = true } in
    let with_triggers =
      if l.config.create_triggers
      then (create_triggers creates (keys l.monitored_tables) begun).1
      else begun in
    let started = begin_loops (loops_of l.config.mode) with_triggers in
    if l.running then (true, l) else started

-- Stop waits for the loops, which end when the channel is closed.
unfoldable pub stop_listener : CdcListener → CdcListener
stop_listener l = if l.running then record l { running = false; loops = [] } else l

-- `DropTrigger`, which `drops` says whether the database takes.
unfoldable pub drop_trigger : (String → Bool) → String → CdcListener → Bool × CdcListener
drop_trigger drops table l =
    if drops table
    then (true, record l { triggers_created = delete table l.triggers_created })
    else (false, l)

-- The event that the callback gets from a notification on a channel, if any; the payload is what
-- `json.Unmarshal` gives.
unfoldable pub handle_notification : String → Option CdcEvent → CdcListener → Option CdcEvent
unfolding has
handle_notification channel none l = none
handle_notification channel (some event) l =
    if (channel == "graphpost_cdc") && has event.table l.monitored_tables && l.has_callback
    then some event
    else none

-- An event of a poll.
unfoldable pub change_event : ℕ → String → String → CdcEvent
change_event now table operation = record {
  table = table;
  operation = operation;
  timestamp = now;
  old_data = none;
  new_data = none;
}

abbrev event_if : Bool → CdcEvent → List CdcEvent
event_if b e = if b then e ∷ [] else []

-- The callbacks for the counters that have grown.
unfoldable pub changes : ℕ → String → TableStats → TableStats → List CdcEvent
unfolding change_event
changes now table prev stats =
    event_if (ltb_ℤ prev.inserts stats.inserts) (change_event now table "INSERT")
    ++ event_if (ltb_ℤ prev.updates stats.updates) (change_event now table "UPDATE")
    ++ event_if (ltb_ℤ prev.deletes stats.deletes) (change_event now table "DELETE")

abbrev first_seen : ℕ → String → Option TableStats → TableStats → List CdcEvent
first_seen now table none stats = []
first_seen now table (some prev) stats = changes now table prev stats

-- The loop over the rows; no value is a row that does not scan. Each row has the time at which it is
-- read.
unfoldable pub poll_rows :
    Bool
    → List (Option (String × TableStats × ℕ))
    → GoMap TableStats
    → List CdcEvent × GoMap TableStats
unfolding changes
poll_rows has_callback [] prev = ([], prev)
poll_rows has_callback (none ∷ rows) prev = poll_rows has_callback rows prev
poll_rows has_callback (some (table, stats, now) ∷ rows) prev =
    let seen = first_seen now table (lookup table prev) stats in
    let (events, last) = poll_rows has_callback rows (put table stats prev) in
    (if has_callback then seen ++ events else events, last)

-- The rows for some tables; without a table there is no query.
unfoldable pub poll_tables :
    GoMap Bool
    → Bool
    → List (Option (String × TableStats × ℕ))
    → GoMap TableStats
    → List CdcEvent × GoMap TableStats
unfolding poll_rows
poll_tables [] has_callback rows prev = ([], prev)
poll_tables (t ∷ ts) has_callback rows prev = poll_rows has_callback rows prev

-- No rows is an error of the query.
unfoldable pub poll_changes :
    Option (List (Option (String × TableStats × ℕ)))
    → CdcListener
    → GoMap TableStats
    → List CdcEvent × GoMap TableStats
unfolding poll_tables
poll_changes none l prev = ([], prev)
poll_changes (some rows) l prev = poll_tables l.monitored_tables l.has_callback rows prev

-- The aggregates that `handleCDCEvent` and `handleCDCEventNew` refresh, each in its own goroutine.
unfoldable pub refreshed_by : String → GoMap AggregateDefinition → List String
unfolding aggregates_for_table
refreshed_by table defs = cdc_ids (aggregates_for_table table defs)
  where
    cdc_ids : List AggregateDefinition → List String
    cdc_ids [] = []
    cdc_ids (def ∷ defs) =
        let rest = cdc_ids defs in
        if (def.refresh_strategy == "cdc") && def.is_enabled then def.id ∷ rest else rest
