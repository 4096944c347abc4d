-- ===== src/Tests/CaptureTests.antt =====
-- Runs of internal/analytics/cdc_listener.go at concrete inputs.
use graphpost.Prelude.{ℕ, String, List, [], ◌∷◌, Bool, true, false, Option, none, some, ◌≡◌, refl}
use graphpost.Prelude.Int.{pos}
use graphpost.Maps.{lookup, delete}
use graphpost.Analytics.Capture.{
  CdcListenerConfig, CdcListener, TableStats, new_cdc_listener, has, create_trigger_for_table,
  add_table, remove_table, create_triggers, loops_of, start_listener, stop_listener, drop_trigger,
  handle_notification, change_event, changes, poll_rows, poll_tables, poll_changes,
}
use graphpost.Analytics.Capture.Polls.{
  Reading, run_polls, all_rows, readings_of, growth, events_of, run_polls-growth,
}

program : Unit {0}
unfolding lookup delete new_cdc_listener has create_trigger_for_table add_table remove_table
    create_triggers loops_of start_listener stop_listener drop_trigger handle_notification
    change_event changes poll_rows poll_tables poll_changes run_polls all_rows readings_of growth
program = tt

abbrev settings : CdcListenerConfig
settings = record {
  mode = "both";
  poll_interval = pos 0;
  reconnect_delay = pos 7;
  create_triggers = true;
  trigger_prefix = "";
  include_row_data = false;
  database_url = "";
}

abbrev accepts : String → Bool
accepts table = true

abbrev refuses : String → Bool
refuses table = false

-- A trigger is created only once the listener runs, and again not at all.
creates_on_start :
    let added = (add_table refuses "orders" (new_cdc_listener settings)).1 in
    let started = (start_listener accepts added).1 in
    (added.triggers_created ≡ [])
    × (started.triggers_created ≡ ("orders", true) ∷ [])
    × (started.loops ≡ "listen" ∷ "poll" ∷ [])
    × ((stop_listener started).loops ≡ [])
unfolding program
creates_on_start = (refl, refl, refl, refl)

-- A table that is no longer monitored passes no notification on.
removed_is_quiet :
    let l =
      record (remove_table "orders" (add_table accepts "orders" (new_cdc_listener settings)).1) {
        has_callback = true;
      } in
    handle_notification "graphpost_cdc" (some (change_event 5 "orders" "INSERT")) l ≡ none
unfolding program
removed_is_quiet = refl

abbrev listener : CdcListener
listener = record {
  config = settings;
  has_callback = true;
  running = true;
  loops = "poll" ∷ [];
  monitored_tables = ("orders", true) ∷ [];
  triggers_created = [];
}

abbrev counts : ℕ → ℕ → ℕ → TableStats
counts i u d = record { inserts = pos i; updates = pos u; deletes = pos d }

abbrev polls : List (Option (List Reading))
polls =
    some (some ("orders", counts 3 0 0, 10) ∷ some ("users", counts 1 1 1, 10) ∷ [])
    ∷ none
    ∷ some (some ("orders", counts 4 0 2, 20) ∷ [])
    ∷ []

orders_change :
    (run_polls listener polls []).0
    ≡ change_event 20 "orders" "INSERT" ∷ change_event 20 "orders" "DELETE" ∷ []
unfolding program
orders_change = refl

-- After the statistics are reset, what has been counted up to the old number is not seen.
reset_is_missed :
    (poll_rows true (some ("orders", counts 5 0 0, 1) ∷ some ("orders", counts 4 0 0, 2) ∷ []) []).0
    ≡ []
unfolding program
reset_is_missed = refl

not_nil : listener.monitored_tables ≡ [] → ⊥
not_nil h = cc

run_polls-growth_example :
    events_of "orders" (run_polls listener polls []).0
    ≡ growth "orders" none ((counts 3 0 0, 10) ∷ (counts 4 0 2, 20) ∷ [])
unfolding program
run_polls-growth_example = run_polls-growth listener "orders" polls [] refl not_nil

abbrev strange : CdcListener
strange = record listener {
  config = record settings { mode = "stream" };
  running = false;
  loops = [];
}

strange_mode_is_refused :
    let t = (start_listener refuses strange).1 in
    ((start_listener refuses strange).0 ≡ false)
    × (start_listener refuses t ≡ (true, t))
    × (t.loops ≡ [])
unfolding program
strange_mode_is_refused = (refl, refl, refl)
