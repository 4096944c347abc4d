-- ===== src/Tests/ShutdownTests.antt =====
-- Runs of internal/engine/shutdown.go at concrete inputs.
use graphpost.Prelude.{
  String, [], ◌∷◌, true, false, Option, none, some, ◌≡◌, refl, ◌==◌, if◌then◌else◌,
}
use graphpost.Shutdown.{
  ShutdownManager, new_shutdown_manager, get_elem?, shutdown_loop, drain_requests, shutdown,
}
use graphpost.Shutdown.Order.{latest_first, first_failure, shutdown-latest_first}

abbrev manager : ShutdownManager
manager = record {
  components = "cache" ∷ "db" ∷ "http" ∷ [];
  timeout = 30;
  drain_timeout = 15;
  force_after = 45;
  shutting_down = false;
  active_requests = 0;
}

abbrev refuses : String → Option String
refuses name = if name == "http" then none else some "busy"

first_error :
    shutdown_loop refuses 3 manager.components none
    ≡ some ("http" ∷ "db" ∷ "cache" ∷ [], some ("db", "busy"))
unfolding shutdown_loop get_elem?
first_error = refl

drains : drain_requests ((2, false) ∷ (0, false) ∷ []) ≡ some true
unfolding drain_requests
drains = refl

defaults :
    (new_shutdown_manager
      (record { timeout = 0; drain_timeout = 7; force_after = 0 })).drain_timeout
    ≡ 7
unfolding new_shutdown_manager
defaults = refl

shutdown-latest_first_example :
    shutdown refuses manager
    ≡ some (
        if false then (([], none), manager) else (
          (
            latest_first manager.components,
            first_failure refuses (latest_first manager.components),
          ),
          record manager { shutting_down = true },
        ))
shutdown-latest_first_example = shutdown-latest_first refuses manager
