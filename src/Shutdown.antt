-- ===== src/Shutdown.antt =====
-- The graceful shutdown of internal/engine/shutdown.go. Times are in nanoseconds, the counter of
-- requests is an `int64` as a bit pattern, and hooks and logs are left out.
pub mod Order
use mathlib.Core.Option
use graphpost.Prelude.{
  ℕ, zero, suc, ◌+◌, ◌-◌, ◌%◌, ◌^◌, String, List, [], ◌∷◌, ◌++◌, Bool, true, false, Option, none,
  some, eqb, if◌then◌else◌, length,
}
use graphpost.Cache.Memory.{add64, sub64}

pub record ShutdownConfig : Type 0 where
  pub timeout : ℕ
  pub drain_timeout : ℕ
  pub force_after : ℕ

-- A component is its name; what its `Shutdown` does is an argument of `shutdown`.
pub record ShutdownManager : Type 0 where
  pub components : List String
  pub timeout : ℕ
  pub drain_timeout : ℕ
  pub force_after : ℕ
  pub shutting_down : Bool
  pub active_requests : ℕ

abbrev pub second : ℕ
second = 1000000000

abbrev pub or_default : ℕ → ℕ → ℕ
or_default fallback n = if eqb n 0 then fallback else n

unfoldable pub new_shutdown_manager : ShutdownConfig → ShutdownManager
new_shutdown_manager cfg = record {
  components = [];
  timeout = or_default 30000000000 cfg.timeout;
  drain_timeout = or_default 15000000000 cfg.drain_timeout;
  force_after = or_default 45000000000 cfg.force_after;
  shutting_down = false;
  active_requests = 0;
}

unfoldable pub register : String → ShutdownManager → ShutdownManager
register name sm = record sm { components = sm.components ++ (name ∷ []) }

unfoldable pub increment_requests : ShutdownManager → ShutdownManager
increment_requests sm = record sm { active_requests = add64 sm.active_requests 1 }

unfoldable pub decrement_requests : ShutdownManager → ShutdownManager
decrement_requests sm = record sm { active_requests = sub64 sm.active_requests 1 }

-- `components[i]`
unfoldable pub get_elem? : ℕ → List String → Option String
get_elem? i [] = none
get_elem? zero (c ∷ cs) = some c
get_elem? (suc i) (c ∷ cs) = get_elem? i cs

-- An error of a component, behind its name.
abbrev pub Failure : Type 0
Failure = String × String

-- What the loop keeps: the first error.
abbrev pub keep_first : Option Failure → String → Option String → Option Failure
keep_first (some failure) name e = some failure
keep_first none name none = none
keep_first none name (some e) = some (name, e)

-- The components that are shut down, in turn, and the error that is returned.
abbrev pub Outcome : Type 0
Outcome = List String × Option Failure

-- The loop from `i - 1` down to 0; none is an index out of range.
unfoldable pub shutdown_loop :
    (String → Option String) → ℕ → List String → Option Failure → Option Outcome
shutdown_loop fails zero components err = some ([], err)
shutdown_loop fails (suc i) components err = elim (get_elem? i components) [
  | none ↦ none
  | some name ↦
      Option.map (λ r. (name ∷ r.0, r.1))
        (shutdown_loop fails i components (keep_first err name (fails name)))
]

-- `drainRequests` over what it reads of the counter, and whether the time is up after that: true if
-- all requests are drained, false if not, none while it waits.
unfoldable pub drain_requests : List (ℕ × Bool) → Option Bool
drain_requests [] = none
drain_requests ((active, time_is_up) ∷ readings) =
    let rest = drain_requests readings in
    if eqb active 0 then some true else if time_is_up then some false else rest

-- `Shutdown` after it has drained, which it does not depend on. A second call does nothing.
unfoldable pub shutdown :
    (String → Option String) → ShutdownManager → Option (Outcome × ShutdownManager)
shutdown fails sm =
    if sm.shutting_down
    then some (([], none), sm)
    else Option.map (λ r. (r, record sm { shutting_down = true }))
        (shutdown_loop fails (length sm.components) sm.components none)
