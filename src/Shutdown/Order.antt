-- ===== src/Shutdown/Order.antt =====
-- The order in which internal/engine/shutdown.go shuts components down, and the error it returns.
use mathlib.Core.Option
use graphpost.Prelude.{
  ℕ, zero, suc, String, List, [], ◌∷◌, ◌++◌, Bool, true, false, Option, none, some, ◌≡◌, refl, ap,
  ◌∙◌, length, if◌then◌else◌, Option-cases, inl, inr,
}
use graphpost.Shutdown.{
  ShutdownManager, Failure, Outcome, keep_first, get_elem?, shutdown_loop, shutdown,
}

-- The latest component first.
unfoldable pub latest_first : List String → List String
latest_first [] = []
latest_first (c ∷ cs) = latest_first cs ++ (c ∷ [])

-- The error of the first component of a list that fails.
unfoldable pub first_failure : (String → Option String) → List String → Option Failure
first_failure fails [] = none
first_failure fails (c ∷ cs) = elim (fails c) [
  | none ↦ first_failure fails cs
  | some e ↦ some (c, e)
]

-- What the loop has kept after a list of components.
kept : (String → Option String) → Option Failure → List String → Option Failure
kept fails err [] = err
kept fails err (c ∷ cs) = kept fails (keep_first err c (fails c)) cs

kept-some :
    (fails : String → Option String) (failure : Failure) (cs : List String)
    → kept fails (some failure) cs ≡ some failure
unfolding kept
kept-some fails failure [] = refl
kept-some fails failure (c ∷ cs) = kept-some fails failure cs

kept-first_failure :
    (fails : String → Option String) (cs : List String)
    → kept fails none cs ≡ first_failure fails cs
unfolding kept first_failure
kept-first_failure fails [] = refl
kept-first_failure fails (c ∷ cs) = elim (Option-cases (fails c)) [
  | inl fine ↦ rw (first_failure, fine) (kept-first_failure fails cs)
  | inr (e, failed) ↦ rw (first_failure, failed) (kept-some fails (c, e) cs)
]

kept-append :
    (fails : String → Option String) (err : Option Failure) (cs : List String) (c : String)
    → kept fails err (cs ++ (c ∷ [])) ≡ keep_first (kept fails err cs) c (fails c)
unfolding kept
kept-append fails err [] c = refl
kept-append fails err (d ∷ cs) c = kept-append fails (keep_first err d (fails d)) cs c

-- The component at index 0 comes last.
abbrev then_last : (String → Option String) → String → Outcome → Outcome
then_last fails x r = (r.0 ++ (x ∷ []), keep_first r.1 x (fails x))

map-then_last :
    (fails : String → Option String) (x name : String) (o : Option Outcome)
    → Option.map (λ r. (name ∷ r.0, r.1)) (Option.map (then_last fails x) o)
      ≡ Option.map (then_last fails x) (Option.map (λ r. (name ∷ r.0, r.1)) o)
map-then_last fails x name none = refl
map-then_last fails x name (some r) = refl

shutdown_loop-cons :
    (fails : String → Option String) (i : ℕ) (x : String) (xs : List String) (err : Option Failure)
    → shutdown_loop fails (suc i) (x ∷ xs) err
      ≡ Option.map (then_last fails x) (shutdown_loop fails i xs err)
unfolding shutdown_loop get_elem?
shutdown_loop-cons fails zero x xs err = refl
shutdown_loop-cons fails (suc i) x xs err = elim (Option-cases (get_elem? i xs)) [
  | inl outside ↦ rw (shutdown_loop, outside) refl
  | inr (name, there) ↦
      rw (shutdown_loop, there)
        (ap (Option.map (λ r. (name ∷ r.0, r.1)))
            (shutdown_loop-cons fails i x xs (keep_first err name (fails name)))
          ∙ map-then_last fails x name
              (shutdown_loop fails i xs (keep_first err name (fails name))))
]

shutdown_loop-all :
    (fails : String → Option String) (cs : List String) (err : Option Failure)
    → shutdown_loop fails (length cs) cs err
      ≡ some (latest_first cs, kept fails err (latest_first cs))
unfolding latest_first kept
shutdown_loop-all fails [] err = unfold shutdown_loop in refl
shutdown_loop-all fails (c ∷ cs) err =
    shutdown_loop-cons fails (length cs) c cs err
    ∙ rw (shutdown_loop-all fails cs err, kept-append fails err (latest_first cs) c) refl

-- The first `Shutdown` calls every component once, the latest registered first, whatever fails, and
-- returns the error of the first of these that fails; a second one calls nothing.
pub shutdown-latest_first :
    (fails : String → Option String) (sm : ShutdownManager)
    → shutdown fails sm
      ≡ some (
          if sm.shutting_down then (([], none), sm) else (
            (latest_first sm.components, first_failure fails (latest_first sm.components)),
            record sm { shutting_down = true },
          ))
unfolding shutdown
shutdown-latest_first fails sm =
    choose sm.shutting_down (([], none), sm)
      (
        (latest_first sm.components, first_failure fails (latest_first sm.components)),
        record sm { shutting_down = true },
      )
      (Option.map (λ r. (r, record sm { shutting_down = true }))
        (shutdown_loop fails (length sm.components) sm.components none))
      (rw
        (
          shutdown_loop-all fails sm.components none,
          kept-first_failure fails (latest_first sm.components),
        )
        refl)
  where
    choose :
        (b : Bool) (x y : Outcome × ShutdownManager) (o : Option (Outcome × ShutdownManager))
        → o ≡ some y
        → (if b then some x else o) ≡ some (if b then x else y)
    choose true x y o h = refl
    choose false x y o h = h
