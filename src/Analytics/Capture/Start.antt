-- ===== src/Analytics/Capture/Start.antt =====
-- A listener that is started with a mode that it does not know.
use graphpost.Prelude.{
  String, List, [], ◌∷◌, Bool, true, false, none, if◌then◌else◌, ◌≡◌, refl, ◌∙◌, Bool-cases, inl,
  inr,
}
use graphpost.Maps.{keys}
use graphpost.Analytics.Capture.{
  CdcListener, create_trigger_for_table, create_triggers, has, loops_of, begin_loops,
  start_listener,
}

-- The same but for the triggers.
abbrev Same : CdcListener → CdcListener → Type 0
Same l t = (t.running ≡ l.running) × (t.loops ≡ l.loops) × (t.config ≡ l.config)

create_trigger-Same :
    (creates : String → Bool) (table : String) (l : CdcListener)
    → Same l (create_trigger_for_table creates table l).1
unfolding create_trigger_for_table
create_trigger-Same creates table l = elim (Bool-cases (creates table)) [
  | inl e ↦ rw (create_trigger_for_table, e) (refl, refl, refl)
  | inr e ↦ rw (create_trigger_for_table, e) (refl, refl, refl)
]

Same-trans : (l t u : CdcListener) → Same l t → Same t u → Same l u
Same-trans l t u h k = (k.0 ∙ h.0, k.1 ∙ h.1, k.2 ∙ h.2)

create_triggers-Same :
    (creates : String → Bool) (tables : List String) (l : CdcListener)
    → Same l (create_triggers creates tables l).1
unfolding create_triggers
create_triggers-Same creates [] l = (refl, refl, refl)
create_triggers-Same creates (table ∷ tables) l = elim (Bool-cases (has table l.triggers_created)) [
  | inl e ↦ rw (create_triggers, e) (create_triggers-Same creates tables l)
  | inr e ↦
      let t = (create_trigger_for_table creates table l).1 in
      rw (create_triggers, e)
        (Same-trans l t (create_triggers creates tables t).1 (create_trigger-Same creates table l)
          (create_triggers-Same creates tables t))
]

prepared-Same :
    (creates : String → Bool) (b : Bool) (tables : List String) (l : CdcListener)
    → Same l (if b then (create_triggers creates tables l).1 else l)
prepared-Same creates true tables l = create_triggers-Same creates tables l
prepared-Same creates false tables l = (refl, refl, refl)

-- Starting a listener that does not run, with a mode that is none of the three, is an error and begins
-- no loop, but leaves the listener marked as running: starting it again reports success, and still
-- nothing listens or polls.
start_listener-unknown_mode :
    (creates : String → Bool) (l : CdcListener)
    → l.running ≡ false
    → l.loops ≡ []
    → loops_of l.config.mode ≡ none
    → let t = (start_listener creates l).1 in
      ((start_listener creates l).0 ≡ false)
      × (start_listener creates t ≡ (true, t))
      × (t.loops ≡ [])
unfolding start_listener begin_loops
start_listener-unknown_mode creates l stopped idle unknown =
    let kept =
      prepared-Same creates l.config.create_triggers (keys l.monitored_tables)
        (record l { running = true }) in
    rw (stopped, unknown) (refl, rw (kept.0) refl, kept.1 ∙ idle)
