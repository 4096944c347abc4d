-- ===== src/Subscription/Stopped.antt =====
-- What `Stop` of internal/subscription/manager.go leaves.
use mathlib.Core.Option
use graphpost.Prelude.{
  String, [], ◌∷◌, none, some, ◌≡◌, inl, inr, refl, ◌==◌, Bool-cases, Option-cases,
}
use graphpost.Maps.{GoMap, lookup}
use graphpost.Subscription.{
  Subscriber, Manager, close_done, close_table, close_tables, unsubscribe, stop,
}
use graphpost.Subscription.Delivery.{subscriber}

lookup-close_table :
    (id : String) (subs closed_subs : GoMap Subscriber)
    → close_table subs ≡ some closed_subs
    → lookup id closed_subs ≡ Option.map close_done (lookup id subs)
unfolding close_table lookup
lookup-close_table id [] closed_subs h = let this : [] ≡ closed_subs = cc in rw (← this) refl
lookup-close_table id ((k, sub) ∷ subs) closed_subs h = elim (Bool-cases sub.closed) [
  | inl twice ↦ let panic : none ≡ some closed_subs = rw twice at h in absurd cc
  | inr is_open ↦ elim (Option-cases (close_table subs)) [
    | inl panics ↦ let panic : none ≡ some closed_subs = rw (is_open, panics) at h in absurd cc
    | inr (rest, done) ↦
        let whole : some ((k, close_done sub) ∷ rest) ≡ some closed_subs =
          rw (is_open, done) at h in
        let this : (k, close_done sub) ∷ rest ≡ closed_subs = cc in
        rw (← this) (elim (Bool-cases (k == id)) [
          | inl same ↦ rw same refl
          | inr differs ↦ rw differs (lookup-close_table id subs rest done)
        ])
  ]
]

lookup-close_tables :
    (table : String) (tables closed_tables : GoMap (GoMap Subscriber)) (subs : GoMap Subscriber)
    → close_tables tables ≡ some closed_tables
    → lookup table tables ≡ some subs
    → (closed_subs : GoMap Subscriber) × (lookup table closed_tables ≡ some closed_subs)
      × (close_table subs ≡ some closed_subs)
unfolding close_tables lookup
lookup-close_tables table [] closed_tables subs h found = cc
lookup-close_tables table ((k, first) ∷ tables) closed_tables subs h found =
    elim (Option-cases (close_table first)) [
      | inl panics ↦
          let panic : none ≡ some closed_tables = rw (close_tables, panics) at h in absurd cc
      | inr (closed_first, done) ↦ elim (Option-cases (close_tables tables)) [
        | inl panics ↦
            let panic : none ≡ some closed_tables = rw (close_tables, done, panics) at h in
            absurd cc
        | inr (rest, others) ↦
            let whole : some ((k, closed_first) ∷ rest) ≡ some closed_tables =
              rw (close_tables, done, others) at h in
            let this : (k, closed_first) ∷ rest ≡ closed_tables = cc in
            rw (← this) (elim (Bool-cases (k == table)) [
              | inl same ↦
                  let mine : some first ≡ some subs = rw same at found in
                  let it_is : first ≡ subs = cc in (closed_first, rw same refl, rw (← it_is) done)
              | inr differs ↦
                  rw differs
                    (lookup-close_tables table tables rest subs others (rw differs at found))
            ])
      ]
    ]

-- After `Stop`, the `Unsubscribe` of a subscriber that the manager has panics: `Stop` has closed its
-- `Done` and has not removed it.
pub unsubscribe-stop :
    (table id : String) (sub : Subscriber) (m m' : Manager)
    → stop m ≡ some m'
    → subscriber table id m ≡ some sub
    → unsubscribe table id m' ≡ none
unfolding stop unsubscribe
unsubscribe-stop table id sub m m' h present = elim (Option-cases (close_tables m.subscribers)) [
  | inl panics ↦ let panic : none ≡ some m' = rw (stop, panics) at h in absurd cc
  | inr (closed_tables, done) ↦
      let whole : some (record m { subscribers = closed_tables }) ≡ some m' =
        rw (stop, done) at h in
      let this : record m { subscribers = closed_tables } ≡ m' = cc in
      elim (Option-cases (lookup table m.subscribers)) [
        | inl no_table ↦
            let nobody : lookup id [] ≡ some sub = rw no_table at present in
            absurd (unfold lookup in cc)
        | inr (subs, found) ↦
            let (closed_subs, there, closed_all) =
              lookup-close_tables table m.subscribers closed_tables subs done found in
            let its_done : lookup id closed_subs ≡ some (close_done sub) =
              rw (lookup-close_table id subs closed_subs closed_all, rw found at present) refl in
            rw (← this) (rw (unsubscribe, there, its_done) refl)
      ]
]
