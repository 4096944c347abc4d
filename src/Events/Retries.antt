-- ===== src/Events/Retries.antt =====
-- How often internal/events/triggers.go calls a webhook that fails.
use Prim.Native.String
use graphpost.Prelude.{
  ℕ, zero, suc, ◌+◌, ◌≤◌, ◌<◌, String, List, [], ◌∷◌, length, Bool, true, false, not, ◌&&◌, some,
  arith, ◌≡◌, refl, ap, ◌∙◌, ◌⊎◌, eq_refl, ltb, leb, if◌then◌else◌, Bool-cases, inl, inr,
}
use graphpost.Prelude.Int.{pos}
use graphpost.Maps.{GoMap, lookup}
use graphpost.Resolver.Sql.{decimal}
use graphpost.Events.Table.{
  failed, retrying, Row, Event, EventTrigger, TriggerManager, EventsConfig, update, exec,
  processing, set_status, is_due, due_rows, event_of, fetch_row, fetch_rows, fetch_pending_events,
  start_delivery,
}
use graphpost.Events.Delivery.{
  WebhookRequest, Reply, bad_request, no_response, response, request_of, mark_event_failed,
  mark_retrying, max_retries, handle_delivery_failure, outcome, after_reply, take_out,
  deliver_event, requests_sent,
}
use graphpost.Events.Fetch.{taken}

-- A manager whose table has one row, and nothing in flight.
abbrev pub lone : GoMap EventTrigger → String → Row → TriggerManager
lone triggers id row = record {
  triggers = triggers;
  rows = (id, row) ∷ [];
  event_queue = [];
  working = [];
}

-- A reply that `deliverEvent` counts as a failed delivery.
abbrev pub is_failure : Reply → Bool
is_failure (bad_request message) = false
is_failure (no_response message) = true
is_failure (response status) = not (leb 200 status && ltb status 300)

-- The requests of a tick of `pollEvents`.
unfoldable pub requests_in_round : TriggerManager → List WebhookRequest
requests_in_round tm =
    requests_sent 0 (start_delivery (fetch_pending_events (taken (λ id. true)) tm))

requests_in_round-due :
    (triggers : GoMap EventTrigger) (id : String) (trigger : EventTrigger) (row : Row)
    → lookup row.trigger_name triggers ≡ some trigger
    → is_due row ≡ true
    → length (requests_in_round (lone triggers id row)) ≡ 1
unfolding requests_in_round requests_sent start_delivery fetch_pending_events fetch_rows fetch_row
    exec update due_rows take_out lookup
requests_in_round-due triggers id trigger row named due = rw (due, named) refl

requests_in_round-idle :
    (triggers : GoMap EventTrigger) (id : String) (row : Row)
    → is_due row ≡ false
    → length (requests_in_round (lone triggers id row)) ≡ 0
unfolding requests_in_round requests_sent start_delivery fetch_pending_events fetch_rows due_rows
    take_out
requests_in_round-idle triggers id row idle = rw idle refl

apply_if :
    (b : Bool) (f g : Row → Row) (row : Row)
    → (if b then f else g) row ≡ (if b then f row else g row)
apply_if true f g row = refl
apply_if false f g row = refl

module _ (cfg : EventsConfig) (http : WebhookRequest → Reply) where
  -- A tick of `pollEvents`, and the delivery of what it queues.
  unfoldable pub round : TriggerManager → TriggerManager
  round tm =
      deliver_event cfg http true 0 (start_delivery (fetch_pending_events (taken (λ id. true)) tm))

  unfoldable pub rounds : ℕ → TriggerManager → TriggerManager
  rounds zero tm = tm
  rounds (suc n) tm = round (rounds n tm)

  -- How many requests the rounds have sent.
  unfoldable pub call_count : ℕ → TriggerManager → ℕ
  unfolding rounds
  call_count zero tm = 0
  call_count (suc n) tm = call_count n tm + length (requests_in_round (rounds n tm))

  round-lone :
      (triggers : GoMap EventTrigger) (id : String) (row : Row)
      → is_due row ≡ true
      → round (lone triggers id row)
        ≡ lone triggers id (outcome cfg http triggers (event_of id row) (set_status processing row))
  unfolding round deliver_event start_delivery fetch_pending_events fetch_rows fetch_row exec update
      due_rows take_out
  round-lone triggers id row due = rw (due, eq_refl) refl

  after_reply-failure :
      (event : Event) (trigger : EventTrigger) (reply : Reply) (row : Row)
      → is_failure reply ≡ true
      → (message : String) × (after_reply cfg http event trigger reply row
          ≡ handle_delivery_failure cfg event trigger message row)
  unfolding after_reply
  after_reply-failure event trigger (bad_request message) row h = cc
  after_reply-failure event trigger (no_response message) row h = (message, refl)
  after_reply-failure event trigger (response status) row h =
      elim (Bool-cases (leb 200 status && ltb status 300)) [
        | inl fine ↦ cc
        | inr bad ↦ (String.◌++◌ "HTTP " (decimal status), rw bad refl)
      ]

  module _ (triggers : GoMap EventTrigger) (id : String) (trigger : EventTrigger) (m : ℕ) where
    -- One more round for a row that is due: a retry below the limit, and a failure at it.
    round-failure :
        (row : Row)
        → lookup row.trigger_name triggers ≡ some trigger
        → max_retries cfg trigger ≡ pos m
        → ((r : WebhookRequest) → is_failure (http r) ≡ true)
        → is_due row ≡ true
        → (message : String) × (round (lone triggers id row)
            ≡ lone triggers id (
                if leb m row.retry_count
                then record row { status = failed; last_error = some message }
                else record row {
                  status = retrying;
                  retry_count = row.retry_count + 1;
                  last_error = some message;
                }))
    unfolding outcome handle_delivery_failure
    round-failure row named limit fails due =
        let event = event_of id row in
        let request = request_of trigger event in
        let (message, handled) =
          after_reply-failure event trigger (http request) (set_status processing row)
            (fails request) in
        (
          message,
          rw
              (
                round-lone triggers id row due,
                outcome,
                named,
                handled,
                handle_delivery_failure,
                limit,
              )
              (ap (lone triggers id) (
                apply_if (leb m row.retry_count) (mark_event_failed message) (mark_retrying message)
                  (set_status processing row))),
        )

  round-failed :
      (triggers : GoMap EventTrigger) (id : String) (row : Row)
      → is_due row ≡ false
      → round (lone triggers id row) ≡ lone triggers id row
  unfolding round deliver_event start_delivery fetch_pending_events fetch_rows due_rows take_out
  round-failed triggers id row idle = rw (idle) refl

  -- What `n` rounds with so many requests have made of a row whose limit is `m`.
  abbrev pub Progress : String → ℕ → ℕ → ℕ → Row → Type 0
  Progress name m n sent row =
      ((n ≤ m)
        × (row.trigger_name ≡ name)
        × (is_due row ≡ true)
        × (row.retry_count ≡ n)
        × (sent ≡ n))
      ⊎ ((m < n) × (row.status ≡ failed) × (row.retry_count ≡ m) × (sent ≡ m + 1))

  module _ (triggers : GoMap EventTrigger) (id : String) (trigger : EventTrigger) (m : ℕ) where
    next_round :
        (name : String) (n sent : ℕ) (row : Row)
        → lookup name triggers ≡ some trigger
        → max_retries cfg trigger ≡ pos m
        → ((r : WebhookRequest) → is_failure (http r) ≡ true)
        → Progress name m n sent row
        → (r : Row) × (round (lone triggers id row) ≡ lone triggers id r)
          × Progress name m (suc n) (sent + length (requests_in_round (lone triggers id row))) r
    next_round name n sent row named limit fails (inl (below, of_name, due, counted, once)) =
        let one = requests_in_round-due triggers id trigger row (rw of_name named) due in
        let (message, step) =
          round-failure triggers id trigger m row (rw of_name named) limit fails due in
        elim (Bool-cases (leb m row.retry_count)) [
          | inl over ↦ (
            record row { status = failed; last_error = some message },
            step ∙ rw over refl,
            inr (ground arith, refl, ground arith, rw (one, once) (ground arith)),
          )
          | inr more ↦ (
            record row {
              status = retrying;
              retry_count = row.retry_count + 1;
              last_error = some message;
            },
            step ∙ rw more refl,
            inl (ground arith, of_name, refl, ground arith, rw (one, once) (omega arith)),
          )
        ]
    next_round name n sent row named limit fails (inr (above, is_failed, counted, all_sent)) = (
      row,
      round-failed triggers id row (rw is_failed refl),
      inr (
        ground arith,
        is_failed,
        counted,
        rw (requests_in_round-idle triggers id row (rw is_failed refl), all_sent) (omega arith),
      ),
    )

    -- A manager has nothing in flight and one row, which is due, has no retry yet and is of a trigger
    -- with the limit of `m` retries, and every call of a webhook fails. Then after n rounds of polling
    -- and delivery, each of which finds the database working, the webhook has been called n times and the
    -- row is due again with n retries, while n is at most m. After more rounds it has been called
    -- m + 1 times, and the row has failed, with m retries.
    pub rounds-Progress :
        (row : Row) (n : ℕ)
        → lookup row.trigger_name triggers ≡ some trigger
        → max_retries cfg trigger ≡ pos m
        → ((r : WebhookRequest) → is_failure (http r) ≡ true)
        → is_due row ≡ true
        → row.retry_count ≡ 0
        → (r : Row) × (rounds n (lone triggers id row) ≡ lone triggers id r)
          × Progress row.trigger_name m n (call_count n (lone triggers id row)) r
    unfolding rounds call_count
    rounds-Progress row zero named limit fails due unretried =
        (row, refl, inl (omega arith, refl, due, unretried, refl))
    rounds-Progress row (suc n) named limit fails due unretried =
        let (r, so_far, progress) = rounds-Progress row n named limit fails due unretried in
        let (r', step, progress') = next_round row.trigger_name n _ r named limit fails progress in
        (r', rw so_far step, rw so_far progress')
