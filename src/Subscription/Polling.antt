-- ===== src/Subscription/Polling.antt =====
-- What a live query of internal/subscription/manager.go sends.
use graphpost.Prelude.{String, List, [], Bool, some, arith, ◌≡◌, refl, eq_iff, eq_refl}
use graphpost.Json.{Fields}
use graphpost.Subscription.{LiveQuery, poll_query}

-- The client has received everything.
abbrev pub drained : LiveQuery → LiveQuery
drained lq = record lq { channel = [] }

-- A poll that gives the result of the poll before sends nothing, also if the channel was full then,
-- so that the client never gets that result.
pub poll_query-sends_once :
    (hash_results : List Fields → String) (first second : Bool) (rows : List Fields)
    (lq : LiveQuery)
    → poll_query hash_results second
        (some rows)
        (drained (poll_query hash_results first (some rows) lq))
      ≡ drained (poll_query hash_results first (some rows) lq)
unfolding poll_query
poll_query-sends_once hash_results first second rows lq =
    same_hash second (poll_query hash_results first (some rows) lq)
      (ground (arith, eq_iff (hash_results rows) lq.last_hash))
  where
    same_hash :
        (picks : Bool) (q : LiveQuery)
        → q.last_hash ≡ hash_results rows
        → poll_query hash_results picks (some rows) (drained q) ≡ drained q
    same_hash picks q seen = rw (seen, eq_refl) refl
