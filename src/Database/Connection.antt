-- ===== src/Database/Connection.antt =====
-- internal/database/connection.go: the settings of the pool, the closing of a connection, and
-- transactions. A driver's error is `false`.
pub mod Bounds
use graphpost.Prelude.{
  ℕ, zero, suc, ◌+◌, ◌-◌, ◌%◌, ◌^◌, String, List, [], ◌∷◌, Bool, true, false, not, ◌&&◌, ◌||◌,
  Option, none, some, ltb, eqb, ◌==◌, if◌then◌else◌,
}
use graphpost.Prelude.Int.{ℤ, pos, negsuc, ltb_ℤ}
use graphpost.Configuration.{DatabaseConfig, PoolConfig}
use graphpost.Configuration.Defaults.{seconds, minutes}
use Prim.Native.String

-- `int32(n)`
unfoldable pub to_int32 : ℤ → ℤ
to_int32 (pos n) =
    let low = n % 2 ^ 32 in if ltb low (2 ^ 31) then pos low else negsuc (2 ^ 32 - 1 - low)
to_int32 (negsuc n) =
    let low = n % 2 ^ 32 in if ltb low (2 ^ 31) then negsuc low else pos (2 ^ 32 - 1 - low)

-- What `NewConnection` sets of the pool's configuration.
pub record PoolSettings : Type 0 where
  pub min_conns : ℤ
  pub max_conns : ℤ
  pub max_conn_lifetime : ℤ
  pub max_conn_idle_time : ℤ
  pub health_check_period : ℤ
  pub connect_timeout : ℤ
  pub simple_protocol : Bool

-- `if v > 0 { … = v } else { … = w }`
unfoldable pub positive_or : ℤ → ℤ → ℤ
positive_or v w = if ltb_ℤ (pos 0) v then v else w

-- The legacy fields stand in for the settings of the pool that are not positive.
unfoldable pub pool_settings : DatabaseConfig → PoolSettings
unfolding positive_or to_int32
pool_settings cfg =
    let pool = cfg.pool in
    let legacy_min =
      if ltb_ℤ (pos 0) cfg.max_idle_conns then to_int32 cfg.max_idle_conns else pos 5 in
    let legacy_max =
      if ltb_ℤ (pos 0) cfg.max_open_conns then to_int32 cfg.max_open_conns else pos 50 in
    record {
      min_conns = positive_or pool.min_conns legacy_min;
      max_conns = positive_or pool.max_conns legacy_max;
      max_conn_lifetime =
          positive_or pool.max_conn_lifetime (positive_or cfg.conn_max_lifetime (minutes 60));
      max_conn_idle_time = positive_or pool.max_conn_idle_time (minutes 30);
      health_check_period = positive_or pool.health_check_period (minutes 1);
      connect_timeout = positive_or pool.connect_timeout (seconds 10);
      simple_protocol = pool.prefer_simple_protocol;
    }

-- The statement that a new connection runs, if any.
unfoldable pub after_connect : DatabaseConfig → Option String
after_connect cfg =
    if not (cfg.schema == "") && not (cfg.schema == "public")
    then some (String.◌++◌ "SET search_path TO " (String.◌++◌ cfg.schema ", public"))
    else none

-- A new connection, if the pool can be made and, unless it connects lazily, answers.
pub record Connection : Type 0 where
  pub shutting_down : Bool
  pub active_queries : ℕ
  pub pool_is_open : Bool
  pub is_closed : Bool

unfoldable pub new_connection : Bool → Bool → DatabaseConfig → Option Connection
new_connection made answers cfg =
    let opened : Connection = record {
      shutting_down = false;
      active_queries = 0;
      pool_is_open = true;
      is_closed = false;
    } in
    if made && (cfg.pool.lazy_connect || answers) then some opened else none

-- The body of `closeOnce`.
close_pool : Connection → Connection
close_pool c = if c.is_closed then c else record c { pool_is_open = false; is_closed = true }

unfoldable pub close : Connection → Connection
unfolding close_pool
close c =
    if c.is_closed
    then c
    else record c { shutting_down = true; pool_is_open = false; is_closed = true }

-- `trackQuery`: no connection is ErrShuttingDown.
unfoldable pub track_query : Connection → Option Connection
track_query c =
    if c.shutting_down then none else some (record c { active_queries = c.active_queries + 1 })

-- The numbers of active queries at one tick after another, until the deadline: whether it ends with
-- none left.
unfoldable pub wait_for_queries : List ℕ → Bool
wait_for_queries [] = false
wait_for_queries (active ∷ later) =
    let rest = wait_for_queries later in if eqb active 0 then true else rest

-- How a graceful close ends: at once, after the queries, at the deadline, or by the close of another
-- call, for which it waits.
pub data Ending : Type 0 where
  all_done : Ending
  timed_out : Ending
  closed_before : Ending
  waits_for_close : Ending

unfoldable pub graceful_close : List ℕ → Connection → Ending × Connection
unfolding close_pool wait_for_queries
graceful_close actives c =
    let done = if wait_for_queries (c.active_queries ∷ actives) then all_done else timed_out in
    if c.shutting_down
    then (if c.is_closed then closed_before else waits_for_close, c)
    else (done, close_pool (record c { shutting_down = true }))

-- What the function in a transaction does.
pub data Body : Type 0 where
  succeeds : Body
  errs : Body
  panics : Body

pub data TxCall : Type 0 where
  begin : TxCall
  commit : TxCall
  rollback : TxCall

pub data TxResult : Type 0 where
  done : TxResult
  begin_error : TxResult
  body_error : TxResult
  body_and_rollback_error : TxResult
  commit_error : TxResult
  panicked : TxResult

-- The result and the calls of the driver, given which of these work.
unfoldable pub transaction : Bool → Body → Bool → TxResult × List TxCall
transaction false body works = (begin_error, begin ∷ [])
transaction true succeeds works = (if works then done else commit_error, begin ∷ commit ∷ [])
transaction true errs works =
    (if works then body_error else body_and_rollback_error, begin ∷ rollback ∷ [])
transaction true panics works = (panicked, begin ∷ rollback ∷ [])
