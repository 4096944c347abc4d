-- ===== src/Tests/ConfigurationTests.antt =====
-- Runs of internal/config/config.go and internal/database/connection.go at concrete inputs.
use graphpost.Prelude.{
  String, [], ◌∷◌, Bool, true, false, Option, none, some, ◌==◌, if◌then◌else◌, ◌≡◌, refl, arith,
}
use graphpost.Prelude.Int.{ℤ, pos, negsuc}
use graphpost.Configuration.Defaults.{
  default_database, default_config, parse_database_url, connection_string, dsn,
}
use graphpost.Configuration.Environment.{
  Parsers, Environment, load_server, load_database, load_auth, load_pool, load_graphql,
  load_telemetry, load_logging, load_cache, load_duckdb, load_refresh, load_router, load_analytics,
  load_with, load_from_env,
}
use graphpost.Auth.Outcome.{ok, fails, authentication_required}
use graphpost.Auth.Keys.{initialize_keys}
use graphpost.Auth.Request.{
  Request, unreachable, extract_token, session_with_role, authenticate_request,
}
use graphpost.Tests.AuthTests.{lib, env, cache}
use graphpost.Configuration.Start.{
  unset, load_from_env-ignores_url, authenticate_request-load_from_env,
}
use graphpost.Database.Connection.{
  to_int32, positive_or, pool_settings, after_connect, Connection, new_connection, close,
  track_query, wait_for_queries, graceful_close, all_done, timed_out, closed_before, transaction,
  succeeds, errs, begin, commit, rollback, done, body_and_rollback_error,
}
use graphpost.Database.Connection.Bounds.{IsInt32, IsUsable, Follows, load_from_env-IsUsable}

program : Unit {0}
unfolding parse_database_url connection_string dsn load_server load_database load_auth load_pool
    load_graphql load_telemetry load_logging load_cache load_duckdb load_refresh load_router
    load_analytics load_with load_from_env to_int32 positive_or pool_settings after_connect
    new_connection close track_query wait_for_queries graceful_close transaction
program = tt

-- The numbers that the tests use.
abbrev seven_or_minus_one : Bool → Bool → Option ℤ
seven_or_minus_one true b = some (pos 7)
seven_or_minus_one false true = some (negsuc 0)
seven_or_minus_one false false = none

abbrev number : String → Option ℤ
number s = seven_or_minus_one (s == "7") (s == "-1")

abbrev parsers : Parsers ℤ
parsers = record {
  int_of = number;
  int32_of = number;
  float_of = number;
  duration_of = number;
  one = pos 1;
}

abbrev environment : Environment
environment name =
    if name == "GRAPHPOST_DATABASE_URL"
    then "postgres://app@db:6000/shop"
    else if name == "GRAPHPOST_POOL_MAX_CONNS"
    then "7"
    else if name == "GRAPHPOST_POOL_MIN_CONNS"
    then "-1"
    else if name == "GRAPHPOST_JWT_SECRET"
    then "s3cret"
    else ""

nothing_set : load_from_env parsers (λ name. "") ≡ default_config (pos 1)
unfolding program
nothing_set = refl

url_is_lost : (load_from_env parsers environment).database.host ≡ "localhost"
unfolding program
url_is_lost = refl

abbrev rune_text : ℤ → String
rune_text p = "ᔸ"

-- The port of a connection string is a character.
port_is_a_character :
    connection_string rune_text default_database
    ≡ "host=localhost port=ᔸ user=postgres password= dbname=postgres sslmode=disable"
unfolding program
port_is_a_character = refl

sizes :
    let s = pool_settings (load_from_env parsers environment).database in
    (s.min_conns ≡ pos 5) × (s.max_conns ≡ pos 7)
unfolding program
sizes = (refl, refl)

-- A legacy size that does not fit an int32 wraps to a negative one.
wraps : to_int32 (pos 2147483648) ≡ negsuc 2147483647
unfolding program
wraps = refl

abbrev busy : Connection
busy = record { shutting_down = false; active_queries = 2; pool_is_open = true; is_closed = false }

waits_for_queries : (graceful_close (1 ∷ 0 ∷ []) busy).0 ≡ all_done
unfolding program
waits_for_queries = refl

closes_at_deadline :
    ((graceful_close (1 ∷ 1 ∷ []) busy).0 ≡ timed_out)
    × ((graceful_close (1 ∷ 1 ∷ []) busy).1.pool_is_open ≡ false)
unfolding program
closes_at_deadline = (refl, refl)

closed_twice : (graceful_close [] (close busy)).0 ≡ closed_before
unfolding program
closed_twice = refl

refused_after_close : track_query (close busy) ≡ none
unfolding program
refused_after_close = refl

commits : transaction true succeeds true ≡ (done, begin ∷ commit ∷ [])
unfolding program
commits = refl

rolls_back : transaction true errs false ≡ (body_and_rollback_error, begin ∷ rollback ∷ [])
unfolding program
rolls_back = refl

load_from_env-ignores_url_example :
    load_from_env parsers environment
    ≡ load_from_env parsers (unset "GRAPHPOST_DATABASE_URL" environment)
load_from_env-ignores_url_example = load_from_env-ignores_url parsers environment

some-IsInt32 : (m n : ℤ) → IsInt32 m → some m ≡ some n → IsInt32 n
some-IsInt32 m n h e = let this : m ≡ n = cc in rw (← this) h

seven_or_minus_one-IsInt32 : (a b : Bool) (n : ℤ) → seven_or_minus_one a b ≡ some n → IsInt32 n
seven_or_minus_one-IsInt32 true b n h = some-IsInt32 (pos 7) n (omega arith) h
seven_or_minus_one-IsInt32 false true n h = some-IsInt32 (negsuc 0) n (omega arith) h
seven_or_minus_one-IsInt32 false false n h = cc

number-IsInt32 : (s : String) (n : ℤ) → number s ≡ some n → IsInt32 n
number-IsInt32 s = seven_or_minus_one-IsInt32 (s == "7") (s == "-1")

load_from_env-IsUsable_example :
    let s = pool_settings (load_from_env parsers environment).database in
    IsUsable s × Follows parsers environment s
load_from_env-IsUsable_example = load_from_env-IsUsable parsers environment number-IsInt32

-- A request without headers and cookies.
abbrev plain_request : Request
plain_request = record { header = λ name. ""; cookie = λ name. none }

no_token : extract_token (load_from_env parsers environment).auth plain_request ≡ ""
unfolding program extract_token
no_token = refl

-- The secret of tokens is set, and still nobody has to show one.
authenticate_request-load_from_env_example :
    (authenticate_request lib
      (load_from_env parsers environment).auth
      (initialize_keys lib (load_from_env parsers environment).auth)
      env
      unreachable
      plain_request
      cache).0
    ≡ (if environment "GRAPHPOST_ADMIN_SECRET" == ""
        then ok (session_with_role "anonymous" false)
        else fails authentication_required)
authenticate_request-load_from_env_example =
    authenticate_request-load_from_env parsers environment lib
      (initialize_keys lib (load_from_env parsers environment).auth) env unreachable plain_request
      cache refl no_token
