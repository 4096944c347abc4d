-- ===== src/Configuration/Defaults.antt =====
-- `DefaultConfig`, `parseDatabaseURL` and the connection strings of internal/config/config.go.
use graphpost.Prelude.{ℕ, ◌*◌, String, [], ◌∷◌, true, false, none}
use graphpost.Prelude.Int.{ℤ, pos}
use graphpost.Auth.Config.{AuthConfig}
use graphpost.Configuration.{
  ServerConfig, GraphQlConfig, PoolConfig, DatabaseConfig, EventsSection, CorsConfig,
  TelemetryConfig, LoggingConfig, CacheSection, AnalyticsConfig, Config,
}
use Prim.Native.String

-- `n * time.Second`
abbrev pub seconds : ℕ → ℤ
seconds n = pos (n * 1000000000)

abbrev pub minutes : ℕ → ℤ
minutes n = seconds (n * 60)

abbrev pub default_server : ServerConfig
default_server = record {
  host = "0.0.0.0";
  port = pos 8080;
  enable_playground = true;
  enable_introspection = true;
  request_timeout = seconds 60;
  max_connections = pos 1000;
}

abbrev pub default_pool : PoolConfig
default_pool = record {
  min_conns = pos 5;
  max_conns = pos 50;
  max_conn_lifetime = minutes 60;
  max_conn_idle_time = minutes 30;
  health_check_period = minutes 1;
  connect_timeout = seconds 10;
  lazy_connect = false;
  prefer_simple_protocol = false;
}

abbrev pub default_database : DatabaseConfig
default_database = record {
  host = "localhost";
  port = pos 5432;
  user = "postgres";
  password = "";
  database = "postgres";
  ssl_mode = "disable";
  schema = "public";
  pool = default_pool;
  max_open_conns = pos 50;
  max_idle_conns = pos 5;
  conn_max_lifetime = minutes 60;
}

abbrev pub default_auth : AuthConfig
default_auth = record {
  enabled = false;
  admin_secret = "";
  jwt_secret = "";
  jwt_algorithm = "HS256";
  jwt_claims_namespace = "https://graphpost.io/jwt/claims";
  unauthorized_role = "anonymous";
  allowed_roles = "user" ∷ "admin" ∷ [];
  default_role = "user";
  webhook_url = "";
  jwt = none;
}

abbrev pub default_events : EventsSection
default_events = record {
  enabled = true;
  http_pool_size = pos 100;
  fetch_interval = seconds 1;
  retry_limit = pos 3;
  retry_intervals = pos 10 ∷ pos 30 ∷ pos 60 ∷ [];
  enable_manual_trigger = true;
}

abbrev pub default_cors : CorsConfig
default_cors = record {
  enabled = true;
  allowed_origins = "*" ∷ [];
  allowed_methods = "GET" ∷ "POST" ∷ "OPTIONS" ∷ [];
  allowed_headers = "Content-Type" ∷ "Authorization" ∷ "X-Admin-Secret" ∷ [];
  allow_credentials = true;
  max_age = pos 86400;
}

abbrev pub default_graphql : GraphQlConfig
default_graphql = record {
  enable_queries = true;
  enable_mutations = true;
  enable_subscriptions = true;
  enable_aggregations = true;
  query_depth_limit = pos 0;
  query_timeout = pos 0;
}

abbrev pub default_logging : LoggingConfig
default_logging = record {
  level = "info";
  format = "json";
  output = "stdout";
  query_log = false;
  query_log_level = "debug";
  slow_query_threshold = seconds 1;
  slow_query_log_level = "warn";
  log_query_params = false;
  request_log = true;
  include_stack_trace = false;
}

abbrev pub default_cache : CacheSection
default_cache = record {
  enabled = false;
  backend = "memory";
  default_ttl = minutes 5;
  max_size = pos 10000;
  query_cache_enabled = true;
  query_cache_ttl = minutes 1;
  schema_cache_enabled = true;
  schema_cache_ttl = minutes 5;
  excluded_tables = [];
  redis_host = "localhost";
  redis_port = pos 6379;
  redis_password = "";
  redis_db = pos 0;
}

abbrev pub default_analytics : AnalyticsConfig
default_analytics = record {
  enabled = false;
  duckdb = record { path = ":memory:"; memory_limit = "2GB"; threads = pos 0; temp_directory = "" };
  refresh = record {
    scheduler_enabled = true;
    scheduler_interval = seconds 30;
    cdc_enabled = false;
    cdc_mode = "polling";
    cdc_poll_interval = seconds 5;
    cdc_create_triggers = false;
    cdc_include_row_data = false;
    cdc_reconnect_delay = seconds 5;
    lazy_ttl = minutes 5;
    max_concurrent_refreshes = pos 4;
    refresh_timeout = minutes 5;
  };
  router = record {
    enabled = true;
    prefer_materialized = true;
    fallback_to_live = true;
    staleness_threshold = minutes 5;
  };
}

-- `one` is 1.0.
abbrev pub default_telemetry : {F : Type 0} → F → TelemetryConfig F
default_telemetry one = record {
  enabled = false;
  service_name = "graphpost";
  service_version = "1.0.0";
  otlp_endpoint = "localhost:4317";
  otlp_protocol = "grpc";
  otlp_insecure = true;
  sample_rate = one;
  trace_queries = true;
  trace_resolvers = true;
}

abbrev pub default_config : {F : Type 0} → F → Config F
default_config one = record {
  server = default_server;
  database = default_database;
  auth = default_auth;
  console = record { enabled = true; assets_path = "./console" };
  events = default_events;
  cors = default_cors;
  graphql = default_graphql;
  telemetry = default_telemetry one;
  logging = default_logging;
  cache = default_cache;
  analytics = default_analytics;
}

-- The url is not read.
unfoldable pub parse_database_url : String → DatabaseConfig
parse_database_url url = default_database

infixr 60 ◌&◌
abbrev ◌&◌ : String → String → String
s & t = String.◌++◌ s t

-- `rune_text p` is `string(rune(p))`: the character of the number, and not its digits.
module _ (rune_text : ℤ → String) where
  unfoldable pub connection_string : DatabaseConfig → String
  connection_string d =
      "host="
      & d.host
      & " port="
      & rune_text d.port
      & " user="
      & d.user
      & " password="
      & d.password
      & " dbname="
      & d.database
      & " sslmode="
      & d.ssl_mode

  unfoldable pub dsn : DatabaseConfig → String
  dsn d =
      "postgres://"
      & d.user
      & ":"
      & d.password
      & "@"
      & d.host
      & ":"
      & rune_text d.port
      & "/"
      & d.database
      & "?sslmode="
      & d.ssl_mode
