-- ===== src/Configuration/Environment.antt =====
-- `LoadFromEnv` of internal/config/config.go: one function for each group of variables. `json.Unmarshal`
-- of a number and `time.ParseDuration` are the interface `Parsers`; no value is an error.
use graphpost.Prelude.{String, Bool, true, false, Option, none, some, ◌==◌, if◌then◌else◌}
use graphpost.Prelude.Int.{ℤ}
use graphpost.Auth.Config.{AuthConfig}
use graphpost.Configuration.{
  ServerConfig, GraphQlConfig, PoolConfig, DatabaseConfig, TelemetryConfig, LoggingConfig,
  CacheSection, DuckDbConfig, RefreshSection, RouterSection, AnalyticsConfig, Config,
}
use graphpost.Configuration.Defaults.{default_config, parse_database_url}

pub record Parsers (F : Type 0) : Type 0 where
  pub int_of : String → Option ℤ
  pub int32_of : String → Option ℤ
  pub float_of : String → Option F
  pub duration_of : String → Option ℤ
  pub one : F

-- The value of an unset variable is the empty text.
abbrev pub Environment : Type 0
Environment = String → String

-- `if v := os.Getenv(…); v != "" { field = v }`
abbrev text_or : String → String → String
text_or v old = if v == "" then old else v

-- `if v == "true" { field = true }`
abbrev true_or : String → Bool → Bool
true_or v old = if v == "true" then true else old

-- `if v == "false" { field = false }`
abbrev false_or : String → Bool → Bool
false_or v old = if v == "false" then false else old

abbrev pub or_old : {A : Type 0} → Option A → A → A
or_old none old = old
or_old (some x) old = x

-- What is set and parses replaces the field.
abbrev pub parsed_or : {A : Type 0} → (String → Option A) → String → A → A
parsed_or parse v old = if v == "" then old else or_old (parse v) old

module _ {F : Type 0} (parsers : Parsers F) (env : Environment) where
  unfoldable pub load_server : ServerConfig → ServerConfig
  load_server c = record c {
    host = text_or (env "GRAPHPOST_HOST") c.host;
    port = parsed_or parsers.int_of (env "GRAPHPOST_PORT") c.port;
  }

  unfoldable pub load_database : DatabaseConfig → DatabaseConfig
  unfolding parse_database_url
  load_database c =
      let url = env "GRAPHPOST_DATABASE_URL" in if url == "" then c else parse_database_url url

  unfoldable pub load_auth : AuthConfig → AuthConfig
  load_auth c =
      let secret = env "GRAPHPOST_ADMIN_SECRET" in
      record c {
        admin_secret = text_or secret c.admin_secret;
        enabled = (if secret == "" then c.enabled else true);
        jwt_secret = text_or (env "GRAPHPOST_JWT_SECRET") c.jwt_secret;
      }

  unfoldable pub load_pool : PoolConfig → PoolConfig
  load_pool c = record {
    min_conns = parsed_or parsers.int32_of (env "GRAPHPOST_POOL_MIN_CONNS") c.min_conns;
    max_conns = parsed_or parsers.int32_of (env "GRAPHPOST_POOL_MAX_CONNS") c.max_conns;
    max_conn_lifetime =
        parsed_or parsers.duration_of (env "GRAPHPOST_POOL_MAX_CONN_LIFETIME") c.max_conn_lifetime;
    max_conn_idle_time =
        parsed_or parsers.duration_of (env "GRAPHPOST_POOL_MAX_CONN_IDLE_TIME")
          c.max_conn_idle_time;
    health_check_period =
        parsed_or parsers.duration_of (env "GRAPHPOST_POOL_HEALTH_CHECK_PERIOD")
          c.health_check_period;
    connect_timeout =
        parsed_or parsers.duration_of (env "GRAPHPOST_POOL_CONNECT_TIMEOUT") c.connect_timeout;
    lazy_connect = true_or (env "GRAPHPOST_POOL_LAZY_CONNECT") c.lazy_connect;
    prefer_simple_protocol =
        true_or (env "GRAPHPOST_POOL_SIMPLE_PROTOCOL") c.prefer_simple_protocol;
  }

  unfoldable pub load_graphql : GraphQlConfig → GraphQlConfig
  load_graphql c = record {
    enable_queries = false_or (env "GRAPHPOST_ENABLE_QUERIES") c.enable_queries;
    enable_mutations = false_or (env "GRAPHPOST_ENABLE_MUTATIONS") c.enable_mutations;
    enable_subscriptions = false_or (env "GRAPHPOST_ENABLE_SUBSCRIPTIONS") c.enable_subscriptions;
    enable_aggregations = false_or (env "GRAPHPOST_ENABLE_AGGREGATIONS") c.enable_aggregations;
    query_depth_limit =
        parsed_or parsers.int_of (env "GRAPHPOST_QUERY_DEPTH_LIMIT") c.query_depth_limit;
    query_timeout = parsed_or parsers.duration_of (env "GRAPHPOST_QUERY_TIMEOUT") c.query_timeout;
  }

  unfoldable pub load_telemetry : TelemetryConfig F → TelemetryConfig F
  load_telemetry c = record {
    enabled = true_or (env "GRAPHPOST_TELEMETRY_ENABLED") c.enabled;
    service_name = text_or (env "GRAPHPOST_TELEMETRY_SERVICE_NAME") c.service_name;
    service_version = text_or (env "GRAPHPOST_TELEMETRY_SERVICE_VERSION") c.service_version;
    otlp_endpoint = text_or (env "GRAPHPOST_OTLP_ENDPOINT") c.otlp_endpoint;
    otlp_protocol = text_or (env "GRAPHPOST_OTLP_PROTOCOL") c.otlp_protocol;
    otlp_insecure = false_or (env "GRAPHPOST_OTLP_INSECURE") c.otlp_insecure;
    sample_rate = parsed_or parsers.float_of (env "GRAPHPOST_TELEMETRY_SAMPLE_RATE") c.sample_rate;
    trace_queries = false_or (env "GRAPHPOST_TELEMETRY_TRACE_QUERIES") c.trace_queries;
    trace_resolvers = false_or (env "GRAPHPOST_TELEMETRY_TRACE_RESOLVERS") c.trace_resolvers;
  }

  unfoldable pub load_logging : LoggingConfig → LoggingConfig
  load_logging c = record {
    level = text_or (env "GRAPHPOST_LOG_LEVEL") c.level;
    format = text_or (env "GRAPHPOST_LOG_FORMAT") c.format;
    output = text_or (env "GRAPHPOST_LOG_OUTPUT") c.output;
    query_log = true_or (env "GRAPHPOST_LOG_QUERIES") c.query_log;
    query_log_level = text_or (env "GRAPHPOST_LOG_QUERY_LEVEL") c.query_log_level;
    slow_query_threshold =
        parsed_or parsers.duration_of (env "GRAPHPOST_SLOW_QUERY_THRESHOLD") c.slow_query_threshold;
    slow_query_log_level = text_or (env "GRAPHPOST_SLOW_QUERY_LOG_LEVEL") c.slow_query_log_level;
    log_query_params = true_or (env "GRAPHPOST_LOG_QUERY_PARAMS") c.log_query_params;
    request_log = false_or (env "GRAPHPOST_LOG_REQUESTS") c.request_log;
    include_stack_trace = true_or (env "GRAPHPOST_LOG_STACK_TRACE") c.include_stack_trace;
  }

  unfoldable pub load_cache : CacheSection → CacheSection
  load_cache c = record {
    enabled = true_or (env "GRAPHPOST_CACHE_ENABLED") c.enabled;
    backend = text_or (env "GRAPHPOST_CACHE_BACKEND") c.backend;
    default_ttl = parsed_or parsers.duration_of (env "GRAPHPOST_CACHE_TTL") c.default_ttl;
    max_size = parsed_or parsers.int_of (env "GRAPHPOST_CACHE_MAX_SIZE") c.max_size;
    query_cache_enabled = false_or (env "GRAPHPOST_CACHE_QUERY_ENABLED") c.query_cache_enabled;
    query_cache_ttl =
        parsed_or parsers.duration_of (env "GRAPHPOST_CACHE_QUERY_TTL") c.query_cache_ttl;
    schema_cache_enabled = false_or (env "GRAPHPOST_CACHE_SCHEMA_ENABLED") c.schema_cache_enabled;
    schema_cache_ttl =
        parsed_or parsers.duration_of (env "GRAPHPOST_CACHE_SCHEMA_TTL") c.schema_cache_ttl;
    excluded_tables = c.excluded_tables;
    redis_host = text_or (env "GRAPHPOST_REDIS_HOST") c.redis_host;
    redis_port = parsed_or parsers.int_of (env "GRAPHPOST_REDIS_PORT") c.redis_port;
    redis_password = text_or (env "GRAPHPOST_REDIS_PASSWORD") c.redis_password;
    redis_db = parsed_or parsers.int_of (env "GRAPHPOST_REDIS_DB") c.redis_db;
  }

  unfoldable pub load_duckdb : DuckDbConfig → DuckDbConfig
  load_duckdb c = record {
    path = text_or (env "GRAPHPOST_DUCKDB_PATH") c.path;
    memory_limit = text_or (env "GRAPHPOST_DUCKDB_MEMORY_LIMIT") c.memory_limit;
    threads = parsed_or parsers.int_of (env "GRAPHPOST_DUCKDB_THREADS") c.threads;
    temp_directory = text_or (env "GRAPHPOST_DUCKDB_TEMP_DIR") c.temp_directory;
  }

  unfoldable pub load_refresh : RefreshSection → RefreshSection
  load_refresh c = record {
    scheduler_enabled = false_or (env "GRAPHPOST_ANALYTICS_SCHEDULER_ENABLED") c.scheduler_enabled;
    scheduler_interval =
        parsed_or parsers.duration_of (env "GRAPHPOST_ANALYTICS_SCHEDULER_INTERVAL")
          c.scheduler_interval;
    cdc_enabled = true_or (env "GRAPHPOST_ANALYTICS_CDC_ENABLED") c.cdc_enabled;
    cdc_mode = text_or (env "GRAPHPOST_ANALYTICS_CDC_MODE") c.cdc_mode;
    cdc_poll_interval =
        parsed_or parsers.duration_of (env "GRAPHPOST_ANALYTICS_CDC_POLL_INTERVAL")
          c.cdc_poll_interval;
    cdc_create_triggers =
        true_or (env "GRAPHPOST_ANALYTICS_CDC_CREATE_TRIGGERS") c.cdc_create_triggers;
    cdc_include_row_data =
        true_or (env "GRAPHPOST_ANALYTICS_CDC_INCLUDE_ROW_DATA") c.cdc_include_row_data;
    cdc_reconnect_delay =
        parsed_or parsers.duration_of (env "GRAPHPOST_ANALYTICS_CDC_RECONNECT_DELAY")
          c.cdc_reconnect_delay;
    lazy_ttl = parsed_or parsers.duration_of (env "GRAPHPOST_ANALYTICS_LAZY_TTL") c.lazy_ttl;
    max_concurrent_refreshes =
        parsed_or parsers.int_of (env "GRAPHPOST_ANALYTICS_MAX_CONCURRENT_REFRESHES")
          c.max_concurrent_refreshes;
    refresh_timeout =
        parsed_or parsers.duration_of (env "GRAPHPOST_ANALYTICS_REFRESH_TIMEOUT") c.refresh_timeout;
  }

  unfoldable pub load_router : RouterSection → RouterSection
  load_router c = record {
    enabled = false_or (env "GRAPHPOST_ANALYTICS_ROUTER_ENABLED") c.enabled;
    prefer_materialized =
        false_or (env "GRAPHPOST_ANALYTICS_PREFER_MATERIALIZED") c.prefer_materialized;
    fallback_to_live = false_or (env "GRAPHPOST_ANALYTICS_FALLBACK_TO_LIVE") c.fallback_to_live;
    staleness_threshold =
        parsed_or parsers.duration_of (env "GRAPHPOST_ANALYTICS_STALENESS_THRESHOLD")
          c.staleness_threshold;
  }

  unfoldable pub load_analytics : AnalyticsConfig → AnalyticsConfig
  unfolding load_duckdb load_refresh load_router
  load_analytics c = record {
    enabled = true_or (env "GRAPHPOST_ANALYTICS_ENABLED") c.enabled;
    duckdb = load_duckdb c.duckdb;
    refresh = load_refresh c.refresh;
    router = load_router c.router;
  }

  -- The pool is read after the URL has replaced the section of the database.
  unfoldable pub load_with : DatabaseConfig → Config F
  unfolding load_server load_auth load_pool load_graphql load_telemetry load_logging load_cache
      load_analytics
  load_with database =
      let c = default_config parsers.one in
      record c {
        server = load_server c.server;
        database = record database { pool = load_pool database.pool };
        auth = load_auth c.auth;
        graphql = load_graphql c.graphql;
        telemetry = load_telemetry c.telemetry;
        logging = load_logging c.logging;
        cache = load_cache c.cache;
        analytics = load_analytics c.analytics;
      }

  unfoldable pub load_from_env : Config F
  unfolding load_with load_database
  load_from_env = load_with (load_database (default_config parsers.one).database)
