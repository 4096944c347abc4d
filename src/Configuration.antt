-- ===== src/Configuration.antt =====
-- internal/config/config.go: the configuration, as the other packages read it. Durations are whole
-- nanoseconds and a float64 is an `F`.
pub mod Defaults
pub mod Environment
pub mod Start
use graphpost.Prelude.{String, List, Bool}
use graphpost.Prelude.Int.{ℤ}
use graphpost.Auth.Config.{AuthConfig}

pub record ServerConfig : Type 0 where
  pub host : String
  pub port : ℤ
  pub enable_playground : Bool
  pub enable_introspection : Bool
  pub request_timeout : ℤ
  pub max_connections : ℤ

pub record GraphQlConfig : Type 0 where
  pub enable_queries : Bool
  pub enable_mutations : Bool
  pub enable_subscriptions : Bool
  pub enable_aggregations : Bool
  pub query_depth_limit : ℤ
  pub query_timeout : ℤ

-- `min_conns` and `max_conns` are of the type int32.
pub record PoolConfig : Type 0 where
  pub min_conns : ℤ
  pub max_conns : ℤ
  pub max_conn_lifetime : ℤ
  pub max_conn_idle_time : ℤ
  pub health_check_period : ℤ
  pub connect_timeout : ℤ
  pub lazy_connect : Bool
  pub prefer_simple_protocol : Bool

pub record DatabaseConfig : Type 0 where
  pub host : String
  pub port : ℤ
  pub user : String
  pub password : String
  pub database : String
  pub ssl_mode : String
  pub schema : String
  pub pool : PoolConfig
  pub max_open_conns : ℤ
  pub max_idle_conns : ℤ
  pub conn_max_lifetime : ℤ

pub record ConsoleConfig : Type 0 where
  pub enabled : Bool
  pub assets_path : String

pub record EventsSection : Type 0 where
  pub enabled : Bool
  pub http_pool_size : ℤ
  pub fetch_interval : ℤ
  pub retry_limit : ℤ
  pub retry_intervals : List ℤ
  pub enable_manual_trigger : Bool

pub record CorsConfig : Type 0 where
  pub enabled : Bool
  pub allowed_origins : List String
  pub allowed_methods : List String
  pub allowed_headers : List String
  pub allow_credentials : Bool
  pub max_age : ℤ

pub record TelemetryConfig (F : Type 0) : Type 0 where
  pub enabled : Bool
  pub service_name : String
  pub service_version : String
  pub otlp_endpoint : String
  pub otlp_protocol : String
  pub otlp_insecure : Bool
  pub sample_rate : F
  pub trace_queries : Bool
  pub trace_resolvers : Bool

pub record LoggingConfig : Type 0 where
  pub level : String
  pub format : String
  pub output : String
  pub query_log : Bool
  pub query_log_level : String
  pub slow_query_threshold : ℤ
  pub slow_query_log_level : String
  pub log_query_params : Bool
  pub request_log : Bool
  pub include_stack_trace : Bool

pub record CacheSection : Type 0 where
  pub enabled : Bool
  pub backend : String
  pub default_ttl : ℤ
  pub max_size : ℤ
  pub query_cache_enabled : Bool
  pub query_cache_ttl : ℤ
  pub schema_cache_enabled : Bool
  pub schema_cache_ttl : ℤ
  pub excluded_tables : List String
  pub redis_host : String
  pub redis_port : ℤ
  pub redis_password : String
  pub redis_db : ℤ

pub record DuckDbConfig : Type 0 where
  pub path : String
  pub memory_limit : String
  pub threads : ℤ
  pub temp_directory : String

pub record RefreshSection : Type 0 where
  pub scheduler_enabled : Bool
  pub scheduler_interval : ℤ
  pub cdc_enabled : Bool
  pub cdc_mode : String
  pub cdc_poll_interval : ℤ
  pub cdc_create_triggers : Bool
  pub cdc_include_row_data : Bool
  pub cdc_reconnect_delay : ℤ
  pub lazy_ttl : ℤ
  pub max_concurrent_refreshes : ℤ
  pub refresh_timeout : ℤ

pub record RouterSection : Type 0 where
  pub enabled : Bool
  pub prefer_materialized : Bool
  pub fallback_to_live : Bool
  pub staleness_threshold : ℤ

pub record AnalyticsConfig : Type 0 where
  pub enabled : Bool
  pub duckdb : DuckDbConfig
  pub refresh : RefreshSection
  pub router : RouterSection

pub record Config (F : Type 0) : Type 0 where
  pub server : ServerConfig
  pub database : DatabaseConfig
  pub auth : AuthConfig
  pub console : ConsoleConfig
  pub events : EventsSection
  pub cors : CorsConfig
  pub graphql : GraphQlConfig
  pub telemetry : TelemetryConfig F
  pub logging : LoggingConfig
  pub cache : CacheSection
  pub analytics : AnalyticsConfig
