-- ===== src/Lib.antt =====
-- A model of graphpost, a GraphQL server over PostgreSQL, written in Go.
--
-- internal/schema makes the GraphQL types from the tables. A request comes with headers to
-- internal/engine/server.go; internal/auth decides whose session it is, which rules the session
-- has, and which rows and columns they leave. internal/resolver turns the arguments of a GraphQL
-- field into one SQL statement with numbered placeholders. internal/cache keeps results. Beside
-- the requests, internal/events delivers rows that triggers write to webhooks,
-- internal/subscription passes notifications of the database on to clients, internal/analytics
-- keeps aggregates in DuckDB, refreshes them from PostgreSQL on demand, on schedule and on
-- changes, and answers queries from them, internal/config and internal/database say with which
-- settings all this starts, and internal/engine/shutdown.go stops the parts in order.
--
-- Files and what they model:
--   Json, Maps            interface{} values and Go maps. A map is the list of its entries in the
--                         order in which one range over it yields them: Go leaves that order open,
--                         and a theorem for every list holds for every order.
--   Resolver/Quote        quoteIdentifier of internal/resolver/resolver.go
--   Resolver/Sql          SQL texts in pieces (fixed words, identifiers, placeholders); render
--                         gives the text that the Sprintf calls of the source write
--   Resolver/Columns      buildColumnConditions
--   Resolver/Where        buildWhereClause
--   Resolver/Statements   the other build* methods and the statements of the *ByPK and Delete
--                         methods; Numbering holds their placeholders
--   Resolver/Aggregates   the query of resolveAggregateFields, isNumericType, isComparableType
--   Resolver/Answers      scanRows, the values of resolveAggregateFields, over the interface Pool
--   Resolver/Operations   the methods of Resolver with the prefix Resolve; Sent holds the statements
--                         that they send, AggregateNames the columns of an aggregate
--   Cache/Memory          MemoryCache of internal/cache/memory.go; its children hold the
--                         invariant, the eviction loop, cleanup, and the view as one list in order
--                         of use
--   Cache/Manager         Manager of internal/cache/cache.go over the interface Cache, and with
--                         the memory cache as its implementation
--   Cache/Redis           RedisCache of internal/cache/redis.go over the interface RedisClient; Tags
--                         holds what Redis documents, and what an invalidated tag leaves
--   Auth/Config           AuthConfig and JWTConfig of internal/config/config.go, and Session
--   Auth/Claims           buildSessionFromPayload of internal/auth/auth.go and what it calls
--   Auth/Permissions      AddPermission, GetPermissions, CheckPermission
--   Auth/Filter           ApplyRowFilter, ApplyColumnPermissions, substituteSessionVariables
--   Auth/Keys, Auth/Jwks  parseKey, jwkToPublicKey, getJWKSKey
--   Auth/Signature        verifySignature and its three methods
--   Auth/Jwt              ValidateJWT
--   Auth/Request          AuthenticateRequest, extractToken, authenticateViaWebhook
--   Events/Table          the table graphpost_events, the queue and the fetch of
--                         internal/events/triggers.go
--   Events/Delivery       deliverEvent, the status updates, InvokeEventTrigger, RedeliverEvent
--   Events/Held, Fetch, Deliveries, Runs, Retries
--                         the events in flight and their rows, over runs in any order, and retries
--   Subscription          Manager and LiveQueryManager of internal/subscription/manager.go; its
--                         children hold whom an event reaches, when Done is closed, and what a
--                         poll sends
--   Shutdown              ShutdownManager of internal/engine/shutdown.go, and the order of the
--                         components
--   Analytics/Router      RouteAggregateQuery of internal/analytics/router.go
--   Analytics/Store       MaterializedStore of internal/analytics/materialized.go: the definitions
--                         in memory and the tables behind them; Operations are its methods, Load
--                         is loadDefinitions
--   Analytics/Refresh     RefreshManager of internal/analytics/refresh.go: the queries and what a
--                         row gives; Execution is RefreshAggregate and its callers, Lazy is
--                         GetOrComputeLazy; Figures says what a row gives, and Values, Groups,
--                         Schedule and Cached what these leave in the store
--   Analytics/Capture     CDCListener of internal/analytics/cdc_listener.go, many polls, and a start
--   Server                the handlers of internal/engine/server.go over the interface Engine;
--                         Middleware holds the paths and the middleware, Administration who may
--                         administrate
--   Configuration         internal/config/config.go: the records, Defaults, Environment, which is
--                         LoadFromEnv, and Start, what that means for a request
--   Schema                internal/schema: the types of columns, the operators that filters.go offers,
--                         which Compiled meets with those of the resolver, and the relationships
--   Database/Connection   NewConnection, Close, GracefulClose and Transaction of
--                         internal/database/connection.go, and the bounds of the pool's settings
--
-- A method that changes state returns the new state. A mutex makes a method one step. The clock is
-- an argument, one reading for each call, in nanoseconds. In the store of aggregates each statement
-- of DuckDB may fail, as a function of its number says, and the clock is a function of the number of
-- statements made. Its columns of times keep whole microseconds. The int64 counters of the cache are bit
-- patterns modulo 2 ^ 64. Numbers of JSON are whole numbers, since the code reads only dates from
-- them. Texts are lists of Unicode scalar values, and ToLower is that of ASCII.
--
-- Loops are recursions on their lists. The eviction loop of Set takes fuel, one more than there
-- are items, which is enough on a valid cache. A fetch of events takes 100 rows, and the queue
-- holds 10000, as in the source. Scans of Redis take fuel,
-- since nothing bounds the pages that a server gives. Decimal digits take n + 1 rounds for a number n.
--
-- Not modelled: the database, HTTP, the codecs and the cryptography of the standard library, which
-- are parameters (Encoders, Library, Answer, Response, Codec, Replies, Reply, Sources, Postgres,
-- LazySource, Parsers, Pool, RedisClient); the WebSocket loop and the pages of the server; floats, which are a type without laws where a value is passed on; goroutines and tickers, whose bodies are modelled as steps; and the parts
-- that the manifest lists as not modelled.
mod Prelude
pub mod Json
pub mod Maps
pub mod Resolver
pub mod Cache
pub mod Auth
pub mod Events
pub mod Subscription
pub mod Shutdown
pub mod Analytics
pub mod Configuration
pub mod Database
pub mod Schema
pub mod Server
mod Tests
