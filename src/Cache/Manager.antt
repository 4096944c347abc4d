-- ===== src/Cache/Manager.antt =====
-- `Manager` of internal/cache/cache.go, over any implementation of the interface `Cache`. A nil
-- manager acts as one that is not enabled. A call whose result is none does not return: it
-- dereferences a cache that is not there, or waits in the cache.
pub mod MemoryBacked
use Prim.Native.String
use mathlib.Core.Option
use graphpost.Prelude.{
  ℕ, zero, suc, ◌+◌, ◌%◌, String, List, Bool, true, false, not, ◌&&◌, Option, none, some, ◌==◌,
  if◌then◌else◌,
}
use graphpost.Prelude.Text.{contains}
use graphpost.Prelude.Int.{ℤ, pos, negsuc}
use graphpost.Json.{Value, Fields}
use graphpost.Cache.Memory.{add64}

pub record CacheConfig : Type 0 where
  pub enabled : Bool
  pub backend : String
  pub default_ttl : ℤ
  pub max_size : ℤ
  pub query_cache_enabled : Bool
  pub query_cache_ttl : ℤ
  pub schema_cache_enabled : Bool
  pub schema_cache_ttl : ℤ
  pub cacheable_operations : List String
  pub excluded_tables : List String

-- The interface `Cache`: a method takes its time and gives the cache it leaves; the Boolean of a
-- method that may fail says whether there is no error.
pub record CacheOps (S : Type 0) : Type 0 where
  pub get : ℕ → String → S → Option (List ℕ) × S
  pub set : ℕ → String → List ℕ → ℤ → S → Option (Bool × S)
  pub delete : String → S → Bool × S
  pub clear : S → Bool × S

pub record QueryCacheKey : Type 0 where
  pub query : String
  pub variables : Fields
  pub role : String
  pub user_id : String

-- encoding/json, and the hexadecimal hash of the JSON text of a key
pub record Codec : Type 0 where
  pub marshal : Value → Option (List ℕ)
  pub unmarshal : List ℕ → Option Value
  pub hash : QueryCacheKey → String

pub record Manager (S : Type 0) : Type 0 where
  pub config : CacheConfig
  pub cache : Option S
  pub enabled : Bool
  pub query_hits : ℕ
  pub query_misses : ℕ
  pub schema_hits : ℕ
  pub schema_misses : ℕ

unfoldable pub generate_key : Codec → QueryCacheKey → String
generate_key codec key = String.◌++◌ "gql:" (codec.hash key)

abbrev pub table_key : String → String
table_key name = String.◌++◌ "table:" name

abbrev pub schema_key : String → String
schema_key name = String.◌++◌ "schema:" name

-- `if ttl == 0 { ttl = m.config.QueryCacheTTL }`
abbrev pub ttl_or : ℤ → ℤ → ℤ
ttl_or fallback (pos zero) = fallback
ttl_or fallback (pos (suc n)) = pos (suc n)
ttl_or fallback (negsuc n) = negsuc n

module _ {S : Type 0} where
  -- `memory` is a new memory cache, `redis` what the connection to Redis gives.
  unfoldable pub new_manager : CacheConfig → S → Option S → Option (Manager S)
  new_manager cfg memory redis =
      let m : Manager S = record {
        config = cfg;
        cache = none;
        enabled = cfg.enabled;
        query_hits = 0;
        query_misses = 0;
        schema_hits = 0;
        schema_misses = 0;
      } in
      if not cfg.enabled
      then some m
      else if cfg.backend == "redis"
      then Option.map (λ s. record m { cache = some s }) redis
      else some (record m { cache = some memory })

  -- A call of the cache that the manager has.
  abbrev pub with_cache : {A : Type 0} → Manager S → (S → Option (A × S)) → Option (A × Manager S)
  with_cache m call = elim m.cache [
    | none ↦ none
    | some s ↦ Option.map (λ r. (r.0, record m { cache = some r.1 })) (call s)
  ]

  abbrev pub serves_queries : Manager S → Bool
  serves_queries m = m.enabled && m.config.query_cache_enabled

  abbrev pub serves_schemas : Manager S → Bool
  serves_schemas m = m.enabled && m.config.schema_cache_enabled

  module _ (ops : CacheOps S) (codec : Codec) where
    -- What a lookup makes of the bytes that it finds.
    unfoldable pub query_found : Manager S → Option (List ℕ) → Option Value × Manager S
    query_found m none = (none, record m { query_misses = add64 m.query_misses 1 })
    query_found m (some bytes) = elim (codec.unmarshal bytes) [
      | none ↦ (none, m)
      | some result ↦ (some result, record m { query_hits = add64 m.query_hits 1 })
    ]

    unfoldable pub get_query_result :
        ℕ → QueryCacheKey → Manager S → Option (Option Value × Manager S)
    get_query_result now key m =
        if serves_queries m
        then Option.map (λ r. query_found r.1 r.0)
            (with_cache m (λ s. some (ops.get now (generate_key codec key) s)))
        else some (none, m)

    unfoldable pub set_query_result :
        ℕ → QueryCacheKey → Value → ℤ → Manager S → Option (Bool × Manager S)
    set_query_result now key result ttl m =
        if serves_queries m
        then elim (codec.marshal result) [
          | none ↦ some (false, m)
          | some bytes ↦
              with_cache m
                (ops.set now (generate_key codec key) bytes (ttl_or m.config.query_cache_ttl ttl))
        ]
        else some (true, m)

    unfoldable pub invalidate_table : String → Manager S → Option (Bool × Manager S)
    invalidate_table table m =
        if m.enabled
        then with_cache m (λ s. some (ops.delete (table_key table) s))
        else some (true, m)

    unfoldable pub schema_found : Manager S → Option (List ℕ) → Option (List ℕ) × Manager S
    schema_found m none = (none, record m { schema_misses = add64 m.schema_misses 1 })
    schema_found m (some bytes) = (some bytes, record m { schema_hits = add64 m.schema_hits 1 })

    unfoldable pub get_schema : ℕ → String → Manager S → Option (Option (List ℕ) × Manager S)
    get_schema now schema m =
        if serves_schemas m
        then Option.map (λ r. schema_found r.1 r.0)
            (with_cache m (λ s. some (ops.get now (schema_key schema) s)))
        else some (none, m)

    unfoldable pub set_schema : ℕ → String → List ℕ → Manager S → Option (Bool × Manager S)
    set_schema now schema bytes m =
        if serves_schemas m
        then with_cache m (ops.set now (schema_key schema) bytes m.config.schema_cache_ttl)
        else some (true, m)

    -- `Clear`, also of a manager that is not enabled.
    unfoldable pub clear_all : Manager S → Bool × Manager S
    clear_all m = elim m.cache [
      | none ↦ (true, m)
      | some s ↦ let (fine, s') = ops.clear s in (fine, record m { cache = some s' })
    ]

  unfoldable pub is_table_cacheable : String → Manager S → Bool
  is_table_cacheable table m = m.enabled && not (contains m.config.excluded_tables table)

  unfoldable pub is_operation_cacheable : String → Manager S → Bool
  is_operation_cacheable operation m = m.enabled && contains m.config.cacheable_operations operation
