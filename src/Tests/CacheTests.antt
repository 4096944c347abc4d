-- ===== src/Tests/CacheTests.antt =====
-- Runs of internal/cache at concrete inputs.
use mathlib.Core.Option
use graphpost.Json.{bool, end}
use graphpost.Cache.Manager.{
  Codec, QueryCacheKey, Manager, get_query_result, set_query_result, invalidate_table,
}
use graphpost.Cache.Manager.MemoryBacked.{
  memory_ops, answer, get_query_result-set_query_result, invalidate_table-keeps_results,
}
use graphpost.Prelude.{[], ◌∷◌, Option, none, some, ◌≡◌, refl, true, eqb, if◌then◌else◌, arith}
use graphpost.Prelude.Int.{pos}
use graphpost.Maps.{lookup, delete, without}
use graphpost.Cache.Memory.{
  MemoryCache, positive_or, new_memory_cache, get, set, last, evict_oldest, evict_loop, remove_item,
  add64, sub64, cleanup, cleanup_loop, clear,
}
use graphpost.Cache.Memory.Invariant.{IsValid, new_memory_cache-IsValid}
use graphpost.Cache.Memory.Writes.{set-IsValid}
use graphpost.Cache.Memory.Cleanup.{lookup-cleanup, live}
use graphpost.Cache.Memory.Recency.{view, in_order, take}
use graphpost.Cache.Memory.View.{touch, stored, after_get, found_bytes, view-set, view-get}

program : Unit {0}
unfolding lookup delete without positive_or new_memory_cache get set last evict_oldest evict_loop
    remove_item add64 sub64 cleanup cleanup_loop clear view in_order touch take
program = tt

-- Room for two entries, which live for five seconds.
abbrev empty : MemoryCache
empty = new_memory_cache (pos 2) (pos 5)

abbrev or_empty : Option MemoryCache → MemoryCache
or_empty none = empty
or_empty (some c) = c

-- "a" at 1, "b" at 2, a read of "a" at 3
abbrev used : MemoryCache
used =
    (get 3 "a" (
      or_empty (set 2 "b" (20 ∷ 21 ∷ []) (pos 0) (or_empty (set 1 "a" (10 ∷ []) (pos 0) empty))))).1

-- A third key evicts "b", which was used least recently.
evicts_b :
    view (or_empty (set 4 "c" (30 ∷ []) (pos 9) used))
    ≡ ("c", record { bytes = 30 ∷ []; expires_at = 13 })
      ∷ ("a", record { bytes = 10 ∷ []; expires_at = 6 })
      ∷ []
unfolding program
evicts_b = refl

counts_bytes : (or_empty (set 4 "c" (30 ∷ []) (pos 9) used)).bytes_used ≡ 2
unfolding program
counts_bytes = refl

-- "a" has expired at 7.
expired_miss : (get 7 "a" used).0 ≡ none
unfolding program
expired_miss = refl

empty-IsValid : IsValid empty
empty-IsValid = new_memory_cache-IsValid (pos 2) (pos 5)

set-IsValid_example :
    (c' : MemoryCache) × (set 1 "a" (10 ∷ []) (pos 0) empty ≡ some c') × IsValid c'
set-IsValid_example = set-IsValid 1 "a" (10 ∷ []) (pos 0) empty empty-IsValid

-- An entry and its cache.
abbrev one : MemoryCache
one = set-IsValid_example.0

view-set_example :
    (c' : MemoryCache) × (set 4 "c" (30 ∷ []) (pos 9) one ≡ some c')
    × (view c' ≡ take one.max_size (touch "c" (stored 4 (30 ∷ []) (pos 9) one) (view one)))
view-set_example = view-set 4 "c" (30 ∷ []) (pos 9) one set-IsValid_example.2

view-get_example :
    ((get 3 "a" one).0 ≡ found_bytes (live 3 (lookup "a" (view one))))
    × (view (get 3 "a" one).1 ≡ after_get 3 "a" (lookup "a" (view one)) (view one))
view-get_example = view-get 3 "a" one set-IsValid_example.2

lookup-cleanup_example : lookup "a" (cleanup 7 one).items ≡ live 7 (lookup "a" one.items)
lookup-cleanup_example = lookup-cleanup 7 one "a" set-IsValid_example.2

-- A codec that reads back what it writes, and a key that hashes to its query.
abbrev codec : Codec
codec = record {
  marshal = λ v. elim v [ bool b ↦ some ((if b then 1 else 0) ∷ []) | _ ↦ none ];
  unmarshal = λ bytes. elim bytes [ n ∷ [] ↦ some (bool (eqb n 1)) | _ ↦ none ];
  hash = λ key. key.query;
}

abbrev key : QueryCacheKey
key = record { query = "q"; variables = end; role = "user"; user_id = "7" }

abbrev manager : Manager MemoryCache
manager = record {
  config = record {
    enabled = true;
    backend = "memory";
    default_ttl = pos 5;
    max_size = pos 2;
    query_cache_enabled = true;
    query_cache_ttl = pos 3;
    schema_cache_enabled = true;
    schema_cache_ttl = pos 5;
    cacheable_operations = [];
    excluded_tables = [];
  };
  cache = some empty;
  enabled = true;
  query_hits = 0;
  query_misses = 0;
  schema_hits = 0;
  schema_misses = 0;
}

get_query_result-set_query_result_example :
    answer (
      Option.bind
        (set_query_result memory_ops codec 1 key (bool true) (pos 0) manager)
        (λ r. get_query_result memory_ops codec 4 key r.1))
    ≡ some (some (bool true))
get_query_result-set_query_result_example =
    get_query_result-set_query_result codec 1 4 key (bool true) (pos 0) (1 ∷ []) manager empty refl
      empty-IsValid refl refl refl (unfold positive_or new_memory_cache in omega arith)

invalidate_table-keeps_results_example :
    answer (
      Option.bind
        (invalidate_table memory_ops codec "users" manager)
        (λ r. get_query_result memory_ops codec 4 key r.1))
    ≡ answer (get_query_result memory_ops codec 4 key manager)
invalidate_table-keeps_results_example =
    invalidate_table-keeps_results codec 4 key "users" manager empty refl
