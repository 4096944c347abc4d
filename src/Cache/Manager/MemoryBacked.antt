-- ===== src/Cache/Manager/MemoryBacked.antt =====
-- `Manager` of internal/cache/cache.go over the memory cache: what a stored query result is worth.
use Prim.Native.String
use Prim.Native.String.append
use Prim.Native.String.compare
use Prim.Native.Char.{Char, code}
use Prim.Native.Nat.{Ordering, compare as compare_ℕ}
use mathlib.Core.Option
use graphpost.Prelude.{
  ℕ, zero, suc, ◌+◌, ◌≤◌, String, List, true, false, Option, none, some, arith, ◌≡◌, refl, sym, ◌∙◌,
  ◌==◌, eq_iff, eq_refl, if◌then◌else◌, Option-cases, Bool-cases, inl, inr,
}
use graphpost.Prelude.Int.{ℤ}
use graphpost.Json.{Value}
use graphpost.Maps.{GoMap, lookup, lookup-delete}
use graphpost.Cache.Memory.{
  Item, MemoryCache, positive_or, get, set, remove, remove_item, clear, is_expired,
}
use graphpost.Cache.Memory.Invariant.{IsValid}
use graphpost.Cache.Memory.Cleanup.{live}
use graphpost.Cache.Memory.Writes.{set-IsValid}
use graphpost.Cache.Memory.Recency.{view, take, lookup-view}
use graphpost.Cache.Memory.View.{touch, stored, found_bytes, view-set}
use graphpost.Cache.Manager.{
  CacheOps, QueryCacheKey, Codec, Manager, generate_key, table_key, ttl_or, serves_queries,
  query_found, get_query_result, set_query_result, invalidate_table,
}

-- The memory cache as an implementation of the interface.
abbrev pub memory_ops : CacheOps MemoryCache
memory_ops = record {
  get = get;
  set = λ now key bytes ttl c. Option.map (λ c'. (true, c')) (set now key bytes ttl c);
  delete = λ key c. (true, remove key c);
  clear = λ c. (true, clear c);
}

get-value :
    (now : ℕ) (key : String) (c : MemoryCache)
    → (get now key c).0 ≡ found_bytes (live now (lookup key c.items))
unfolding get
get-value now key c = elim (Option-cases (lookup key c.items)) [
  | inl miss ↦ rw (get, miss) refl
  | inr (item, found) ↦
      rw (get, found)
        (elim (Bool-cases (is_expired now item)) [
          | inl old ↦ rw old refl
          | inr fresh ↦ rw fresh refl
        ])
]

first_differs :
    (c d : Char) (s t a b : String)
    → compare_ℕ (code c) (code d) ≡ Ordering.gt
    → (String.◌++◌ (String.◌∷◌ c s) a == String.◌++◌ (String.◌∷◌ d t) b) ≡ false
first_differs c d s t a b differ =
    rw (append.cons c s a, append.cons d t b) (rw (compare.cons-cons, differ) refl)

-- Keys of query results and of tables differ in their first characters.
generate_key-table_key :
    (codec : Codec) (key : QueryCacheKey) (table : String)
    → (table_key table == generate_key codec key) ≡ false
unfolding generate_key
generate_key-table_key codec key table =
    first_differs (String.char_at "t" 0) (String.char_at "g" 0) "able:" "ql:" table (codec.hash key)
      refl

lookup-remove :
    (k j : String) (c : MemoryCache)
    → lookup k (remove j c).items ≡ (if j == k then none else lookup k c.items)
unfolding remove remove_item
lookup-remove k j c = elim (Option-cases (lookup j c.items)) [
  | inl miss ↦ rw (remove, miss) (ground (arith, eq_iff j k))
  | inr (item, found) ↦ rw (remove, found) (lookup-delete j k c.items)
]

other_key :
    (now : ℕ) (k j : String) (c : MemoryCache)
    → (j == k) ≡ false
    → (get now k (remove j c)).0 ≡ (get now k c).0
other_key now k j c differ =
    rw (get-value now k (remove j c), get-value now k c, lookup-remove k j c, differ) refl

-- The result of a lookup, without the manager.
abbrev pub answer : Option (Option Value × Manager MemoryCache) → Option (Option Value)
answer = Option.map (λ r. r.0)

-- The bytes of a value that are read back.
abbrev pub decoded : Codec → Option (List ℕ) → Option Value
decoded codec none = none
decoded codec (some bytes) = codec.unmarshal bytes

query_found-decoded :
    (codec : Codec) (m : Manager MemoryCache) (bytes : Option (List ℕ))
    → (query_found memory_ops codec m bytes).0 ≡ decoded codec bytes
unfolding query_found
query_found-decoded codec m none = refl
query_found-decoded codec m (some bytes) = elim (Option-cases (codec.unmarshal bytes)) [
  | inl bad ↦ rw (query_found, bad) refl
  | inr (result, good) ↦ rw (query_found, good) refl
]

get_query_result-answer :
    (codec : Codec) (now : ℕ) (key : QueryCacheKey) (m : Manager MemoryCache) (c : MemoryCache)
    → m.cache ≡ some c
    → answer (get_query_result memory_ops codec now key m)
      ≡ some
          (if serves_queries m then decoded codec (get now (generate_key codec key) c).0 else none)
unfolding get_query_result
get_query_result-answer codec now key m c has = elim (Bool-cases (serves_queries m)) [
  | inl on ↦
      rw (get_query_result, on, has)
        (rw
          (query_found-decoded codec
            (record m { cache = some (get now (generate_key codec key) c).1 })
            (get now (generate_key codec key) c).0)
          refl)
  | inr off ↦ rw (get_query_result, off) refl
]

invalidate_table-on :
    (codec : Codec) (table : String) (m : Manager MemoryCache) (c : MemoryCache)
    → m.cache ≡ some c
    → m.enabled ≡ true
    → invalidate_table memory_ops codec table m
      ≡ some (true, record m { cache = some (remove (table_key table) c) })
unfolding invalidate_table
invalidate_table-on codec table m c has on = rw (invalidate_table, on, has) refl

invalidate_table-off :
    (codec : Codec) (table : String) (m : Manager MemoryCache)
    → m.enabled ≡ false
    → invalidate_table memory_ops codec table m ≡ some (true, m)
unfolding invalidate_table
invalidate_table-off codec table m off = rw (invalidate_table, off) refl

-- `InvalidateTable` invalidates no query: every lookup of a query result gives afterwards what it
-- would have given before, for a manager that has a cache.
pub invalidate_table-keeps_results :
    (codec : Codec) (now : ℕ) (key : QueryCacheKey) (table : String) (m : Manager MemoryCache)
    (c : MemoryCache)
    → m.cache ≡ some c
    → answer (
        Option.bind
          (invalidate_table memory_ops codec table m)
          (λ r. get_query_result memory_ops codec now key r.1))
      ≡ answer (get_query_result memory_ops codec now key m)
unfolding Option.bind
invalidate_table-keeps_results codec now key table m c has = elim (Bool-cases m.enabled) [
  | inl on ↦ rw (invalidate_table-on codec table m c has on) (
      get_query_result-answer codec now key (record m { cache = some (remove (table_key table) c) })
        (remove (table_key table) c) refl
      ∙ rw
          (other_key now (generate_key codec key) (table_key table) c
            (generate_key-table_key codec key table))
          (sym (get_query_result-answer codec now key m c has)))
  | inr off ↦ rw (invalidate_table-off codec table m off) refl
]

lookup-take :
    (n : ℕ) (key : String) (item : Item) (es : GoMap Item)
    → 1 ≤ n
    → lookup key (take n (touch key item es)) ≡ some item
unfolding take touch lookup
lookup-take zero key item es room = absurd (omega arith)
lookup-take (suc n) key item es room = rw eq_refl refl

-- What is set is there, with its time of expiry.
lookup-set :
    (now : ℕ) (key : String) (bytes : List ℕ) (ttl : ℤ) (c : MemoryCache)
    → IsValid c
    → (c' : MemoryCache) × (set now key bytes ttl c ≡ some c')
      × (lookup key c'.items ≡ some (stored now bytes ttl c))
lookup-set now key bytes ttl c v =
    let (c', done, shown) = view-set now key bytes ttl c v in
    let (c'', done', valid) = set-IsValid now key bytes ttl c v in
    let same : c'' ≡ c' = cc in
    (
      c',
      done,
      sym (lookup-view c' key (rw same at valid))
          ∙ rw shown (lookup-take c.max_size key (stored now bytes ttl c) (view c) v.room),
    )

set_query_result-on :
    (codec : Codec) (now : ℕ) (key : QueryCacheKey) (result : Value) (ttl : ℤ) (bytes : List ℕ)
    (m : Manager MemoryCache) (c c' : MemoryCache)
    → m.cache ≡ some c
    → serves_queries m ≡ true
    → codec.marshal result ≡ some bytes
    → set now (generate_key codec key) bytes (ttl_or m.config.query_cache_ttl ttl) c ≡ some c'
    → set_query_result memory_ops codec now key result ttl m
      ≡ some (true, record m { cache = some c' })
unfolding set_query_result
set_query_result-on codec now key result ttl bytes m c c' has on written done =
    rw (set_query_result, on, written, has, done) refl

-- A query result that `SetQueryResult` caches is what `GetQueryResult` gives for the same key until
-- it expires, if JSON reads back what it writes: the manager serves queries and has a valid cache.
pub get_query_result-set_query_result :
    (codec : Codec) (now later : ℕ) (key : QueryCacheKey) (result : Value) (ttl : ℤ)
    (bytes : List ℕ) (m : Manager MemoryCache) (c : MemoryCache)
    → m.cache ≡ some c
    → IsValid c
    → serves_queries m ≡ true
    → codec.marshal result ≡ some bytes
    → codec.unmarshal bytes ≡ some result
    → later ≤ now + positive_or c.default_ttl (ttl_or m.config.query_cache_ttl ttl)
    → answer (
        Option.bind
          (set_query_result memory_ops codec now key result ttl m)
          (λ r. get_query_result memory_ops codec later key r.1))
      ≡ some (some result)
unfolding Option.bind
get_query_result-set_query_result codec now later key result ttl bytes m c has v on written read
      in_time =
    let ttl' = ttl_or m.config.query_cache_ttl ttl in
    let (c', done, found) = lookup-set now (generate_key codec key) bytes ttl' c v in
    let fresh : is_expired later (stored now bytes ttl' c) ≡ false = ground arith in
    rw (set_query_result-on codec now key result ttl bytes m c c' has on written done) (
      get_query_result-answer codec later key (record m { cache = some c' }) c' refl
      ∙ rw (on, get-value later (generate_key codec key) c', found) (rw (fresh, read) refl))
