-- ===== src/Cache/Memory.antt =====
-- `MemoryCache` of internal/cache/memory.go. The mutex makes each method one step; `now` is what
-- `time.Now()` returns in that step, in nanoseconds. The items that the map and the recency list
-- share stand in the map, and the list holds their keys. The `int64` counters are bit patterns.
pub mod Invariant
pub mod Writes
pub mod Cleanup
pub mod Recency
pub mod View
use mathlib.Core.Option
use graphpost.Prelude.{
  ℕ, zero, suc, ◌+◌, ◌-◌, ◌%◌, ◌^◌, String, List, [], ◌∷◌, map, Option, none, some, Bool, true,
  false, ltb, leb, ◌==◌, if◌then◌else◌, length,
}
use graphpost.Prelude.Int.{ℤ, pos, negsuc}
use graphpost.Maps.{GoMap, lookup, delete, put, keys, without}

-- The entry's `key` is the key in the map.
pub record Item : Type 0 where
  pub bytes : List ℕ
  pub expires_at : ℕ

pub record MemoryCache : Type 0 where
  pub items : GoMap Item
  pub lru_list : List String
  pub max_size : ℕ
  pub default_ttl : ℕ
  pub hits : ℕ
  pub misses : ℕ
  pub evictions : ℕ
  pub bytes_used : ℕ

-- `int64` arithmetic, modulo 2 ^ 64
abbrev pub int64_mod : ℕ
int64_mod = 2 ^ 64

unfoldable pub add64 : ℕ → ℕ → ℕ
add64 a b = (a + b) % int64_mod

unfoldable pub sub64 : ℕ → ℕ → ℕ
sub64 a b = (a + int64_mod - b % int64_mod) % int64_mod

-- `if n <= 0 { n = fallback }`
unfoldable pub positive_or : ℕ → ℤ → ℕ
positive_or fallback (pos zero) = fallback
positive_or fallback (pos (suc n)) = suc n
positive_or fallback (negsuc n) = fallback

-- The maximal size 10000, and five minutes
abbrev pub fallback_size : ℕ
fallback_size = 10000

abbrev pub fallback_ttl : ℕ
fallback_ttl = 300000000000

unfoldable pub new_memory_cache : ℤ → ℤ → MemoryCache
unfolding positive_or
new_memory_cache max_size default_ttl = record {
  items = [];
  lru_list = [];
  max_size = positive_or fallback_size max_size;
  default_ttl = positive_or fallback_ttl default_ttl;
  hits = 0;
  misses = 0;
  evictions = 0;
  bytes_used = 0;
}

unfoldable pub remove_item : String → Item → MemoryCache → MemoryCache
remove_item key item c = record c {
  items = delete key c.items;
  lru_list = without key c.lru_list;
  bytes_used = sub64 c.bytes_used (length item.bytes);
}

-- `lruList.MoveToFront`
abbrev pub move_to_front : String → List String → List String
move_to_front key l = key ∷ without key l

-- `now.After(item.expiresAt)`
abbrev pub is_expired : ℕ → Item → Bool
is_expired now item = ltb item.expires_at now

unfoldable pub get : ℕ → String → MemoryCache → Option (List ℕ) × MemoryCache
get now key c = elim (lookup key c.items) [
  | none ↦ (none, record c { misses = add64 c.misses 1 })
  | some item ↦
      if is_expired now item
      then (let removed = remove_item key item c in
          (none, record removed { misses = add64 removed.misses 1 }))
      else (
        some item.bytes,
        record c { lru_list = move_to_front key c.lru_list; hits = add64 c.hits 1 },
      )
]

unfoldable pub last : List String → Option String
last [] = none
last (k ∷ []) = some k
last (k ∷ j ∷ l) = last (j ∷ l)

-- An element of the list whose item is not in the map does not occur (`IsValid`).
unfoldable pub evict_oldest : MemoryCache → MemoryCache
evict_oldest c = elim (last c.lru_list) [
  | none ↦ c
  | some key ↦ elim (lookup key c.items) [
    | none ↦ record c { lru_list = without key c.lru_list; evictions = add64 c.evictions 1 }
    | some item ↦
        let removed = remove_item key item c in
        record removed { evictions = add64 removed.evictions 1 }
  ]
]

-- `for len(c.items) >= c.maxSize`; `none` is a loop that has not ended.
unfoldable pub evict_loop : ℕ → MemoryCache → Option MemoryCache
evict_loop zero c = none
evict_loop (suc fuel) c =
    let rest = evict_loop fuel (evict_oldest c) in
    if leb c.max_size (length c.items) then rest else some c

abbrev pub insert_new : ℕ → String → List ℕ → ℕ → MemoryCache → MemoryCache
insert_new now key bytes ttl c = record c {
  items = put key (record { bytes = bytes; expires_at = now + ttl }) c.items;
  lru_list = key ∷ c.lru_list;
  bytes_used = add64 c.bytes_used (length bytes);
}

-- The fuel is one more than the items that can be evicted.
unfoldable pub set : ℕ → String → List ℕ → ℤ → MemoryCache → Option MemoryCache
set now key bytes ttl c =
    let ttl' = positive_or c.default_ttl ttl in
    elim (lookup key c.items) [
      | some item ↦ some (record c {
        items = put key (record { bytes = bytes; expires_at = now + ttl' }) c.items;
        lru_list = move_to_front key c.lru_list;
        bytes_used = sub64 (add64 c.bytes_used (length bytes)) (length item.bytes);
      })
      | none ↦ Option.map (insert_new now key bytes ttl') (evict_loop (suc (length c.items)) c)
    ]

unfoldable pub remove : String → MemoryCache → MemoryCache
remove key c = elim (lookup key c.items) [ none ↦ c | some item ↦ remove_item key item c ]

unfoldable pub clear : MemoryCache → MemoryCache
clear c = record c { items = []; lru_list = []; bytes_used = 0 }

-- The loop of `cleanup` over the entries that the map had when it began.
unfoldable pub cleanup_loop : ℕ → GoMap Item → MemoryCache → MemoryCache
cleanup_loop now [] c = c
cleanup_loop now ((key, item) ∷ rest) c =
    cleanup_loop now rest (if is_expired now item then remove_item key item c else c)

unfoldable pub cleanup : ℕ → MemoryCache → MemoryCache
cleanup now c = cleanup_loop now c.items c

abbrev pub size : MemoryCache → ℕ
size c = length c.items
