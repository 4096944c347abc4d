-- ===== src/Cache/Memory/Invariant.antt =====
-- The invariant of `MemoryCache`, and that every method keeps it.
use graphpost.Prelude.{
  ℕ, ◌+◌, ◌%◌, ◌≤◌, ◌<◌, String, List, [], ◌∷◌, some, arith, ◌≡◌, ◌⊎◌, refl, ◌∙◌, eq_iff, eq_refl,
  length, Bool-cases, Option-cases, inl, inr,
}
use graphpost.Prelude.Int.{ℤ}
use graphpost.Maps.{
  GoMap, lookup, delete, keys, count, count-without, keys-delete, length-delete, delete_absent,
  count-some, count-none, length-without,
}
use graphpost.Cache.Memory.{
  Item, MemoryCache, int64_mod, add64, sub64, new_memory_cache, remove_item, move_to_front,
  is_expired, get, last, evict_oldest, remove, clear,
}

-- The bytes of all values.
unfoldable pub total : GoMap Item → ℕ
total [] = 0
total ((k, item) ∷ m) = length item.bytes + total m

-- The list and the map have the same keys, each once, no more than fit; the byte counter is the
-- size of the values, as an `int64`.
pub record IsValid (c : MemoryCache) : Type 0 where
  pub room : 0 < c.max_size
  pub bounded : length c.items ≤ c.max_size
  pub distinct : (k : String) → count k (keys c.items) ≤ 1
  pub same : (k : String) → count k c.lru_list ≡ count k (keys c.items)
  pub sized : length c.lru_list ≡ length c.items
  pub counted : c.bytes_used ≡ total c.items % int64_mod

pub total-delete :
    (k : String) (m : GoMap Item) (item : Item)
    → lookup k m ≡ some item
    → count k (keys m) ≤ 1
    → total (delete k m) + length item.bytes ≡ total m
unfolding total lookup delete count
total-delete k [] item h d = cc
total-delete k ((j, v) ∷ m) item h d = ground (arith, delete_absent k m, total-delete k m item)

pub sub64-total : (t b : ℕ) → sub64 ((t + b) % int64_mod) b ≡ t % int64_mod
unfolding sub64
sub64-total t b = omega arith

pub add64-total : (t b : ℕ) → add64 (t % int64_mod) b ≡ (b + t) % int64_mod
unfolding add64
add64-total t b = omega arith

pub remove_item-IsValid :
    (key : String) (item : Item) {c : MemoryCache}
    → lookup key c.items ≡ some item
    → IsValid c
    → IsValid (remove_item key item c)
unfolding remove_item
remove_item-IsValid key item {c} found v = record {
  room = v.room;
  bounded = omega (arith, length-delete key c.items, v.bounded);
  distinct = λ k. rw keys-delete (ground (arith, count-without key k (keys c.items), v.distinct k));
  same = λ k. rw keys-delete (
      ground (arith, count-without key k (keys c.items), count-without key k c.lru_list, v.same k));
  sized =
      omega (arith, v.sized, v.same key, length-delete key c.items, length-without key c.lru_list);
  counted = cc (
    v.counted,
    total-delete key c.items item found (v.distinct key),
    sub64-total (total (delete key c.items)) (length item.bytes),
  );
}

-- The statistics do not matter.
with_stats-IsValid :
    {c : MemoryCache} (hits misses evictions : ℕ)
    → IsValid c
    → IsValid (record c { hits = hits; misses = misses; evictions = evictions })
with_stats-IsValid hits misses evictions v = record {
  room = v.room;
  bounded = v.bounded;
  distinct = v.distinct;
  same = v.same;
  sized = v.sized;
  counted = v.counted;
}

pub count-move_to_front :
    (k j : String) (l : List String) → count k l ≡ 1 → count j (move_to_front k l) ≡ count j l
unfolding count
count-move_to_front k j l h = ground (arith, count-without k j l, eq_iff k j, h)

-- A key of the map stands once in the list.
pub count-lru :
    {c : MemoryCache} (key : String) {item : Item}
    → IsValid c
    → lookup key c.items ≡ some item
    → count key c.lru_list ≡ 1
count-lru {c} key {item} v found =
    omega (arith, v.same key, v.distinct key, count-some key c.items item found)

moved-IsValid :
    {c : MemoryCache} (key : String) {item : Item}
    → IsValid c
    → lookup key c.items ≡ some item
    → IsValid (record c { lru_list = move_to_front key c.lru_list })
moved-IsValid {c} key v found = record {
  room = v.room;
  bounded = v.bounded;
  distinct = v.distinct;
  same = λ k. count-move_to_front key k c.lru_list (count-lru key v found) ∙ v.same k;
  sized = omega (arith, v.sized, length-without key c.lru_list, count-lru key v found);
  counted = v.counted;
}

pub get-IsValid : (now : ℕ) (key : String) {c : MemoryCache} → IsValid c → IsValid (get now key c).1
unfolding get remove_item
get-IsValid now key {c} v = elim (Option-cases (lookup key c.items)) [
  | inl miss ↦ rw (miss, get) (with_stats-IsValid c.hits (add64 c.misses 1) c.evictions v)
  | inr (item, found) ↦ elim (Bool-cases (is_expired now item)) [
    | inl old ↦
        rw (found, get)
          (rw old (
            with_stats-IsValid c.hits (add64 c.misses 1) c.evictions
              (remove_item-IsValid key item found v)))
    | inr live ↦
        rw (found, get)
          (rw live
            (with_stats-IsValid (add64 c.hits 1) c.misses c.evictions (moved-IsValid key v found)))
  ]
]

pub remove-IsValid : (key : String) {c : MemoryCache} → IsValid c → IsValid (remove key c)
unfolding remove
remove-IsValid key {c} v = elim (Option-cases (lookup key c.items)) [
  | inl miss ↦ rw (miss, remove) v
  | inr (item, found) ↦ rw (found, remove) (remove_item-IsValid key item found v)
]

pub clear-IsValid : {c : MemoryCache} → IsValid c → IsValid (clear c)
unfolding clear total count
clear-IsValid v = record {
  room = v.room;
  bounded = omega arith;
  distinct = λ k. omega arith;
  same = λ k. refl;
  sized = refl;
  counted = refl;
}

pub new_memory_cache-IsValid :
    (max_size default_ttl : ℤ) → IsValid (new_memory_cache max_size default_ttl)
unfolding new_memory_cache total count
new_memory_cache-IsValid max_size default_ttl = record {
  room = ground arith;
  bounded = omega arith;
  distinct = λ k. omega arith;
  same = λ k. refl;
  sized = refl;
  counted = refl;
}

last-cases : (l : List String) → (l ≡ []) ⊎ ((k : String) × (last l ≡ some k) × (1 ≤ count k l))
unfolding last count
last-cases [] = inl refl
last-cases (k ∷ []) = inr (k, refl, rw eq_refl (omega arith))
last-cases (k ∷ j ∷ l) = ground (arith, last-cases (j ∷ l))

lookup_of_count :
    (k : String) (m : GoMap Item) → 1 ≤ count k (keys m) → (item : Item) × (lookup k m ≡ some item)
lookup_of_count k m h = elim (Option-cases (lookup k m)) [
  | inl miss ↦ absurd (omega (arith, count-none k m miss))
  | inr (item, found) ↦ (item, found)
]

no_empty_list :
    (m : GoMap Item) (l : List String)
    → l ≡ []
    → ((k : String) → count k l ≡ count k (keys m))
    → 0 < length m
    → ⊥
unfolding count
no_empty_list [] l e s p = elim p [ ]
no_empty_list ((k, item) ∷ m) [] e s p = ground (arith, s k, eq_refl k)
no_empty_list ((k, item) ∷ m) (j ∷ l) e s p = cc

-- A valid cache that holds something has a last element, and its item is in the map.
pub oldest :
    (c : MemoryCache)
    → IsValid c
    → 0 < length c.items
    → (key : String) × (item : Item) × (last c.lru_list ≡ some key)
      × (lookup key c.items ≡ some item)
oldest c v h = elim (last-cases c.lru_list) [
  | inl empty ↦ absurd (no_empty_list c.items c.lru_list empty v.same h)
  | inr (key, e, present) ↦
      let (item, found) = lookup_of_count key c.items (omega (arith, v.same key)) in
      (key, item, e, found)
]

-- What `evictOldest` does to a valid cache that holds something.
pub evicted :
    (c : MemoryCache) (key : String) (item : Item)
    → last c.lru_list ≡ some key
    → lookup key c.items ≡ some item
    → evict_oldest c
      ≡ record (remove_item key item c) { evictions = add64 (remove_item key item c).evictions 1 }
unfolding evict_oldest
evicted c key item e found = rw (e, evict_oldest) (rw found)

pub evict_oldest-IsValid :
    (c : MemoryCache) → IsValid c → 0 < length c.items → IsValid (evict_oldest c)
unfolding remove_item
evict_oldest-IsValid c v h =
    let (key, item, e, found) = oldest c v h in
    rw (evicted c key item e found) (
      with_stats-IsValid c.hits c.misses (add64 c.evictions 1)
        (remove_item-IsValid key item found v))

-- An eviction frees one place.
pub length-evict_oldest :
    (c : MemoryCache)
    → IsValid c
    → 0 < length c.items
    → length (evict_oldest c).items + 1 ≡ length c.items
unfolding remove_item
length-evict_oldest c v h =
    let (key, item, e, found) = oldest c v h in
    rw (evicted c key item e found)
      (omega (arith, length-delete key c.items, v.distinct key, count-some key c.items item found))
