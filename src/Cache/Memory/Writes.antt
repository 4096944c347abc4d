-- ===== src/Cache/Memory/Writes.antt =====
-- `Set` and `cleanup` of internal/cache/memory.go: the eviction loop ends, and both keep the invariant.
use graphpost.Prelude.{
  ℕ, zero, suc, ◌+◌, ◌%◌, ◌≤◌, ◌<◌, String, List, ◌∷◌, none, some, true, false, arith, ◌≡◌, refl,
  ◌∙◌, leb, eq_iff, if◌then◌else◌, length, Bool-cases, Option-cases, inl, inr,
}
use graphpost.Prelude.Int.{ℤ}
use graphpost.Maps.{
  GoMap, lookup, delete, put, keys, count, count-without, keys-delete, length-delete, delete_absent,
  count-some, count-none, length-without,
}
use graphpost.Cache.Memory.{
  Item, MemoryCache, int64_mod, add64, sub64, positive_or, remove_item, move_to_front, evict_oldest,
  evict_loop, insert_new, set,
}
use graphpost.Cache.Memory.Invariant.{
  IsValid, total, total-delete, oldest, evicted, evict_oldest-IsValid, length-evict_oldest,
  count-move_to_front, count-lru, add64-total,
}

-- What the loop leaves: one item less if the cache is full.
unfoldable pub make_room : MemoryCache → MemoryCache
make_room c = if leb c.max_size (length c.items) then evict_oldest c else c

max_size-evict_oldest : (c : MemoryCache) → (evict_oldest c).max_size ≡ c.max_size
unfolding evict_oldest remove_item
max_size-evict_oldest c = ground arith

pub make_room-IsValid : (c : MemoryCache) → IsValid c → IsValid (make_room c)
unfolding make_room
make_room-IsValid c v = elim (Bool-cases (leb c.max_size (length c.items))) [
  | inr fits ↦ rw fits v
  | inl full ↦ rw full (evict_oldest-IsValid c v (ground (arith, v.room)))
]

pub length-make_room :
    (c : MemoryCache)
    → IsValid c
    → (length (make_room c).items < c.max_size) × ((make_room c).max_size ≡ c.max_size)
unfolding make_room
length-make_room c v = elim (Bool-cases (leb c.max_size (length c.items))) [
  | inr fits ↦ rw fits (ground arith, refl)
  | inl full ↦ rw full (
    ground (arith, v.room, v.bounded, length-evict_oldest c v (ground (arith, v.room))),
    max_size-evict_oldest c,
  )
]

evict_loop_none :
    (fuel : ℕ) (c : MemoryCache)
    → leb c.max_size (length c.items) ≡ false
    → evict_loop (suc fuel) c ≡ some c
unfolding evict_loop
evict_loop_none fuel c h = rw h

evict_loop_once :
    (fuel : ℕ) (c : MemoryCache)
    → 0 < fuel
    → leb c.max_size (length c.items) ≡ true
    → leb (evict_oldest c).max_size (length (evict_oldest c).items) ≡ false
    → evict_loop (suc fuel) c ≡ some (evict_oldest c)
unfolding evict_loop
evict_loop_once zero c p h k = elim p [ ]
evict_loop_once (suc fuel) c p h k = rw (h, k)

-- The loop ends on a valid cache: one round is enough.
pub evict_loop-make_room :
    (c : MemoryCache) → IsValid c → evict_loop (suc (length c.items)) c ≡ some (make_room c)
unfolding make_room
evict_loop-make_room c v = elim (Bool-cases (leb c.max_size (length c.items))) [
  | inr fits ↦ rw fits (evict_loop_none (length c.items) c fits)
  | inl full ↦ rw full (
      evict_loop_once (length c.items) c (ground (arith, v.room)) full (
        ground (
          arith,
          v.room,
          v.bounded,
          length-evict_oldest c v (ground (arith, v.room)),
          max_size-evict_oldest c,
        )))
]

insert_new-IsValid :
    (now : ℕ) (key : String) (bytes : List ℕ) (ttl : ℕ) (c : MemoryCache)
    → IsValid c
    → count key (keys c.items) ≡ 0
    → length c.items < c.max_size
    → IsValid (insert_new now key bytes ttl c)
unfolding total count
insert_new-IsValid now key bytes ttl c v new fits = record {
  room = v.room;
  bounded = rw (delete_absent key c.items new) (omega arith);
  distinct =
      λ k. rw (delete_absent key c.items new) (ground (arith, v.distinct k, eq_iff key k, new));
  same = λ k. rw (delete_absent key c.items new) (ground (arith, v.same k));
  sized = rw (delete_absent key c.items new) (omega (arith, v.sized));
  counted =
      rw (delete_absent key c.items new, v.counted) (add64-total (total c.items) (length bytes));
}

-- An eviction brings no key in.
pub count-make_room :
    (key : String) (c : MemoryCache)
    → IsValid c
    → count key (keys c.items) ≡ 0
    → count key (keys (make_room c).items) ≡ 0
unfolding make_room remove_item
count-make_room key c v h = elim (Bool-cases (leb c.max_size (length c.items))) [
  | inr fits ↦ rw fits h
  | inl full ↦
      let (old, item, e, found) = oldest c v (ground (arith, v.room)) in
      rw full (
        rw (evicted c old item e found, keys-delete)
          (ground (arith, count-without old key (keys c.items), h)))
]

kept_count :
    (key k : String) (m : GoMap Item)
    → count key (keys m) ≤ 1
    → 1 ≤ count key (keys m)
    → count k (keys m) ≡ count k (key ∷ keys (delete key m))
unfolding count
kept_count key k m h g = rw keys-delete (ground (arith, eq_iff key k, count-without key k (keys m)))

exchange_total :
    (t old new : ℕ) → sub64 (add64 ((t + old) % int64_mod) new) old ≡ (new + t) % int64_mod
unfolding sub64 add64
exchange_total t old new = omega arith

updated-IsValid :
    (key : String) (item new : Item) (c : MemoryCache)
    → IsValid c
    → lookup key c.items ≡ some item
    → IsValid (record c {
      items = put key new c.items;
      lru_list = move_to_front key c.lru_list;
      bytes_used = sub64 (add64 c.bytes_used (length new.bytes)) (length item.bytes);
    })
unfolding total
updated-IsValid key item new c v found = record {
  room = v.room;
  bounded = omega (arith, v.bounded, length-delete key c.items, count-some key c.items item found);
  distinct = λ k.
      unfold count in
      rw keys-delete
        (ground (arith, eq_iff key k, v.distinct k, count-without key k (keys c.items)));
  same = λ k.
      count-move_to_front key k c.lru_list (count-lru key v found)
      ∙ v.same k
      ∙ kept_count key k c.items (v.distinct key) (count-some key c.items item found);
  sized = omega (
    arith,
    v.sized,
    length-without key c.lru_list,
    count-lru key v found,
    length-delete key c.items,
    v.same key,
  );
  counted = cc (
    v.counted,
    total-delete key c.items item found (v.distinct key),
    exchange_total (total (delete key c.items)) (length item.bytes) (length new.bytes),
  );
}

-- The cache after a `Set` of a new key, and of a key that is there.
abbrev pub set_new : ℕ → String → List ℕ → ℤ → MemoryCache → MemoryCache
set_new now key bytes ttl c = insert_new now key bytes (positive_or c.default_ttl ttl) (make_room c)

abbrev pub set_old : ℕ → String → List ℕ → ℤ → Item → MemoryCache → MemoryCache
set_old now key bytes ttl item c = record c {
  items =
      put key (record { bytes = bytes; expires_at = now + positive_or c.default_ttl ttl }) c.items;
  lru_list = move_to_front key c.lru_list;
  bytes_used = sub64 (add64 c.bytes_used (length bytes)) (length item.bytes);
}

pub set-set_new :
    (now : ℕ) (key : String) (bytes : List ℕ) (ttl : ℤ) (c : MemoryCache)
    → IsValid c
    → lookup key c.items ≡ none
    → set now key bytes ttl c ≡ some (set_new now key bytes ttl c)
unfolding set
set-set_new now key bytes ttl c v miss = rw (miss, set) (rw (evict_loop-make_room c v))

pub set-set_old :
    (now : ℕ) (key : String) (bytes : List ℕ) (ttl : ℤ) (c : MemoryCache) (item : Item)
    → lookup key c.items ≡ some item
    → set now key bytes ttl c ≡ some (set_old now key bytes ttl item c)
unfolding set
set-set_old now key bytes ttl c item found = rw (found, set)

-- On a valid cache `Set` returns, since its eviction loop ends, and leaves a valid cache.
pub set-IsValid :
    (now : ℕ) (key : String) (bytes : List ℕ) (ttl : ℤ) (c : MemoryCache)
    → IsValid c
    → (c' : MemoryCache) × (set now key bytes ttl c ≡ some c') × IsValid c'
set-IsValid now key bytes ttl c v = elim (Option-cases (lookup key c.items)) [
  | inl miss ↦
      let (fits, same_max) = length-make_room c v in
      (
        set_new now key bytes ttl c,
        set-set_new now key bytes ttl c v miss,
        insert_new-IsValid now key bytes _ (make_room c) (make_room-IsValid c v)
            (count-make_room key c v (count-none key c.items miss)) (omega arith),
      )
  | inr (item, found) ↦ (
    set_old now key bytes ttl item c,
    set-set_old now key bytes ttl c item found,
    updated-IsValid key item _ c v found,
  )
]
