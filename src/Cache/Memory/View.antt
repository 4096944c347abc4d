-- ===== src/Cache/Memory/View.antt =====
-- The abstract view of `MemoryCache`: one list of entries, the most recently used first. Each method
-- of internal/cache/memory.go refines a simple operation on that list.
use graphpost.Prelude.{
  ℕ, suc, ◌+◌, ◌-◌, ◌≤◌, String, List, ◌∷◌, Option, none, some, arith, ◌≡◌, refl, ap, sym, ◌∙◌,
  eq_refl, if◌then◌else◌, length, Bool-cases, Option-cases, inl, inr,
}
use graphpost.Prelude.Int.{ℤ}
use graphpost.Maps.{
  GoMap, lookup, delete, put, keys, without, count, lookup-put, count-without, length-delete,
  delete_absent, count-some, count-none,
}
use graphpost.Cache.Memory.{
  Item, MemoryCache, positive_or, remove_item, is_expired, get, insert_new, set,
}
use graphpost.Cache.Memory.Invariant.{IsValid}
use graphpost.Cache.Memory.Cleanup.{live}
use graphpost.Cache.Memory.Writes.{
  make_room, make_room-IsValid, count-make_room, set_new, set_old, set-set_new, set-set_old,
}
use graphpost.Cache.Memory.Recency.{
  in_order, view, take, whole_list, in_order-put, in_order-delete, in_order-without, lookup-view,
  length-view, count-view, view-make_room,
}

-- The entry that a `Set` stores.
abbrev pub stored : ℕ → List ℕ → ℤ → MemoryCache → Item
stored now bytes ttl c = record { bytes = bytes; expires_at = now + positive_or c.default_ttl ttl }

-- The step of an ideal recency list: an entry moves to the front.
unfoldable pub touch : String → Item → GoMap Item → GoMap Item
touch key item es = (key, item) ∷ delete key es

in_order_front :
    (m : GoMap Item) (k : String) (item : Item) (l : List String)
    → lookup k m ≡ some item
    → in_order m (k ∷ l) ≡ (k, item) ∷ in_order m l
unfolding in_order
in_order_front m k item l h = rw h

in_order-touch :
    (m : GoMap Item) (k : String) (item : Item) (l : List String)
    → in_order (put k item m) (k ∷ without k l) ≡ touch k item (in_order m l)
unfolding touch
in_order-touch m k item l =
    in_order_front (put k item m) k item (without k l) (rw (lookup-put k k item m, eq_refl k))
    ∙ ap (◌∷◌ (k, item)) (
        in_order-put m k item (without k l) (rw (count-without k k l, eq_refl k))
        ∙ in_order-without m k l)

in_order_moved :
    (m : GoMap Item) (k : String) (item : Item) (l : List String)
    → lookup k m ≡ some item
    → in_order m (k ∷ without k l) ≡ touch k item (in_order m l)
unfolding touch
in_order_moved m k item l found =
    in_order_front m k item (without k l) found ∙ ap (◌∷◌ (k, item)) (in_order-without m k l)

view-set_old :
    (now : ℕ) (key : String) (bytes : List ℕ) (ttl : ℤ) (item : Item) (c : MemoryCache)
    → IsValid c
    → view (set_old now key bytes ttl item c) ≡ touch key (stored now bytes ttl c) (view c)
unfolding view
view-set_old now key bytes ttl item c v = in_order-touch c.items key _ c.lru_list

-- A new key in front of a cache that has it nowhere.
view-insert_new :
    (now : ℕ) (key : String) (bytes : List ℕ) (ttl : ℕ) (c : MemoryCache)
    → count key c.lru_list ≡ 0
    → view (insert_new now key bytes ttl c)
      ≡ (key, record { bytes = bytes; expires_at = now + ttl }) ∷ view c
unfolding view
view-insert_new now key bytes ttl c new =
    let item : Item = record { bytes = bytes; expires_at = now + ttl } in
    in_order_front (put key item c.items) key item c.lru_list
      (rw (lookup-put key key item c.items, eq_refl key))
    ∙ ap (◌∷◌ (key, item)) (in_order-put c.items key item c.lru_list new)

take-touch_new :
    (n m : ℕ) (key : String) (item : Item) (es : GoMap Item)
    → m ≡ suc n
    → count key (keys es) ≡ 0
    → take m (touch key item es) ≡ (key, item) ∷ take n es
unfolding take touch
take-touch_new n m key item es e new = rw (e, take, delete_absent key es new)

view-set_new :
    (now : ℕ) (key : String) (bytes : List ℕ) (ttl : ℤ) (c : MemoryCache)
    → IsValid c
    → lookup key c.items ≡ none
    → view (set_new now key bytes ttl c)
      ≡ take c.max_size (touch key (stored now bytes ttl c) (view c))
view-set_new now key bytes ttl c v miss =
    let n = c.max_size - 1 in
    let e : c.max_size ≡ suc n = omega (arith, v.room) in
    let absent = count-none key c.items miss in
    let room = make_room-IsValid c v in
    view-insert_new now key bytes _ (make_room c) (room.same key ∙ count-make_room key c v absent)
    ∙ ap (◌∷◌ (key, stored now bytes ttl c)) (view-make_room c n v e)
    ∙ sym (
        take-touch_new n c.max_size key (stored now bytes ttl c) (view c) e
          (count-view c key v ∙ absent))

length-touch :
    (key : String) (item : Item) (es : GoMap Item)
    → 1 ≤ count key (keys es)
    → length (touch key item es) ≤ length es
unfolding touch
length-touch key item es h = omega (arith, length-delete key es)

-- `Set` on a valid cache returns, and puts the entry, with its time of expiry, in front of the
-- entries in their order of use, without the old entry of the key; of these the first `max_size`
-- stay. So what it evicts is the least recently used entry, and only to make room for a new key.
pub view-set :
    (now : ℕ) (key : String) (bytes : List ℕ) (ttl : ℤ) (c : MemoryCache)
    → IsValid c
    → (c' : MemoryCache) × (set now key bytes ttl c ≡ some c')
      × (view c' ≡ take c.max_size (touch key (stored now bytes ttl c) (view c)))
view-set now key bytes ttl c v = elim (Option-cases (lookup key c.items)) [
  | inl miss ↦ (
    set_new now key bytes ttl c,
    set-set_new now key bytes ttl c v miss,
    view-set_new now key bytes ttl c v miss,
  )
  | inr (item, found) ↦ (
    set_old now key bytes ttl item c,
    set-set_old now key bytes ttl c item found,
    view-set_old now key bytes ttl item c v
        ∙ sym (
            whole_list _ c.max_size (
              omega (
                arith,
                length-view c v,
                v.bounded,
                count-view c key v,
                count-some key c.items item found,
                length-touch key (stored now bytes ttl c) (view c),
              ))),
  )
]

-- What the entries of a key are after a `Get` at a time: a live entry moves to the front, an
-- expired one is gone.
abbrev pub after_get : ℕ → String → Option Item → GoMap Item → GoMap Item
after_get now key none es = es
after_get now key (some item) es = if is_expired now item then delete key es else touch key item es

abbrev pub found_bytes : Option Item → Option (List ℕ)
found_bytes none = none
found_bytes (some item) = some item.bytes

-- `Get` returns the value of the entry that the view has for the key, unless it has expired. A hit
-- moves the entry to the front, an expired entry is removed, and nothing else changes.
pub view-get :
    (now : ℕ) (key : String) (c : MemoryCache)
    → IsValid c
    → ((get now key c).0 ≡ found_bytes (live now (lookup key (view c))))
      × (view (get now key c).1 ≡ after_get now key (lookup key (view c)) (view c))
unfolding get view remove_item
view-get now key c v = rw (lookup-view c key v) (elim (Option-cases (lookup key c.items)) [
  | inl miss ↦ rw (miss, get) (refl, refl)
  | inr (item, found) ↦ elim (Bool-cases (is_expired now item)) [
    | inl old ↦ rw (found, get) (rw old (refl, in_order-delete c.items key c.lru_list))
    | inr fresh ↦
        rw (found, get) (rw fresh (refl, in_order_moved c.items key item c.lru_list found))
  ]
])
