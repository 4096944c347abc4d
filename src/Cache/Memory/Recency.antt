-- ===== src/Cache/Memory/Recency.antt =====
-- The items of `MemoryCache` as one list of entries, the most recently used first.
use graphpost.Prelude.{
  ℕ, zero, suc, ◌≤◌, String, List, [], ◌∷◌, Option, none, some, arith, ◌≡◌, refl, ap, sym, ◌∙◌, leb,
  eqb, eq_iff, eq_refl, if◌then◌else◌, length, Bool-cases, Option-cases, inl, inr,
}
use graphpost.Maps.{
  GoMap, lookup, delete, put, keys, without, count, lookup-delete, lookup-put, length-keys,
  count-none, lookup-none_of_count,
}
use graphpost.Cache.Memory.{Item, MemoryCache, remove_item, last, evict_oldest}
use graphpost.Cache.Memory.Invariant.{IsValid, oldest, evicted}
use graphpost.Cache.Memory.Writes.{make_room}

abbrev pub with_item : String → Option Item → GoMap Item → GoMap Item
with_item k none rest = rest
with_item k (some item) rest = (k, item) ∷ rest

-- The items of the map in the order of the list.
unfoldable pub in_order : GoMap Item → List String → GoMap Item
in_order m [] = []
in_order m (k ∷ l) = with_item k (lookup k m) (in_order m l)

unfoldable pub view : MemoryCache → GoMap Item
view c = in_order c.items c.lru_list

unfoldable pub take {ℓ} : {A : Type ℓ} → ℕ → List A → List A
take zero xs = []
take (suc n) [] = []
take (suc n) (x ∷ xs) = x ∷ take n xs

pub whole_list {ℓ} : {A : Type ℓ} (xs : List A) (n : ℕ) → length xs ≤ n → take n xs ≡ xs
unfolding take
whole_list [] zero fits = refl
whole_list [] (suc n) fits = refl
whole_list (x ∷ xs) zero fits = absurd (omega arith)
whole_list (x ∷ xs) (suc n) fits = ap (◌∷◌ x) (whole_list xs n (omega arith))

-- What the list does not name does not matter.
pub in_order-put :
    (m : GoMap Item) (k : String) (item : Item) (l : List String)
    → count k l ≡ 0
    → in_order (put k item m) l ≡ in_order m l
unfolding in_order count
in_order-put m k item [] h = refl
in_order-put m k item (j ∷ l) h =
    ground (arith, in_order-put m k item l, lookup-put k j item m, eq_iff k j, eq_iff j k)

pub in_order-delete :
    (m : GoMap Item) (k : String) (l : List String)
    → in_order (delete k m) (without k l) ≡ delete k (in_order m l)
unfolding in_order without delete
in_order-delete m k [] = refl
in_order-delete m k (j ∷ l) =
    ground (arith, in_order-delete m k l, lookup-delete k j m, eq_iff j k, eq_iff k j)

-- The same without touching the map.
pub in_order-without :
    (m : GoMap Item) (k : String) (l : List String)
    → in_order m (without k l) ≡ delete k (in_order m l)
unfolding in_order without delete
in_order-without m k [] = refl
in_order-without m k (j ∷ l) = ground (arith, in_order-without m k l, eq_iff j k)

pub no_item :
    (k : String) (m : GoMap Item) (l : List String)
    → lookup k m ≡ none
    → (1 ≤ count k (k ∷ l) → 1 ≤ count k (keys m))
    → ⊥
unfolding count
no_item k m l miss h = absurd (omega (arith, count-none k m miss, h (rw eq_refl (omega arith))))

pub more : (k j : String) (l : List String) → 1 ≤ count j l → 1 ≤ count j (k ∷ l)
unfolding count
more k j l h = omega arith

pub last-count : (es : GoMap Item) (k : String) → last (keys es) ≡ some k → 1 ≤ count k (keys es)
unfolding last count
last-count [] k h = cc
last-count (e ∷ []) k h = ground (arith, eq_refl k)
last-count (e ∷ f ∷ es) k h = ground (arith, last-count (f ∷ es) k)

pub keys-in_order :
    (m : GoMap Item) (l : List String)
    → ((k : String) → 1 ≤ count k l → 1 ≤ count k (keys m))
    → keys (in_order m l) ≡ l
unfolding in_order
keys-in_order m [] h = refl
keys-in_order m (k ∷ l) h = elim (Option-cases (lookup k m)) [
  | inl miss ↦ absurd (no_item k m l miss (h k))
  | inr (item, found) ↦ rw found (ap (◌∷◌ k) (keys-in_order m l (λ j p. h j (more k j l p))))
]

-- The keys of the view are the recency list.
pub keys-view : (c : MemoryCache) → IsValid c → keys (view c) ≡ c.lru_list
unfolding view
keys-view c v = keys-in_order c.items c.lru_list (λ k p. omega (arith, v.same k))

-- The view looks every key up as the map does.
pub lookup-in_order :
    (m : GoMap Item) (k : String) (l : List String)
    → lookup k (in_order m l) ≡ (if eqb (count k l) 0 then none else lookup k m)
unfolding in_order lookup count
lookup-in_order m k [] = refl
lookup-in_order m k (j ∷ l) = ground (arith, lookup-in_order m k l, eq_iff j k, lookup j m)

pub lookup-view : (c : MemoryCache) (k : String) → IsValid c → lookup k (view c) ≡ lookup k c.items
unfolding view
lookup-view c k v =
    lookup-in_order c.items k c.lru_list ∙ ground (arith, v.same k, lookup-none_of_count k c.items)

pub length-view : (c : MemoryCache) → IsValid c → length (view c) ≡ length c.items
length-view c v =
    omega (arith, length-keys (view c), ap (length {A = String}) (keys-view c v), v.sized)

pub count-view :
    (c : MemoryCache) (k : String) → IsValid c → count k (keys (view c)) ≡ count k (keys c.items)
count-view c k v = ap (count k) (keys-view c v) ∙ v.same k

pub delete-last :
    (n : ℕ) (es : GoMap Item) (k : String)
    → last (keys es) ≡ some k
    → count k (keys es) ≤ 1
    → length es ≡ suc n
    → delete k es ≡ take n es
unfolding last count delete take
delete-last n [] k h d e = cc
delete-last zero ((j, item) ∷ []) k h d e = ground (arith, eq_refl k)
delete-last zero (a ∷ b ∷ es) k h d e = absurd (omega arith)
delete-last (suc n) (a ∷ []) k h d e = absurd (omega arith)
delete-last (suc n) ((j, item) ∷ b ∷ es) k h d e =
    ground (arith, delete-last n (b ∷ es) k, last-count (b ∷ es) k)

pub view-evict_oldest :
    (c : MemoryCache) (n : ℕ)
    → IsValid c
    → c.max_size ≡ suc n
    → c.max_size ≤ length c.items
    → view (evict_oldest c) ≡ take n (view c)
unfolding view remove_item
view-evict_oldest c n v e full =
    let (old, item, oldest_is, found) = oldest c v (omega (arith, v.room)) in
    rw (evicted c old item oldest_is found) (
      in_order-delete c.items old c.lru_list
      ∙ delete-last n (view c) old (ap last (keys-view c v) ∙ oldest_is)
          (omega (arith, count-view c old v, v.distinct old))
          (omega (arith, length-view c v, v.bounded)))

-- Eviction drops the last entry of the view: the least recently used one.
pub view-make_room :
    (c : MemoryCache) (n : ℕ)
    → IsValid c
    → c.max_size ≡ suc n
    → view (make_room c) ≡ take n (view c)
unfolding make_room
view-make_room c n v e = elim (Bool-cases (leb c.max_size (length c.items))) [
  | inr fits ↦ rw fits (sym (whole_list (view c) n (ground (arith, length-view c v))))
  | inl full ↦ rw full (view-evict_oldest c n v e (ground arith))
]
