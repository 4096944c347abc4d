-- ===== src/Cache/Memory/Cleanup.antt =====
-- `cleanup` of internal/cache/memory.go: it removes exactly what has expired.
use graphpost.Prelude.{
  ℕ, ◌≤◌, String, [], ◌∷◌, Option, none, some, Bool, true, arith, ◌≡◌, refl, ap, ◌∙◌, eqb, eq_iff,
  eq_refl, if◌then◌else◌, Bool-cases, inl, inr,
}
use graphpost.Maps.{
  GoMap, lookup, keys, count, lookup-delete, count-some, count-none, lookup-none_of_count,
}
use graphpost.Cache.Memory.{Item, MemoryCache, remove_item, is_expired, cleanup_loop, cleanup}
use graphpost.Cache.Memory.Invariant.{IsValid, remove_item-IsValid}

-- The loop of `cleanup` removes items that are in the map, whatever it has removed before.
Present : GoMap Item → MemoryCache → Type 0
Present [] c = Unit
Present ((key, item) ∷ rest) c =
    (count key (keys rest) ≡ 0) × (lookup key c.items ≡ some item) × Present rest c

Present-remove_item :
    (rest : GoMap Item) (key : String) (item : Item) (c : MemoryCache)
    → count key (keys rest) ≡ 0
    → Present rest c
    → Present rest (remove_item key item c)
unfolding Present remove_item count
Present-remove_item [] key item c h p = tt
Present-remove_item ((j, other) ∷ rest) key item c h p = (
  p.0,
  ground (arith, lookup-delete key j c.items, eq_iff j key, eq_iff key j, p.1),
  Present-remove_item rest key item c (ground arith) p.2,
)

cleanup_loop-IsValid :
    (now : ℕ) (rest : GoMap Item) (c : MemoryCache)
    → Present rest c
    → IsValid c
    → IsValid (cleanup_loop now rest c)
unfolding cleanup_loop Present
cleanup_loop-IsValid now [] c p v = v
cleanup_loop-IsValid now ((key, item) ∷ rest) c p v = elim (Bool-cases (is_expired now item)) [
  | inl old ↦ rw old (
      cleanup_loop-IsValid now rest (remove_item key item c)
        (Present-remove_item rest key item c p.0 p.2) (remove_item-IsValid key item p.1 v))
  | inr live ↦ rw live (cleanup_loop-IsValid now rest c p.2 v)
]

-- A list of entries with distinct keys is present in a map that looks its keys up as it does.
Present-of :
    (rest : GoMap Item) (c : MemoryCache)
    → ((k : String) → count k (keys rest) ≤ 1)
    → ((k : String) (item : Item) → lookup k rest ≡ some item → lookup k c.items ≡ some item)
    → Present rest c
unfolding Present lookup count
Present-of [] c d h = tt
Present-of ((key, item) ∷ rest) c d h = (
  ground (arith, d key, eq_refl key),
  h key item (rw (eq_refl key)),
  Present-of rest c (λ k. ground (arith, d k))
      (λ k other e.
        h k other (ground (arith, eq_iff key k, d key, eq_refl key, count-some k rest other e))),
)

Present-items : (c : MemoryCache) → IsValid c → Present c.items c
Present-items c v = Present-of c.items c v.distinct (λ k item e. e)

pub cleanup-IsValid : (now : ℕ) (c : MemoryCache) → IsValid c → IsValid (cleanup now c)
unfolding cleanup
cleanup-IsValid now c v = cleanup_loop-IsValid now c.items c (Present-items c v) v

-- What has not expired.
abbrev pub live : ℕ → Option Item → Option Item
live now none = none
live now (some item) = if is_expired now item then none else some item

cleanup_loop_step :
    (now : ℕ) (key : String) (item : Item) (rest : GoMap Item) (c : MemoryCache) {b : Bool}
    → is_expired now item ≡ b
    → cleanup_loop now ((key, item) ∷ rest) c
      ≡ cleanup_loop now rest (if b then remove_item key item c else c)
unfolding cleanup_loop
cleanup_loop_step now key item rest c e =
    ap (λ b. cleanup_loop now rest (if b then remove_item key item c else c)) e

removed_case :
    (now : ℕ) (key : String) (item : Item) (rest : GoMap Item) (c : MemoryCache) (k : String)
    → is_expired now item ≡ true
    → count key (keys rest) ≡ 0
    → lookup key c.items ≡ some item
    → (if eqb (count k (keys rest)) 0
        then lookup k (remove_item key item c).items
        else live now (lookup k (remove_item key item c).items))
      ≡ (if eqb (count k (key ∷ keys rest)) 0
          then lookup k c.items
          else live now (lookup k c.items))
unfolding count remove_item
removed_case now key item rest c k old new found =
    ground (arith, eq_iff key k, lookup-delete key k c.items)

lookup-cleanup_loop :
    (now : ℕ) (rest : GoMap Item) (c : MemoryCache) (k : String)
    → Present rest c
    → lookup k (cleanup_loop now rest c).items
      ≡ (if eqb (count k (keys rest)) 0 then lookup k c.items else live now (lookup k c.items))
unfolding Present count
lookup-cleanup_loop now [] c k p = unfold cleanup_loop in refl
lookup-cleanup_loop now ((key, item) ∷ rest) c k p = elim (Bool-cases (is_expired now item)) [
  | inl old ↦ rw (cleanup_loop_step now key item rest c old) (
      lookup-cleanup_loop now rest (remove_item key item c) k
        (Present-remove_item rest key item c p.0 p.2)
      ∙ removed_case now key item rest c k old p.0 p.1)
  | inr fresh ↦
      rw (cleanup_loop_step now key item rest c fresh)
        (lookup-cleanup_loop now rest c k p.2 ∙ ground (arith, eq_iff key k, p.0, p.1))
]

-- `cleanup` removes exactly the items that have expired.
pub lookup-cleanup :
    (now : ℕ) (c : MemoryCache) (k : String)
    → IsValid c
    → lookup k (cleanup now c).items ≡ live now (lookup k c.items)
unfolding cleanup
lookup-cleanup now c k v =
    lookup-cleanup_loop now c.items c k (Present-items c v)
    ∙ ground (arith, count-none k c.items, lookup-none_of_count k c.items)
