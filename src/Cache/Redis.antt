-- ===== src/Cache/Redis.antt =====
-- `RedisCache` of internal/cache/redis.go over the interface `RedisClient` of the server that it calls.
-- The hit rate and the connection itself are not modelled.
pub mod Tags
use Prim.Native.String
use graphpost.Prelude.{
  ℕ, zero, suc, ◌+◌, ◌-◌, String, List, [], ◌∷◌, ◌++◌, Bool, true, false, Option, none, some, eqb,
  leb, if◌then◌else◌,
}
use graphpost.Prelude.Int.{ℤ, pos, negsuc, wrap64}
use graphpost.Cache.Memory.{add64}

-- A command of a pipeline.
pub data Command : Type 0 where
  set_value : String → List ℕ → ℤ → Command
  add_member : String → String → Command
  expire : String → ℤ → Command

-- The Boolean says whether there is no error. `get` gives `some none` for a key that is not there, and
-- `scan` one page of the keys that fit a pattern, with the next cursor.
pub record RedisClient (R : Type 0) : Type 0 where
  pub get : String → R → Option (Option (List ℕ))
  pub set : String → List ℕ → ℤ → R → Bool × R
  pub del : List String → R → Bool × R
  pub scan : ℕ → String → R → Option (List String × ℕ)
  pub exec : List Command → R → Bool × R
  pub members : String → R → Option (List String)

pub record RedisCache (R : Type 0) : Type 0 where
  pub store : R
  pub redis_hits : ℕ
  pub redis_misses : ℕ

-- `ttl + time.Hour`, in an int64.
unfoldable pub add_hour : ℤ → ℤ
unfolding wrap64
add_hour (pos n) = wrap64 (n + 3600000000000)
add_hour (negsuc n) =
    if leb (suc n) 3600000000000 then pos (3600000000000 - suc n) else negsuc (n - 3600000000000)

abbrev pub tag_key : String → String
tag_key tag = String.◌++◌ "tag:" tag

unfoldable pub tag_commands : String → ℤ → List String → List Command
unfolding add_hour
tag_commands key ttl [] = []
tag_commands key ttl (tag ∷ tags) =
    add_member (tag_key tag) key ∷ expire (tag_key tag) (add_hour ttl) ∷ tag_commands key ttl tags

module _ {R : Type 0} (client : RedisClient R) where
  unfoldable pub redis_found :
      RedisCache R → Option (Option (List ℕ)) → Option (List ℕ) × RedisCache R
  redis_found c (some (some v)) = (some v, record c { redis_hits = add64 c.redis_hits 1 })
  redis_found c _ = (none, record c { redis_misses = add64 c.redis_misses 1 })

  unfoldable pub redis_get : String → RedisCache R → Option (List ℕ) × RedisCache R
  unfolding redis_found
  redis_get key c = redis_found c (client.get key c.store)

  -- A call that changes the store.
  abbrev pub on_store : (R → Bool × R) → RedisCache R → Bool × RedisCache R
  on_store call c = let (done, after) = call c.store in (done, record c { store = after })

  unfoldable pub redis_set : String → List ℕ → ℤ → RedisCache R → Bool × RedisCache R
  redis_set key v ttl = on_store (client.set key v ttl)

  unfoldable pub redis_delete : String → RedisCache R → Bool × RedisCache R
  redis_delete key = on_store (client.del (key ∷ []))

  -- No keys are no call.
  abbrev pub del_found : List String → R → Bool × R
  del_found [] st = (true, st)
  del_found (key ∷ keys) st = client.del (key ∷ keys) st

  -- The loop over the pages of a scan, which ends at the cursor 0: none if the rounds that it is given
  -- are too few, since nothing bounds the pages that a server gives.
  unfoldable pub delete_matching : ℕ → String → ℕ → R → Option (Bool × R)
  delete_matching zero pattern cursor st = none
  delete_matching (suc fuel) pattern cursor st = elim (client.scan cursor pattern st) [
    | none ↦ some (false, st)
    | some page ↦
        let result = del_found page.0 st in
        let rest = delete_matching fuel pattern page.1 result.1 in
        elim result.0 [
          | false ↦ some (false, result.1)
          | true ↦ if eqb page.1 0 then some (true, result.1) else rest
        ]
  ]

  unfoldable pub invalidate_pattern : ℕ → String → R → Option (Bool × R)
  unfolding delete_matching
  invalidate_pattern fuel pattern st = delete_matching fuel pattern 0 st

  unfoldable pub redis_clear : ℕ → R → Option (Bool × R)
  unfolding delete_matching
  redis_clear fuel st = elim (delete_matching fuel "gql:*" 0 st) [
    | none ↦ none
    | some (false, after) ↦ some (false, after)
    | some (true, after) ↦ delete_matching fuel "schema:*" 0 after
  ]

  unfoldable pub set_with_tags :
      String → List ℕ → ℤ → List String → RedisCache R → Bool × RedisCache R
  unfolding tag_commands
  set_with_tags key v ttl tags =
      on_store (client.exec (set_value key v ttl ∷ tag_commands key ttl tags))

  -- The members of the tag go first, then its set.
  unfoldable pub delete_tag : String → Bool × R → Bool × R
  delete_tag tag (false, after) = (false, after)
  delete_tag tag (true, after) = client.del (tag_key tag ∷ []) after

  unfoldable pub delete_members : String → R → Option (List String) → Bool × R
  unfolding delete_tag
  delete_members tag st none = (false, st)
  delete_members tag st (some keys) = delete_tag tag (del_found keys st)

  unfoldable pub invalidate_tag : String → RedisCache R → Bool × RedisCache R
  unfolding delete_members
  invalidate_tag tag = on_store (λ st. delete_members tag st (client.members (tag_key tag) st))
