-- ===== src/Cache/Redis/Tags.antt =====
-- SetWithTags and InvalidateTag of internal/cache/redis.go, with what Redis documents of its commands.
use graphpost.Prelude.{ℕ, ◌≤◌, String, List, [], ◌∷◌, true, some, ◌≡◌, ◌≢◌, ◌⊎◌}
use graphpost.Prelude.Int.{pos, negsuc}
use graphpost.Prelude.Text.{ElementOf}
use graphpost.Cache.Redis.{Command, set_value, add_member, expire, RedisClient}

-- A command adds the key to the set.
abbrev pub Adds : String → String → List Command → Type 0
Adds set key [] = ⊥
Adds set key (add_member s k ∷ cs) = ((s ≡ set) × (k ≡ key)) ⊎ Adds set key cs
Adds set key (set_value k v t ∷ cs) = Adds set key cs
Adds set key (expire s t ∷ cs) = Adds set key cs

-- No command makes a key expire at once.
abbrev pub Lasts : List Command → Type 0
Lasts [] = Unit
Lasts (expire s (pos n) ∷ cs) = (1 ≤ n) × Lasts cs
Lasts (expire s (negsuc n) ∷ cs) = ⊥
Lasts (add_member s k ∷ cs) = Lasts cs
Lasts (set_value k v t ∷ cs) = Lasts cs

abbrev pub Gone : {R : Type 0} → RedisClient R → String → R → Type 0
Gone {R} client key st = (v : List ℕ) → client.get key st ≢ some (some v)

-- What Redis documents: EXEC without an error has run each SADD, and a set keeps its members unless it
-- expires; DEL without an error leaves none of its keys, and no DEL brings a key back.
pub record RedisLaws (R : Type 0) (client : RedisClient R) : Type 0 where
  pub exec-members :
      (cs : List Command) (st : R) (set key : String) (ms : List String)
      → Lasts cs
      → Adds set key cs
      → (client.exec cs st).0 ≡ true
      → client.members set ((client.exec cs st).1) ≡ some ms
      → ElementOf key ms
  pub del-Gone :
      (keys : List String) (st : R) (key : String)
      → (client.del keys st).0 ≡ true
      → ElementOf key keys
      → Gone client key ((client.del keys st).1)
  pub del-Gone_before :
      (keys : List String) (st : R) (key : String)
      → Gone client key st
      → Gone client key ((client.del keys st).1)
