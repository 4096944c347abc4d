-- ===== src/Tests/RedisTests.antt =====
-- A store that acts as Redis documents, and runs of internal/cache/redis.go with it.
use graphpost.Prelude.{
  ℕ, String, List, [], ◌∷◌, Bool, true, false, some, ◌==◌, if◌then◌else◌, ◌≡◌, refl, inr,
}
use graphpost.Prelude.Int.{pos}
use graphpost.Prelude.Text.{ElementOf}
use graphpost.Maps.{GoMap, put, lookup, delete}
use graphpost.Cache.Redis.{
  Command, set_value, add_member, expire, RedisClient, RedisCache, tag_commands, redis_found,
  redis_get, set_with_tags, delete_tag, delete_members, invalidate_tag,
}

-- The values, and each set with each of its members.
abbrev Store : Type 0
Store = GoMap (List ℕ) × List (String × String)

members_of : String → List (String × String) → List String
members_of set [] = []
members_of set ((s, k) ∷ rest) = let ms = members_of set rest in if s == set then k ∷ ms else ms

run : List Command → Store → Store
run [] st = st
run (set_value k v t ∷ cs) (values, sets) = run cs (put k v values, sets)
run (add_member s k ∷ cs) (values, sets) = run cs (values, (s, k) ∷ sets)
run (expire s t ∷ cs) st = run cs st

delete_all : List String → GoMap (List ℕ) → GoMap (List ℕ)
delete_all [] values = values
delete_all (k ∷ ks) values = delete_all ks (delete k values)

abbrev client : RedisClient Store
client = record {
  get = λ k st. some (lookup k st.0);
  set = λ k v t st. (true, (put k v st.0, st.1));
  del = λ ks st. (true, (delete_all ks st.0, st.1));
  scan = λ n p st. some ([], 0);
  exec = λ cs st. (true, run cs st);
  members = λ s st. some (members_of s st.1);
}

in_front :
    (b : Bool) (key k : String) (ms : List String)
    → ElementOf key ms
    → ElementOf key (if b then k ∷ ms else ms)
in_front true key k ms h = inr h
in_front false key k ms h = h

kept :
    (set key s k : String) (sets : List (String × String))
    → ElementOf key (members_of set sets)
    → ElementOf key (members_of set ((s, k) ∷ sets))
unfolding members_of
kept set key s k sets h = in_front (s == set) key k (members_of set sets) h

abbrev fresh : RedisCache Store
fresh = record { store = ([], []); redis_hits = 0; redis_misses = 0 }

program : Unit {0}
unfolding members_of run delete_all tag_commands redis_found redis_get set_with_tags delete_tag
    delete_members invalidate_tag lookup delete
program = tt

abbrev tagged : RedisCache Store
tagged = (set_with_tags client "gql:1" (7 ∷ []) (pos 60) ("users" ∷ "orders" ∷ []) fresh).1

is_found : (redis_get client "gql:1" tagged).0 ≡ some (7 ∷ [])
unfolding program
is_found = refl
