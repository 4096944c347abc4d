-- ===== src/Auth/Jwks.antt =====
-- The JWKS cache of internal/auth/auth.go: `getJWKSKey` and `findKeyInJWKS`. A call is its check
-- under the read lock and, if that misses, its step under the write lock; other calls run between.
use graphpost.Prelude.{
  ℕ, ◌+◌, ◌<◌, String, List, Option, none, some, Bool, true, false, ltb, if◌then◌else◌, ◌≡◌, refl,
  arith, ◌⊎◌,
}
use graphpost.Auth.Keys.{Library, Jwk, PublicKey, find_key}

-- `jwksCache` and `jwksCacheExp`
pub record JwksCache : Type 0 where
  pub keys : Option (List Jwk)
  pub expires_at : ℕ

-- Five minutes, in nanoseconds.
abbrev pub jwks_ttl : ℕ
jwks_ttl = 300000000000

-- The cache is filled and has not expired.
unfoldable pub fresh_keys : ℕ → JwksCache → Option (List Jwk)
fresh_keys now cache = elim cache.keys [
  | none ↦ none
  | some keys ↦ if ltb now cache.expires_at then some keys else none
]

-- Filling the cache with what the server sent.
abbrev pub filled : ℕ → List Jwk → JwksCache
filled now keys = record { keys = some keys; expires_at = now + jwks_ttl }

-- What `http.Client.Get` and the decoder return for the URL; `none` is an error of either.
abbrev pub Response : Type 0
Response = Option (List Jwk)

fresh-filled :
    (now later : ℕ) (keys : List Jwk)
    → later < now + jwks_ttl
    → fresh_keys later (filled now keys) ≡ some keys
unfolding fresh_keys
fresh-filled now later keys h = ground arith

module _ (lib : Library) where
  -- The part under the write lock. The flag says whether the server was asked. `none` for the key
  -- is an error.
  unfoldable pub fetch_key : ℕ → Response → String → JwksCache → Option PublicKey × Bool × JwksCache
  fetch_key now response kid cache = elim (fresh_keys now cache) [
    | some keys ↦ (find_key lib kid keys, false, cache)
    | none ↦ elim response [
      | none ↦ (none, true, cache)
      | some keys ↦ (find_key lib kid keys, true, filled now keys)
    ]
  ]

  -- A whole call with no other call between its two parts, at one reading of the clock.
  unfoldable pub get_jwks_key :
      ℕ → Response → String → JwksCache → Option PublicKey × Bool × JwksCache
  get_jwks_key now response kid cache = elim (fresh_keys now cache) [
    | some keys ↦ (find_key lib kid keys, false, cache)
    | none ↦ fetch_key now response kid cache
  ]

  fetched :
      (now : ℕ) (keys : List Jwk) (kid : String) (cache : JwksCache)
      → fresh_keys now cache ≡ none
      → fetch_key now (some keys) kid cache ≡ (find_key lib kid keys, true, filled now keys)
  unfolding fetch_key
  fetched now keys kid cache miss = rw (miss, fetch_key)

  served :
      (now : ℕ) (response : Response) (kid : String) (cache : JwksCache) (keys : List Jwk)
      → fresh_keys now cache ≡ some keys
      → fetch_key now response kid cache ≡ (find_key lib kid keys, false, cache)
  unfolding fetch_key
  served now response kid cache keys hit = rw (hit, fetch_key)

  -- Two calls that miss at the same time ask the server once, if the first answer is good: the
  -- second finds what the first has filled in, at any time before that expires.
  pub fetch_key_once :
      (now later : ℕ) (keys : List Jwk) (response : Response) (kid kid' : String)
      (cache : JwksCache)
      → fresh_keys now cache ≡ none
      → later < now + jwks_ttl
      → ((fetch_key now (some keys) kid cache).1 ≡ true)
        × (fetch_key later response kid' (fetch_key now (some keys) kid cache).2
            ≡ (find_key lib kid' keys, false, (fetch_key now (some keys) kid cache).2))
  fetch_key_once now later keys response kid kid' cache miss early =
      rw (fetched now keys kid cache miss) (
        refl,
        served later response kid' (filled now keys) keys (fresh-filled now later keys early),
      )

  -- An error of the server leaves the cache as it was, and a cache that is fresh is never replaced.
  pub fetch_key_keeps :
      (now : ℕ) (response : Response) (kid : String) (cache : JwksCache)
      → (response ≡ none) ⊎ ((keys : List Jwk) × (fresh_keys now cache ≡ some keys))
      → (get_jwks_key now response kid cache).2 ≡ cache
  unfolding get_jwks_key fetch_key
  fetch_key_keeps now response kid cache h = ground arith
