-- ===== src/Auth/Signature/JwksKeys.antt =====
-- The keys that internal/auth/auth.go takes from a JWKS.
use graphpost.Prelude.{
  ℕ, String, List, [], ◌∷◌, Option, none, some, Bool, true, false, ◌==◌, if◌then◌else◌, ◌≡◌, refl,
  ap, ◌∙◌, arith, Option-cases, inl, inr,
}
use graphpost.Auth.Config.{AuthConfig}
use graphpost.Auth.Outcome.{panics}
use graphpost.Auth.Keys.{
  Hash, EcKey, PublicKey, rsa, ec, Library, Keys, Jwk, jwk_to_public_key, find_key,
}
use graphpost.Auth.Jwks.{JwksCache, Response, fresh_keys, fetch_key, get_jwks_key}
use graphpost.Auth.Signature.{Env, looked_up, ec_key_for, check_ecdsa, verify_ecdsa}

-- A key, if there is one, is no EC key with a curve.
abbrev pub NoCurve : Option PublicKey → Type 0
NoCurve (some (ec key)) = key.curve ≡ none
NoCurve _ = Unit

NoCurve-of :
    (k : Option PublicKey) → ((key : EcKey) → k ≡ some (ec key) → key.curve ≡ none) → NoCurve k
NoCurve-of none h = tt
NoCurve-of (some (rsa key)) h = tt
NoCurve-of (some (ec key)) h = h key refl

NoCurve-if :
    (b : Bool) (k l : Option PublicKey) → NoCurve k → NoCurve l → NoCurve (if b then k else l)
NoCurve-if true k l h h' = h
NoCurve-if false k l h h' = h'

module _ (lib : Library) where
  curve-jwk_to_public_key :
      (jwk : Jwk) (key : EcKey) → jwk_to_public_key lib jwk ≡ some (ec key) → key.curve ≡ none
  unfolding jwk_to_public_key
  curve-jwk_to_public_key jwk key h = ground arith

  jwk_to_public_key-NoCurve : (jwk : Jwk) → NoCurve (jwk_to_public_key lib jwk)
  jwk_to_public_key-NoCurve jwk = NoCurve-of _ (curve-jwk_to_public_key jwk)

  find_key-NoCurve : (kid : String) (keys : List Jwk) → NoCurve (find_key lib kid keys)
  unfolding find_key
  find_key-NoCurve kid [] = tt
  find_key-NoCurve kid (key ∷ keys) =
      NoCurve-if (key.kid == kid) _ _ (jwk_to_public_key-NoCurve key)
        (NoCurve-if (kid == "") _ _ (jwk_to_public_key-NoCurve key) (find_key-NoCurve kid keys))

  response-NoCurve :
      (now : ℕ) (response : Response) (kid : String) (cache : JwksCache)
      → fresh_keys now cache ≡ none
      → NoCurve (fetch_key lib now response kid cache).0
  unfolding fetch_key
  response-NoCurve now none kid cache miss = rw (miss, fetch_key) tt
  response-NoCurve now (some keys) kid cache miss = rw (miss, fetch_key) (find_key-NoCurve kid keys)

  get_jwks_key-NoCurve :
      (now : ℕ) (response : Response) (kid : String) (cache : JwksCache)
      → NoCurve (get_jwks_key lib now response kid cache).0
  unfolding get_jwks_key
  get_jwks_key-NoCurve now response kid cache = elim (Option-cases (fresh_keys now cache)) [
    | inr (keys, hit) ↦ rw (hit, get_jwks_key) (find_key-NoCurve kid keys)
    | inl miss ↦ rw (miss, get_jwks_key) (response-NoCurve now response kid cache miss)
  ]

pair-NoCurve :
    (b : Bool) (p q : Option PublicKey × JwksCache)
    → NoCurve p.0
    → NoCurve q.0
    → NoCurve (if b then p else q).0
pair-NoCurve true p q h k = h
pair-NoCurve false p q h k = k

module _ (lib : Library) (cfg : AuthConfig) (keys : Keys) (env : Env) where
  looked_up-NoCurve :
      (kid : String) (cache : JwksCache) → NoCurve (looked_up lib cfg keys env kid cache).0
  unfolding looked_up
  looked_up-NoCurve kid cache =
      pair-NoCurve (kid == "") (none, cache) _ tt
        (pair-NoCurve _ (none, cache) _ tt
          (get_jwks_key-NoCurve lib env.now env.jwks_response kid cache))

  no_curve_panics :
      (key : EcKey) (input : String) (signature : List ℕ) (hash : Hash)
      → key.curve ≡ none
      → check_ecdsa lib cfg keys env
          (ec_key_for lib cfg keys env (some (ec key)))
          input
          signature
          hash
        ≡ panics
  unfolding check_ecdsa ec_key_for
  no_curve_panics key input signature hash e = rw e

  -- An ES256, ES384 or ES512 token whose key comes from the JWKS is never checked: the key has no
  -- curve, and to ask for the size of the curve is a nil dereference, whatever the signature.
  pub verify_ecdsa-panics :
      (input : String) (signature : List ℕ) (hash : Hash) (kid : String) (cache : JwksCache)
      (key : EcKey)
      → (looked_up lib cfg keys env kid cache).0 ≡ some (ec key)
      → (verify_ecdsa lib cfg keys env input signature hash kid cache).0 ≡ panics
  unfolding verify_ecdsa
  verify_ecdsa-panics input signature hash kid cache key h =
      let bare : key.curve ≡ none = rw h at (looked_up-NoCurve kid cache) in
      ap (λ k. check_ecdsa lib cfg keys env (ec_key_for lib cfg keys env k) input signature hash) h
      ∙ no_curve_panics key input signature hash bare
