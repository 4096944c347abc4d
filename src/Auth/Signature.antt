-- ===== src/Auth/Signature.antt =====
-- `verifySignature` of internal/auth/auth.go and its three methods.
pub mod Algorithms
pub mod JwksKeys
use graphpost.Prelude.{
  ℕ, zero, suc, ◌+◌, ◌*◌, ◌/◌, ◌%◌, String, List, [], ◌∷◌, Option, none, some, Bool, true, false,
  not, ◌==◌, eqb, if◌then◌else◌, length,
}
use graphpost.Auth.Config.{JwtConfig, AuthConfig}
use graphpost.Auth.Outcome.{
  AuthError, Outcome, ok, fails, panics, guard, no_secret, no_key, invalid_signature,
  invalid_signature_length, unsupported_algorithm,
}
use graphpost.Auth.Keys.{
  Hash, sha256, sha384, sha512, RsaKey, EcKey, PublicKey, rsa, ec, Library, Keys, big_endian,
}
use graphpost.Auth.Jwks.{JwksCache, Response, get_jwks_key}

-- What a request sees of the world: the clock, in nanoseconds, and the answer of the JWKS server.
pub record Env : Type 0 where
  pub now : ℕ
  pub jwks_response : Response

-- `hmac.Equal`
unfoldable pub same_bytes : List ℕ → List ℕ → Bool
same_bytes [] [] = true
same_bytes (a ∷ xs) (b ∷ ys) = let rest = same_bytes xs ys in if eqb a b then rest else false
same_bytes _ _ = false

-- `signature[:n]` and `signature[n:]`
abbrev pub split_at : ℕ → List ℕ → List ℕ × List ℕ
split_at zero xs = ([], xs)
split_at (suc n) [] = ([], [])
split_at (suc n) (x ∷ xs) = let (front, back) = split_at n xs in (x ∷ front, back)

-- `keySize`, from the bits of the curve
unfoldable pub key_size : ℕ → ℕ
key_size bits = let size = bits / 8 in if eqb (size % 8) 0 then size else size + 1

-- The result of a check, and the JWKS cache after it.
abbrev pub Checked : Type 0
Checked = Outcome (Unit {0}) × JwksCache

module _ (lib : Library) (cfg : AuthConfig) (keys : Keys) (env : Env) where
  unfoldable pub verify_hmac : String → List ℕ → Hash → Outcome (Unit {0})
  unfolding same_bytes
  verify_hmac input signature hash = elim keys.hmac_secret [
    | [] ↦ fails no_secret
    | b ∷ bs ↦ guard (same_bytes signature (lib.hmac hash (b ∷ bs) input)) invalid_signature
  ]

  -- The key of the JWKS, if the token names one and a URL is configured.
  unfoldable pub looked_up : String → JwksCache → Option PublicKey × JwksCache
  looked_up kid cache =
      let url : String = elim cfg.jwt [ none ↦ "" | some jwt ↦ jwt.jwk_url ] in
      if kid == ""
      then (none, cache)
      else if url == ""
      then (none, cache)
      else (let (key, _, cache') = get_jwks_key lib env.now env.jwks_response kid cache in
          (key, cache'))

  -- A key of the wrong kind is no key, and the configured one stays.
  unfoldable pub rsa_key_for : Option PublicKey → Option RsaKey
  rsa_key_for (some (rsa key)) = some key
  rsa_key_for _ = keys.rsa_key

  unfoldable pub ec_key_for : Option PublicKey → Option EcKey
  ec_key_for (some (ec key)) = some key
  ec_key_for _ = keys.ec_key

  unfoldable pub check_rsa : Option RsaKey → String → List ℕ → Hash → Outcome (Unit {0})
  check_rsa none input signature hash = fails no_key
  check_rsa (some key) input signature hash =
      guard (lib.verify_pkcs1 key hash input signature) invalid_signature

  unfoldable pub verify_rsa : String → List ℕ → Hash → String → JwksCache → Checked
  verify_rsa input signature hash kid cache =
      let (key, cache') = looked_up kid cache in
      (check_rsa (rsa_key_for key) input signature hash, cache')

  check_halves : EcKey → ℕ → String → List ℕ → Hash → Outcome (Unit {0})
  check_halves key size input signature hash =
      if eqb (length signature) (2 * size)
      then (let (r, s) = split_at size signature in
          guard (lib.verify_ecdsa key hash input (big_endian r) (big_endian s)) invalid_signature)
      else fails invalid_signature_length

  -- `pubKey.Params()` of a nil curve is a nil dereference.
  unfoldable pub check_ecdsa : Option EcKey → String → List ℕ → Hash → Outcome (Unit {0})
  unfolding check_halves key_size
  check_ecdsa none input signature hash = fails no_key
  check_ecdsa (some key) input signature hash = elim key.curve [
    | none ↦ panics
    | some bits ↦ check_halves key (key_size bits) input signature hash
  ]

  unfoldable pub verify_ecdsa : String → List ℕ → Hash → String → JwksCache → Checked
  verify_ecdsa input signature hash kid cache =
      let (key, cache') = looked_up kid cache in
      (check_ecdsa (ec_key_for key) input signature hash, cache')

  unfoldable pub verify_signature : String → String → List ℕ → String → JwksCache → Checked
  verify_signature alg input signature kid cache =
      if alg == "HS256"
      then (verify_hmac input signature sha256, cache)
      else if alg == "HS384"
      then (verify_hmac input signature sha384, cache)
      else if alg == "HS512"
      then (verify_hmac input signature sha512, cache)
      else if alg == "RS256"
      then verify_rsa input signature sha256 kid cache
      else if alg == "RS384"
      then verify_rsa input signature sha384 kid cache
      else if alg == "RS512"
      then verify_rsa input signature sha512 kid cache
      else if alg == "ES256"
      then verify_ecdsa input signature sha256 kid cache
      else if alg == "ES384"
      then verify_ecdsa input signature sha384 kid cache
      else if alg == "ES512"
      then verify_ecdsa input signature sha512 kid cache
      else (fails unsupported_algorithm, cache)
