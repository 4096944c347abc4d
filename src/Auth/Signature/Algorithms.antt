-- ===== src/Auth/Signature/Algorithms.antt =====
-- Which algorithms `verifySignature` of internal/auth/auth.go accepts, and with which keys.
use graphpost.Prelude.{
  ℕ, String, List, [], ◌∷◌, none, Bool, true, false, ◌==◌, if◌then◌else◌, ◌≡◌, ◌≢◌, refl, ap, arith,
  eq_iff,
}
use graphpost.Auth.Config.{AuthConfig}
use graphpost.Auth.Outcome.{no_key, ok, fails}
use graphpost.Auth.Keys.{Hash, sha256, sha384, sha512, Library, Keys, initialize_keys, parse_key}
use graphpost.Auth.Jwks.{JwksCache}
use graphpost.Auth.Signature.{
  Env, Checked, same_bytes, verify_hmac, looked_up, rsa_key_for, ec_key_for, check_rsa, check_ecdsa,
  verify_rsa, verify_ecdsa, verify_signature,
}

same_bytes-eq : (xs ys : List ℕ) → same_bytes xs ys ≡ true → xs ≡ ys
unfolding same_bytes
same_bytes-eq [] [] h = refl
same_bytes-eq (a ∷ xs) (b ∷ ys) h = ground (arith, same_bytes-eq xs ys)
same_bytes-eq [] (b ∷ ys) h = cc
same_bytes-eq (a ∷ xs) [] h = cc

module _ (lib : Library) (cfg : AuthConfig) (keys : Keys) (env : Env) where
  verify_hmac-eq-ok :
      (input : String) (signature : List ℕ) (hash : Hash)
      → verify_hmac lib cfg keys env input signature hash ≡ ok tt
      → (keys.hmac_secret ≢ []) × (signature ≡ lib.hmac hash keys.hmac_secret input)
  unfolding verify_hmac
  verify_hmac-eq-ok input signature hash h =
      ground (arith, same_bytes-eq signature (lib.hmac hash keys.hmac_secret input))

ne-test : (s t : String) → s ≢ t → (s == t) ≡ false
ne-test s t h = ground (arith, eq_iff s t)

-- The authenticator of a configuration with a secret and no more: its tokens are checked by HMAC.
abbrev pub HasSecretOnly : AuthConfig → Type 0
HasSecretOnly cfg = (cfg.jwt ≡ none) × (cfg.jwt_algorithm ≡ "") × (cfg.jwt_secret ≢ "")

abbrev secret_only : Library → AuthConfig → Keys
secret_only lib cfg = record {
  hmac_secret = lib.bytes_of cfg.jwt_secret;
  rsa_key = none;
  ec_key = none;
}

-- If the check passes, the signature is the HMAC.
abbrev IsHmac : Library → AuthConfig → String → List ℕ → Checked → Type 0
IsHmac lib cfg input signature c =
    c.0 ≡ ok tt → (hash : Hash) × (signature ≡ lib.hmac hash (lib.bytes_of cfg.jwt_secret) input)

IsHmac-if :
    (lib : Library) (cfg : AuthConfig) (input : String) (signature : List ℕ) (b : Bool)
    (x y : Checked)
    → IsHmac lib cfg input signature x
    → IsHmac lib cfg input signature y
    → IsHmac lib cfg input signature (if b then x else y)
IsHmac-if lib cfg input signature true x y h k = h
IsHmac-if lib cfg input signature false x y h k = k

module _ (lib : Library) (cfg : AuthConfig) (env : Env) (only : HasSecretOnly cfg) where
  secret_keys : initialize_keys lib cfg ≡ secret_only lib cfg
  unfolding initialize_keys parse_key
  secret_keys =
      let secret_test = ne-test cfg.jwt_secret "" only.2 in
      let alg_test = (eq_iff cfg.jwt_algorithm "").1 only.1 in
      rw (only.0, initialize_keys) (rw secret_test (rw alg_test))

  no_lookup :
      (keys : Keys) (kid : String) (cache : JwksCache)
      → (looked_up lib cfg keys env kid cache).0 ≡ none
  unfolding looked_up
  no_lookup keys kid cache = rw (only.0, looked_up) (ground arith)

  rsa_refused :
      (input : String) (signature : List ℕ) (hash : Hash) (kid : String) (cache : JwksCache)
      → (verify_rsa lib cfg (initialize_keys lib cfg) env input signature hash kid cache).0
        ≡ fails no_key
  unfolding verify_rsa check_rsa rsa_key_for
  rsa_refused input signature hash kid cache = rw secret_keys (
      ap
        (λ k.
          check_rsa lib cfg (secret_only lib cfg) env
            (rsa_key_for lib cfg (secret_only lib cfg) env k) input signature hash)
        (no_lookup (secret_only lib cfg) kid cache))

  ecdsa_refused :
      (input : String) (signature : List ℕ) (hash : Hash) (kid : String) (cache : JwksCache)
      → (verify_ecdsa lib cfg (initialize_keys lib cfg) env input signature hash kid cache).0
        ≡ fails no_key
  unfolding verify_ecdsa check_ecdsa ec_key_for
  ecdsa_refused input signature hash kid cache = rw secret_keys (
      ap
        (λ k.
          check_ecdsa lib cfg (secret_only lib cfg) env
            (ec_key_for lib cfg (secret_only lib cfg) env k) input signature hash)
        (no_lookup (secret_only lib cfg) kid cache))

  IsHmac-passes :
      (input : String) (signature : List ℕ) (hash : Hash) (cache : JwksCache)
      → IsHmac lib cfg input signature
          (verify_hmac lib cfg (initialize_keys lib cfg) env input signature hash, cache)
  IsHmac-passes input signature hash cache h = (
    hash,
    (verify_hmac-eq-ok lib cfg (secret_only lib cfg) env input signature hash
        (rw secret_keys at h)).1,
  )

  rsa_passes :
      (input : String) (signature : List ℕ) (hash : Hash) (kid : String) (cache : JwksCache)
      → IsHmac lib cfg input signature
          (verify_rsa lib cfg (initialize_keys lib cfg) env input signature hash kid cache)
  rsa_passes input signature hash kid cache h = cc (rsa_refused input signature hash kid cache)

  ecdsa_passes :
      (input : String) (signature : List ℕ) (hash : Hash) (kid : String) (cache : JwksCache)
      → IsHmac lib cfg input signature
          (verify_ecdsa lib cfg (initialize_keys lib cfg) env input signature hash kid cache)
  ecdsa_passes input signature hash kid cache h = cc (ecdsa_refused input signature hash kid cache)

  -- With a secret and no more, whatever algorithm a token names, its signature passes only if it is
  -- the HMAC of the token under the secret, by SHA-256, SHA-384 or SHA-512. The RSA and ECDSA
  -- algorithms and every other name are refused.
  pub verify_signature-hmac :
      (alg input : String) (signature : List ℕ) (kid : String) (cache : JwksCache)
      → (verify_signature lib cfg (initialize_keys lib cfg) env alg input signature kid cache).0
        ≡ ok tt
      → (hash : Hash) × (signature ≡ lib.hmac hash (lib.bytes_of cfg.jwt_secret) input)
  unfolding verify_signature
  verify_signature-hmac alg input signature kid cache =
      IsHmac-if lib cfg input signature (alg == "HS256") _ _
        (IsHmac-passes input signature sha256 cache)
        (IsHmac-if lib cfg input signature (alg == "HS384") _ _
          (IsHmac-passes input signature sha384 cache)
          (IsHmac-if lib cfg input signature (alg == "HS512") _ _
            (IsHmac-passes input signature sha512 cache)
            (IsHmac-if lib cfg input signature (alg == "RS256") _ _
              (rsa_passes input signature sha256 kid cache)
              (IsHmac-if lib cfg input signature (alg == "RS384") _ _
                (rsa_passes input signature sha384 kid cache)
                (IsHmac-if lib cfg input signature (alg == "RS512") _ _
                  (rsa_passes input signature sha512 kid cache)
                  (IsHmac-if lib cfg input signature (alg == "ES256") _ _
                    (ecdsa_passes input signature sha256 kid cache)
                    (IsHmac-if lib cfg input signature (alg == "ES384") _ _
                      (ecdsa_passes input signature sha384 kid cache)
                      (IsHmac-if lib cfg input signature (alg == "ES512") _ _
                        (ecdsa_passes input signature sha512 kid cache) (λ h. cc)))))))))
