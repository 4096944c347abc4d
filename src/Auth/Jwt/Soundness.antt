-- ===== src/Auth/Jwt/Soundness.antt =====
-- What a token has passed when `ValidateJWT` of internal/auth/auth.go accepts it.
use graphpost.Prelude.{
  ℕ, String, List, [], ◌∷◌, Option, none, some, Bool, true, false, ◌==◌, if◌then◌else◌, ◌≡◌, refl,
  arith, ◌⊎◌, inl, inr, Bool-cases, eq_iff,
}
use graphpost.Prelude.Int.{ℤ, pos}
use graphpost.Prelude.Text.{split}
use graphpost.Json.{Value, num, Fields, get?}
use graphpost.Auth.Config.{JwtConfig, AuthConfig, Session}
use graphpost.Auth.Outcome.{
  AuthError, Outcome, ok, fails, panics, chain-ok, guard-eq-ok, Returns, Returns-bind,
  Returns-guard, Returns-ok, invalid_header, invalid_payload, algorithm_mismatch,
}
use graphpost.Auth.Claims.{build_session_from_payload}
use graphpost.Auth.Keys.{Library, Keys}
use graphpost.Auth.Jwks.{JwksCache}
use graphpost.Auth.Signature.{Env, verify_signature}
use graphpost.Auth.Jwt.{
  Token, get_expected_algorithm, is_expired, is_early, check_time, check_times, check_issuer,
  check_audience, check_claims, check_claims_of, text_claim, validate_audience, algorithm_allowed,
  read_parts, decode_part, algorithm, skips_verification, check_signature, validate_token,
  validate_parsed, validate_jwt,
}

-- A claim is no number, or a number that a test does not find bad.
abbrev pub TimeClaim : (ℤ → Bool) → Option Value → Type 0
TimeClaim bad (some (num t)) = bad t ≡ false
TimeClaim bad _ = Unit

-- A token is neither expired nor early at the time, by what numbers it has for `exp` and `nbf`.
pub record InTime (skew : ℤ) (now : ℕ) (payload : Fields) : Type 0 where
  pub until : TimeClaim (λ t. is_expired t skew now) (get? "exp" payload)
  pub since : TimeClaim (λ t. is_early t skew now) (get? "nbf" payload)

-- The checks of the detailed configuration; a text that is not set is not checked.
pub record Admits (jwt : JwtConfig) (now : ℕ) (payload : Fields) : Type 0 where
  pub in_time : (jwt.skip_expiration_check ≡ true) ⊎ InTime jwt.allowed_skew now payload
  pub issuer : (jwt.issuer ≡ "") ⊎ (text_claim "iss" payload ≡ jwt.issuer)
  pub audience : (jwt.audience ≡ "") ⊎ (validate_audience payload jwt.audience ≡ true)

abbrev pub AdmitsClaims : Option JwtConfig → ℕ → Fields → Type 0
AdmitsClaims none now payload = InTime (pos 0) now payload
AdmitsClaims (some jwt) now payload = Admits jwt now payload

check_time-eq-ok :
    (v : Option Value) (bad : ℤ → Bool) (e : AuthError)
    → check_time v bad e ≡ ok tt
    → TimeClaim bad v
unfolding check_time
check_time-eq-ok (some (num u)) bad e h = ground arith
check_time-eq-ok v bad e h = tt

check_times-InTime :
    (skew : ℤ) (now : ℕ) (payload : Fields)
    → check_times skew now payload ≡ ok tt
    → InTime skew now payload
unfolding check_times
check_times-InTime skew now payload h =
    let (u, first, rest) = chain-ok _ (check_time (get? "exp" payload) _ _) h in
    record { until = check_time-eq-ok _ _ _ first; since = check_time-eq-ok _ _ _ rest }

check_issuer-eq-ok :
    (issuer : String) (payload : Fields)
    → check_issuer issuer payload ≡ ok tt
    → (issuer ≡ "") ⊎ (text_claim "iss" payload ≡ issuer)
unfolding check_issuer
check_issuer-eq-ok issuer payload h = elim (Bool-cases (issuer == "")) [
  | inl unset ↦ inl ((eq_iff issuer "").0 unset)
  | inr isset ↦ inr ((eq_iff (text_claim "iss" payload) issuer).0 (guard-eq-ok _ _ (rw isset at h)))
]

check_audience-eq-ok :
    (audience : String) (payload : Fields)
    → check_audience audience payload ≡ ok tt
    → (audience ≡ "") ⊎ (validate_audience payload audience ≡ true)
unfolding check_audience
check_audience-eq-ok audience payload h = elim (Bool-cases (audience == "")) [
  | inl unset ↦ inl ((eq_iff audience "").0 unset)
  | inr isset ↦ inr (guard-eq-ok _ _ (rw isset at h))
]

skipped_or :
    (skip : Bool) (skew : ℤ) (now : ℕ) (payload : Fields)
    → (if skip then ok tt else check_times skew now payload) ≡ ok tt
    → (skip ≡ true) ⊎ InTime skew now payload
skipped_or true skew now payload h = inl refl
skipped_or false skew now payload h = inr (check_times-InTime skew now payload h)

check_claims_of-Admits :
    (jwt : Option JwtConfig) (now : ℕ) (payload : Fields)
    → check_claims_of jwt now payload ≡ ok tt
    → AdmitsClaims jwt now payload
unfolding check_claims_of
check_claims_of-Admits none now payload h = check_times-InTime (pos 0) now payload h
check_claims_of-Admits (some jwt) now payload h =
    let (u, times, rest) = chain-ok _ _ h in
    let (w, issuer, audience) = chain-ok _ (check_issuer jwt.issuer payload) rest in
    record {
      in_time = skipped_or jwt.skip_expiration_check jwt.allowed_skew now payload times;
      issuer = check_issuer-eq-ok jwt.issuer payload issuer;
      audience = check_audience-eq-ok jwt.audience payload audience;
    }

check_claims-Admits :
    (cfg : AuthConfig) (now : ℕ) (payload : Fields)
    → check_claims cfg now payload ≡ ok tt
    → AdmitsClaims cfg.jwt now payload
unfolding check_claims
check_claims-Admits cfg now payload h = check_claims_of-Admits cfg.jwt now payload h

-- The token has the expected algorithm, if there is one.
abbrev pub HasExpected : AuthConfig → Token → Type 0
HasExpected cfg token = (get_expected_algorithm cfg ≡ "") ⊎ (token.alg ≡ get_expected_algorithm cfg)

algorithm_allowed-true :
    (expected alg : String)
    → algorithm_allowed expected alg ≡ true
    → (expected ≡ "") ⊎ (alg ≡ expected)
unfolding algorithm_allowed
algorithm_allowed-true expected alg h = ground (arith, eq_iff expected "", eq_iff alg expected)

-- What holds of an accepted token: its parts decode to it, its algorithm is the expected one if
-- there is one, its signature is verified unless the configuration skips that, its claims are
-- admitted, and the session is that of its payload.
pub record Accepts (lib : Library) (cfg : AuthConfig) (keys : Keys) (env : Env) (text : String)
    (cache : JwksCache) (session : Session) : Type 0 where
  pub token : Token
  pub parsed : read_parts lib cfg (split b'.' text) ≡ ok token
  pub expected : HasExpected cfg token
  pub signed :
      (skips_verification cfg ≡ true)
      ⊎ ((signature : List ℕ) × (lib.decode_base64 token.signature_part ≡ some signature)
          × ((verify_signature lib cfg keys env token.alg token.sign_input signature token.kid
                cache).0
              ≡ ok tt))
  pub admitted : AdmitsClaims cfg.jwt env.now token.payload
  pub built : session ≡ build_session_from_payload cfg token.payload

module _ (lib : Library) (cfg : AuthConfig) where
  read_parts-Returns : (parts : List String) → Returns (HasExpected cfg) (read_parts lib cfg parts)
  unfolding read_parts
  read_parts-Returns [] = tt
  read_parts-Returns (a ∷ []) = tt
  read_parts-Returns (a ∷ b ∷ []) = tt
  read_parts-Returns (a ∷ b ∷ c ∷ d ∷ rest) = tt
  read_parts-Returns (head ∷ body ∷ sig ∷ []) =
      Returns-bind (HasExpected cfg) (decode_part lib head invalid_header) _ (λ header.
        Returns-bind (HasExpected cfg) (algorithm (get? "alg" header)) _ (λ alg.
          Returns-guard (HasExpected cfg) _ algorithm_mismatch _ (λ allowed.
            Returns-bind (HasExpected cfg) (decode_part lib body invalid_payload) _
              (λ payload. algorithm_allowed-true (get_expected_algorithm cfg) alg allowed))))

  module _ (keys : Keys) (env : Env) where
    check_signature-eq-ok :
        (token : Token) (cache : JwksCache)
        → (check_signature lib cfg keys env token cache).0 ≡ ok tt
        → (skips_verification cfg ≡ true)
          ⊎ ((signature : List ℕ) × (lib.decode_base64 token.signature_part ≡ some signature)
              × ((verify_signature lib cfg keys env token.alg token.sign_input signature token.kid
                    cache).0
                  ≡ ok tt))
    unfolding check_signature
    check_signature-eq-ok token cache h = ground arith

    validated :
        (token : Token) (cache : JwksCache) (session : Session)
        → (validate_token lib cfg keys env token cache).0 ≡ ok session
        → ((check_signature lib cfg keys env token cache).0 ≡ ok tt)
          × (check_claims cfg env.now token.payload ≡ ok tt)
          × (session ≡ build_session_from_payload cfg token.payload)
    unfolding validate_token
    validated token cache session h =
        let (u, verdict, rest) = chain-ok _ (check_signature lib cfg keys env token cache).0 h in
        let (w, claims, built) = chain-ok _ (check_claims cfg env.now token.payload) rest in
        (verdict, claims, cc)

    parsed_token :
        (r : Outcome Token) (cache : JwksCache) (session : Session)
        → (validate_parsed lib cfg keys env r cache).0 ≡ ok session
        → (token : Token) × (r ≡ ok token)
          × ((validate_token lib cfg keys env token cache).0 ≡ ok session)
    unfolding validate_parsed
    parsed_token (ok token) cache session h = (token, refl, h)
    parsed_token (fails e) cache session h = cc
    parsed_token panics cache session h = cc

    -- `ValidateJWT` accepts a text only as a token of which all this holds.
    pub validate_jwt-Accepts :
        (text : String) (cache : JwksCache) (session : Session)
        → (validate_jwt lib cfg keys env text cache).0 ≡ ok session
        → Accepts lib cfg keys env text cache session
    unfolding validate_jwt
    validate_jwt-Accepts text cache session h =
        let (token, parsed, valid) =
          parsed_token (read_parts lib cfg (split b'.' text)) cache session h in
        let (verdict, claims, built) = validated token cache session valid in
        record {
          token = token;
          parsed = parsed;
          expected = Returns-ok (HasExpected cfg) _ (read_parts-Returns (split b'.' text)) parsed;
          signed = check_signature-eq-ok token cache verdict;
          admitted = check_claims-Admits cfg env.now token.payload claims;
          built = built;
        }
