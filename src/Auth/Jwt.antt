-- ===== src/Auth/Jwt.antt =====
-- `ValidateJWT` of internal/auth/auth.go: the checks of a token, in the order of the source.
pub mod Soundness
use Prim.Native.String
use graphpost.Prelude.{
  ℕ, zero, suc, ◌+◌, ◌*◌, String, List, [], ◌∷◌, Option, none, some, Bool, true, false, not, ◌==◌,
  ltb, if◌then◌else◌,
}
use graphpost.Prelude.Int.{ℤ, pos, negsuc, pos_part, neg_part, negate, duration_of_seconds}
use graphpost.Prelude.Text.{split}
use graphpost.Json.{Value, null, bool, num, str, arr, obj, Items, nil, cons, Fields, get?}
use graphpost.Auth.Config.{JwtConfig, AuthConfig, Session}
use graphpost.Auth.Outcome.{
  AuthError, Outcome, ok, fails, panics, guard, ◌>>=◌, ◌>>◌, invalid_format, invalid_header,
  missing_algorithm, algorithm_mismatch, invalid_payload, invalid_signature_part, expired,
  not_yet_valid, invalid_issuer, invalid_audience,
}
use graphpost.Auth.Claims.{build_session_from_payload, or_text}
use graphpost.Auth.Keys.{Library, Keys}
use graphpost.Auth.Jwks.{JwksCache}
use graphpost.Auth.Signature.{Env, Checked, verify_signature}

abbrev second : ℕ
second = 1000000000

-- `getExpectedAlgorithm`
unfoldable pub get_expected_algorithm : AuthConfig → String
get_expected_algorithm cfg = elim cfg.jwt [
  | none ↦ cfg.jwt_algorithm
  | some jwt ↦ or_text jwt.type cfg.jwt_algorithm
]

-- The loop over an array of audiences.
has_text : Items → String → Bool
has_text nil expected = false
has_text (cons (str s) rest) expected = if s == expected then true else has_text rest expected
has_text (cons v rest) expected = has_text rest expected

audience_matches : Value → String → Bool
audience_matches (str s) expected = s == expected
audience_matches (arr items) expected = has_text items expected
audience_matches v expected = false

unfoldable pub validate_audience : Fields → String → Bool
unfolding has_text audience_matches
validate_audience payload expected = elim (get? "aud" payload) [
  | none ↦ false
  | some v ↦ audience_matches v expected
]

-- `time.Unix(int64(exp), 0)` and the duration of the skew, which may wrap, are before the time `now` in
-- nanoseconds. The claims are dates within the range of `time.Time`.
unfoldable pub is_expired : ℤ → ℤ → ℕ → Bool
unfolding duration_of_seconds
is_expired exp skew now =
    let d = duration_of_seconds skew in
    ltb (pos_part exp * second + pos_part d) (now + neg_part exp * second + neg_part d)

-- `time.Unix(int64(nbf), 0)` and the duration of the negated skew are after the time `now`.
unfoldable pub is_early : ℤ → ℤ → ℕ → Bool
unfolding duration_of_seconds
is_early nbf skew now =
    let d = duration_of_seconds (negate skew) in
    ltb (now + neg_part nbf * second + neg_part d) (pos_part nbf * second + pos_part d)

-- A claim that is no number is not checked.
check_time : Option Value → (ℤ → Bool) → AuthError → Outcome (Unit {0})
check_time (some (num t)) bad e = guard (not (bad t)) e
check_time _ bad e = guard true e

unfoldable pub check_times : ℤ → ℕ → Fields → Outcome (Unit {0})
unfolding check_time
check_times skew now payload = do
  check_time (get? "exp" payload) (λ exp. is_expired exp skew now) expired
  check_time (get? "nbf" payload) (λ nbf. is_early nbf skew now) not_yet_valid

abbrev pub text_claim : String → Fields → String
text_claim key payload = elim (get? key payload) [ some (str s) ↦ s | _ ↦ "" ]

unfoldable pub check_issuer : String → Fields → Outcome (Unit {0})
check_issuer issuer payload =
    if issuer == "" then ok tt else guard (text_claim "iss" payload == issuer) invalid_issuer

unfoldable pub check_audience : String → Fields → Outcome (Unit {0})
check_audience audience payload =
    if audience == "" then ok tt else guard (validate_audience payload audience) invalid_audience

check_claims_of : Option JwtConfig → ℕ → Fields → Outcome (Unit {0})
check_claims_of none now payload = check_times (pos 0) now payload
check_claims_of (some jwt) now payload = do
  if jwt.skip_expiration_check then ok tt else check_times jwt.allowed_skew now payload
  check_issuer jwt.issuer payload
  check_audience jwt.audience payload

-- The checks of the claims that follow the signature.
unfoldable pub check_claims : AuthConfig → ℕ → Fields → Outcome (Unit {0})
unfolding check_claims_of
check_claims cfg now payload = check_claims_of cfg.jwt now payload

-- What is read of a token before its signature is checked.
pub record Token : Type 0 where
  pub alg : String
  pub kid : String
  pub payload : Fields
  pub sign_input : String
  pub signature_part : String

or_fail {ℓ} : {A : Type ℓ} → Option A → AuthError → Outcome A
or_fail none e = fails e
or_fail (some a) e = ok a

algorithm : Option Value → Outcome String
algorithm (some (str alg)) = ok alg
algorithm _ = fails missing_algorithm

-- No expected algorithm admits every one.
unfoldable pub algorithm_allowed : String → String → Bool
algorithm_allowed expected alg = if expected == "" then true else alg == expected

unfoldable pub skips_verification : AuthConfig → Bool
skips_verification cfg = elim cfg.jwt [ none ↦ false | some jwt ↦ jwt.skip_verification ]

module _ (lib : Library) where
  decode_part : String → AuthError → Outcome Fields
  unfolding or_fail
  decode_part part e = do
    bytes ← or_fail (lib.decode_base64 part) e
    or_fail (lib.decode_object bytes) e

  unfoldable pub read_parts : AuthConfig → List String → Outcome Token
  unfolding decode_part algorithm
  read_parts cfg (head ∷ body ∷ sig ∷ []) = do
    header ← decode_part head invalid_header
    alg ← algorithm (get? "alg" header)
    guard (algorithm_allowed (get_expected_algorithm cfg) alg) algorithm_mismatch
    payload ← decode_part body invalid_payload
    ok (record {
      alg = alg;
      kid = text_claim "kid" header;
      payload = payload;
      sign_input = String.◌++◌ head (String.◌++◌ "." body);
      signature_part = sig;
    })
  read_parts cfg _ = fails invalid_format

  module _ (cfg : AuthConfig) (keys : Keys) (env : Env) where
    unfoldable pub check_signature : Token → JwksCache → Checked
    check_signature token cache =
        if skips_verification cfg
        then (ok tt, cache)
        else elim (lib.decode_base64 token.signature_part) [
          | none ↦ (fails invalid_signature_part, cache)
          | some signature ↦
              verify_signature lib cfg keys env token.alg token.sign_input signature token.kid cache
        ]

    unfoldable pub validate_token : Token → JwksCache → Outcome Session × JwksCache
    validate_token token cache =
        let (verdict, cache') = check_signature token cache in
        (
          do
            verdict
            check_claims cfg env.now token.payload
            ok (build_session_from_payload cfg token.payload),
          cache',
        )

    validate_parsed : Outcome Token → JwksCache → Outcome Session × JwksCache
    validate_parsed (ok token) cache = validate_token token cache
    validate_parsed (fails e) cache = (fails e, cache)
    validate_parsed panics cache = (panics, cache)

    unfoldable pub validate_jwt : String → JwksCache → Outcome Session × JwksCache
    unfolding validate_parsed
    validate_jwt text cache = validate_parsed (read_parts cfg (split b'.' text)) cache
