-- ===== src/Auth/Request/Admission.antt =====
-- Who gets which session from `AuthenticateRequest` of internal/auth/auth.go.
use graphpost.Prelude.{
  String, none, some, Bool, true, false, not, ◌==◌, if◌then◌else◌, ◌≡◌, ◌≢◌, ◌↔◌, ap, ◌∙◌, arith,
  eq_iff,
}
use graphpost.Auth.Config.{AuthConfig, Session}
use graphpost.Auth.Outcome.{Outcome, ok}
use graphpost.Auth.Claims.Roles.{build_session_from_payload-is_admin}
use graphpost.Auth.Keys.{Library, Keys}
use graphpost.Auth.Jwks.{JwksCache}
use graphpost.Auth.Signature.{Env}
use graphpost.Auth.Jwt.{validate_jwt}
use graphpost.Auth.Jwt.Soundness.{validate_jwt-Accepts}
use graphpost.Auth.Request.{
  Request, Answer, unreachable, answered, extract_token, authenticate_via_webhook, is_admin_secret,
  without_token, authenticate_request,
}

-- The request holds the configured secret, which is not empty.
abbrev pub HoldsSecret : AuthConfig → Request → Type 0
HoldsSecret cfg r = (cfg.admin_secret ≢ "") × (r.header "X-Admin-Secret" ≡ cfg.admin_secret)

is_admin_secret_iff :
    (cfg : AuthConfig) (r : Request) → (is_admin_secret cfg r ≡ true) ↔ HoldsSecret cfg r
unfolding is_admin_secret
is_admin_secret_iff cfg r =
    let header = r.header "X-Admin-Secret" in
    (
      λ h. (
        ground (arith, h, eq_iff header "", eq_iff header cfg.admin_secret),
        ground (arith, h, eq_iff header "", eq_iff header cfg.admin_secret),
      ),
      λ h. ground (arith, h, eq_iff header "", eq_iff header cfg.admin_secret),
    )

is_admin-webhook :
    (answer : Answer) (s : Session) → authenticate_via_webhook answer ≡ ok s → s.is_admin ≡ false
unfolding authenticate_via_webhook
is_admin-webhook unreachable s h = cc
is_admin-webhook (answered status none) s h = cc
is_admin-webhook (answered status (some body)) s h = ground arith

admin_if :
    (b : Bool) (x y : Outcome Session × JwksCache) (s : Session)
    → ((t : Session) → x.0 ≡ ok t → t.is_admin ≡ true)
    → ((t : Session) → y.0 ≡ ok t → t.is_admin ≡ false)
    → (if b then x else y).0 ≡ ok s
    → s.is_admin ≡ b
admin_if true x y s f g h = f s h
admin_if false x y s f g h = g s h

plain_if :
    (b : Bool) (x y : Outcome Session × JwksCache) (s : Session)
    → ((t : Session) → x.0 ≡ ok t → t.is_admin ≡ false)
    → ((t : Session) → y.0 ≡ ok t → t.is_admin ≡ false)
    → (if b then x else y).0 ≡ ok s
    → s.is_admin ≡ false
plain_if true x y s f g h = f s h
plain_if false x y s f g h = g s h

module _ (lib : Library) (cfg : AuthConfig) (keys : Keys) (env : Env) (answer : Answer) where
  is_admin-token :
      (text : String) (cache : JwksCache) (s : Session)
      → (validate_jwt lib cfg keys env text cache).0 ≡ ok s
      → s.is_admin ≡ false
  is_admin-token text cache s h =
      let a = validate_jwt-Accepts lib cfg keys env text cache s h in
      ap (λ (t : Session). t.is_admin) a.built
      ∙ build_session_from_payload-is_admin cfg a.token.payload

  is_admin-without_token :
      (s : Session) → without_token lib cfg keys env answer ≡ ok s → s.is_admin ≡ false
  unfolding without_token
  is_admin-without_token s h = ground (arith, is_admin-webhook answer s)

  pub is_admin_secret-session :
      (r : Request) (cache : JwksCache) (s : Session)
      → (authenticate_request lib cfg keys env answer r cache).0 ≡ ok s
      → s.is_admin ≡ is_admin_secret cfg r
  unfolding authenticate_request
  is_admin_secret-session r cache s h =
      admin_if (is_admin_secret cfg r) _ _ s (λ t e. cc)
        (λ t.
          plain_if (not (extract_token cfg r == "")) _ _ t
            (is_admin-token (extract_token cfg r) cache) is_admin-without_token)
        h

  -- An admin session is given to exactly the holder of the configured admin secret, which must not
  -- be empty: no token, no webhook answer and no anonymous request gives one.
  pub authenticate_request-is_admin :
      (r : Request) (cache : JwksCache) (session : Session)
      → (authenticate_request lib cfg keys env answer r cache).0 ≡ ok session
      → (session.is_admin ≡ true) ↔ HoldsSecret cfg r
  authenticate_request-is_admin r cache session h =
      rw (is_admin_secret-session r cache session h) (is_admin_secret_iff cfg r)
