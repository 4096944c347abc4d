-- ===== src/Auth/Config.antt =====
-- The configuration that internal/auth/auth.go reads (`AuthConfig` and `JWTConfig` of
-- internal/config/config.go) and the session that it builds.
use graphpost.Prelude.{String, List, Bool, Option}
use graphpost.Prelude.Int.{ℤ}
use graphpost.Json.{Value, Fields}

pub record ClaimMapping : Type 0 where
  pub path : String
  -- `nil` is `null`
  pub default : Value

pub record JwtHeader : Type 0 where
  pub type : String
  pub name : String

pub record JwtConfig : Type 0 where
  pub type : String
  pub key : String
  pub jwk_url : String
  pub claims_namespace : String
  -- a map: its entries in the order of one iteration
  pub claims_map : List (String × ClaimMapping)
  pub issuer : String
  pub audience : String
  -- in seconds
  pub allowed_skew : ℤ
  pub header : Option JwtHeader
  pub skip_verification : Bool
  pub skip_expiration_check : Bool

pub record AuthConfig : Type 0 where
  pub enabled : Bool
  pub admin_secret : String
  pub jwt_secret : String
  pub jwt_algorithm : String
  pub jwt_claims_namespace : String
  pub unauthorized_role : String
  pub allowed_roles : List String
  pub default_role : String
  pub webhook_url : String
  pub jwt : Option JwtConfig

-- `expires_at` in seconds; `none` is the zero time.
pub record Session : Type 0 where
  pub user_id : String
  pub role : String
  pub allowed_roles : List String
  pub is_admin : Bool
  pub claims : Fields
  pub expires_at : Option ℤ
