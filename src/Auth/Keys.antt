-- ===== src/Auth/Keys.antt =====
-- The keys of internal/auth/auth.go: `parseKey`, the JWKS cache and `verifySignature`. The codecs and
-- the cryptography of Go's standard library are functions of a record.
use mathlib.Core.List.{foldl}
use graphpost.Prelude.{
  ℕ, ◌+◌, ◌*◌, ◌%◌, ◌^◌, String, List, [], ◌∷◌, Option, none, some, Bool, true, ◌==◌, if◌then◌else◌,
}
use package.text.Mathlib.Text.{starts_with}
use graphpost.Json.{Fields}
use graphpost.Auth.Config.{AuthConfig}

pub data Hash : Type 0 where
  sha256 sha384 sha512 : Hash

pub record RsaKey : Type 0 where
  pub modulus : ℕ
  pub exponent : ℕ

-- The curve is the bit size of its parameters; `none` is the nil interface.
pub record EcKey : Type 0 where
  pub x : ℕ
  pub y : ℕ
  pub curve : Option ℕ

pub data PublicKey : Type 0 where
  rsa : RsaKey → PublicKey
  ec : EcKey → PublicKey

pub record Library : Type 0 where
  -- `base64.RawURLEncoding.DecodeString`, and `json.Unmarshal` into a map
  pub decode_base64 : String → Option (List ℕ)
  pub decode_object : List ℕ → Option Fields
  -- `[]byte(s)`
  pub bytes_of : String → List ℕ
  -- `pem.Decode`, `x509.ParsePKIXPublicKey` and `x509.ParsePKCS1PublicKey`
  pub decode_pem : List ℕ → Option (List ℕ)
  pub parse_pkix : List ℕ → Option PublicKey
  pub parse_pkcs1 : List ℕ → Option RsaKey
  -- `hmac.New(hash, secret)` over a text
  pub hmac : Hash → List ℕ → String → List ℕ
  -- `rsa.VerifyPKCS1v15` and `ecdsa.Verify` of the hash of a text
  pub verify_pkcs1 : RsaKey → Hash → String → List ℕ → Bool
  pub verify_ecdsa : EcKey → Hash → String → ℕ → ℕ → Bool

pub record Keys : Type 0 where
  pub hmac_secret : List ℕ
  pub rsa_key : Option RsaKey
  pub ec_key : Option EcKey

abbrev pub no_keys : Keys
no_keys = record { hmac_secret = []; rsa_key = none; ec_key = none }

module _ (lib : Library) where
  rsa_of_block : List ℕ → Option RsaKey
  rsa_of_block block = elim (lib.parse_pkix block) [
    | some (rsa key) ↦ some key
    | _ ↦ lib.parse_pkcs1 block
  ]

  ec_of_block : List ℕ → Option EcKey
  ec_of_block block = elim (lib.parse_pkix block) [ some (ec key) ↦ some key | _ ↦ none ]

  unfoldable pub parse_key : String → String → Keys
  unfolding rsa_of_block ec_of_block
  parse_key key algo =
      let pem = lib.decode_pem (lib.bytes_of key) in
      if starts_with algo "HS"
      then record no_keys { hmac_secret = lib.bytes_of key }
      else if starts_with algo "RS"
      then record no_keys { rsa_key = elim pem [ none ↦ none | some b ↦ rsa_of_block b ] }
      else if starts_with algo "ES"
      then record no_keys { ec_key = elim pem [ none ↦ none | some b ↦ ec_of_block b ] }
      else no_keys

  legacy_keys : AuthConfig → Keys
  legacy_keys cfg =
      if cfg.jwt_secret == ""
      then no_keys
      else parse_key cfg.jwt_secret (if cfg.jwt_algorithm == "" then "HS256" else cfg.jwt_algorithm)

  -- The keys of `NewAuthenticator`.
  unfoldable pub initialize_keys : AuthConfig → Keys
  unfolding legacy_keys
  initialize_keys cfg = elim cfg.jwt [
    | none ↦ legacy_keys cfg
    | some jwt ↦ if jwt.key == "" then legacy_keys cfg else parse_key jwt.key jwt.type
  ]

pub record Jwk : Type 0 where
  pub kty : String
  pub kid : String
  pub n : String
  pub e : String
  pub x : String
  pub y : String
  pub crv : String

-- `big.Int.SetBytes`
abbrev pub big_endian : List ℕ → ℕ
big_endian bytes = foldl (λ n b. n * 256 + b) 0 bytes

-- The `int` of an exponent, as a bit pattern.
abbrev pub int_of_bytes : List ℕ → ℕ
int_of_bytes bytes = foldl (λ e b. (e * 256 + b) % 2 ^ 64) 0 bytes

supported_curve : String → Bool
supported_curve crv =
    if crv == "P-256" then true else if crv == "P-384" then true else crv == "P-521"

module _ (lib : Library) where
  -- The EC key has no curve on every branch. `none` is an error.
  unfoldable pub jwk_to_public_key : Jwk → Option PublicKey
  unfolding supported_curve
  jwk_to_public_key jwk =
      if jwk.kty == "RSA"
      then (elim (lib.decode_base64 jwk.n) [
        | none ↦ none
        | some n ↦ elim (lib.decode_base64 jwk.e) [
          | none ↦ none
          | some e ↦ some (rsa (record { modulus = big_endian n; exponent = int_of_bytes e }))
        ]
      ])
      else if jwk.kty == "EC"
      then (elim (lib.decode_base64 jwk.x) [
        | none ↦ none
        | some x ↦ elim (lib.decode_base64 jwk.y) [
          | none ↦ none
          | some y ↦
              if supported_curve jwk.crv
              then some (ec (record { x = big_endian x; y = big_endian y; curve = none }))
              else none
        ]
      ])
      else none

  unfoldable pub find_key : String → List Jwk → Option PublicKey
  find_key kid [] = none
  find_key kid (key ∷ keys) =
      let rest = find_key kid keys in
      if key.kid == kid
      then jwk_to_public_key key
      else if kid == ""
      then jwk_to_public_key key
      else rest
