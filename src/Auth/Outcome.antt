-- ===== src/Auth/Outcome.antt =====
-- The results of internal/auth/auth.go: a value, an error, or a panic.
use graphpost.Prelude.{Bool, true, false, ◌≡◌, refl}

-- The errors, one for each place that makes one.
pub data AuthError : Type 0 where
  invalid_format invalid_header missing_algorithm algorithm_mismatch : AuthError
  invalid_payload invalid_signature_part unsupported_algorithm no_secret no_key : AuthError
  invalid_signature invalid_signature_length : AuthError
  expired not_yet_valid invalid_issuer invalid_audience : AuthError
  webhook_failed authentication_required : AuthError

pub data Outcome {ℓ} (A : Type ℓ) : Type ℓ where
  ok : A → Outcome A
  fails : AuthError → Outcome A
  panics : Outcome A

infixl 5 ◌>>=◌ ◌>>◌
abbrev pub ◌>>=◌ {ℓ κ} : {A : Type ℓ} {B : Type κ} → Outcome A → (A → Outcome B) → Outcome B
ok a >>= f = f a
fails e >>= f = fails e
panics >>= f = panics

abbrev pub ◌>>◌ {ℓ} : {B : Type ℓ} → Outcome (Unit {0}) → Outcome B → Outcome B
m >> k = m >>= λ _. k

-- Returns the error unless the test holds.
abbrev pub guard : Bool → AuthError → Outcome (Unit {0})
guard true e = ok tt
guard false e = fails e

-- A chain that succeeds has succeeded in its first action, and goes on with its value.
pub chain-ok {ℓ κ} :
    {A : Type ℓ} {B : Type κ} {last : B} (next : A → Outcome B) (first : Outcome A)
    → (first >>= next) ≡ ok last
    → (x : A) × (first ≡ ok x) × (next x ≡ ok last)
chain-ok next panics h = cc
chain-ok next (fails e) h = cc
chain-ok next (ok x) h = (x, refl, h)

pub guard-eq-ok : (b : Bool) (e : AuthError) {u : Unit {0}} → guard b e ≡ ok u → b ≡ true
guard-eq-ok true e h = refl
guard-eq-ok false e h = cc

-- Whatever is returned without an error or a panic satisfies the predicate.
abbrev pub Returns {ℓ κ} : {A : Type ℓ} → (A → Type κ) → Outcome A → Type κ
Returns P (ok a) = P a
Returns P (fails e) = Unit
Returns P panics = Unit

module _ {ℓ κ} {A : Type ℓ} {B : Type κ} (P : B → Type 0) where
  pub Returns-bind :
      (m : Outcome A) (f : A → Outcome B) → ((a : A) → Returns P (f a)) → Returns P (m >>= f)
  Returns-bind (ok a) f h = h a
  Returns-bind (fails e) f h = tt
  Returns-bind panics f h = tt

pub Returns-guard {ℓ} :
    {B : Type ℓ} (P : B → Type 0) (b : Bool) (e : AuthError) (m : Outcome B)
    → (b ≡ true → Returns P m)
    → Returns P (guard b e >> m)
Returns-guard P true e m h = h refl
Returns-guard P false e m h = tt

pub Returns-ok {ℓ} :
    {A : Type ℓ} (P : A → Type 0) (m : Outcome A) {a : A} → Returns P m → m ≡ ok a → P a
Returns-ok P m h e = rw e at h
