-- ===== src/Errors.antt =====
-- src/errors.rs: the application error, and the results that carry it.
pub mod Io
use integration_home_assista.Prelude.{String, ◌≡◌, refl, Bool, true, false, ◌⊎◌, inl, inr}

-- `ServiceError`
pub data ServiceError : Type 0 where
  internal_server_error serialization_error bad_request not_found : String → ServiceError
  not_connected : ServiceError
  service_unavailable : String → ServiceError
  not_yet_implemented : ServiceError

-- `Result<A, ServiceError>`
pub data Result {ℓ} (A : Type ℓ) : Type ℓ where
  ok : A → Result A
  err : ServiceError → Result A

abbrev pub is_ok {ℓ} : {A : Type ℓ} → Result A → Bool
is_ok (ok _) = true
is_ok (err _) = false

-- The operator `?`.
infixl 5 ◌>>=◌
abbrev pub ◌>>=◌ {ℓ κ} : {A : Type ℓ} {B : Type κ} → Result A → (A → Result B) → Result B
r >>= next = elim r [ err e ↦ err e | ok value ↦ next value ]

-- To split on a computed result and keep the equation.
pub Result-cases {ℓ} :
    {A : Type ℓ} (r : Result A) → ((a : A) × (r ≡ ok a)) ⊎ ((e : ServiceError) × (r ≡ err e))
Result-cases (ok a) = inl (a, refl)
Result-cases (err e) = inr (e, refl)

-- What a chain that succeeds has passed.
pub bind-ok {ℓ} :
    {A B : Type ℓ} {last : B} (first : Result A) (next : A → Result B)
    → (first >>= next) ≡ ok last
    → (value : A) × (first ≡ ok value) × (next value ≡ ok last)
bind-ok (err problem) next passed = cc
bind-ok (ok value) next passed = (value, refl, passed)

pub ok-injective {ℓ} : {A : Type ℓ} {a b : A} → ok a ≡ ok b → a ≡ b
ok-injective e = cc
