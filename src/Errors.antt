-- ===== src/Errors.antt =====
-- libs/exceptions.py, the error envelope of apps/api/main.py, and what a request answers: a result
-- with the new database, or an error. A request that raises before its commit changes nothing.
use autonomous_iq.Prelude.{ℕ, ◌≡◌, refl, Bool, true, false, String}

pub data DomainError : Type 0 where
  access_denied authentication_failed approval_required connector_auth_failed : DomainError
  tenant_isolation_violation recalc_error not_found internal_error : DomainError

-- The code of each subclass of AutonomousIQError.
unfoldable pub code : DomainError → String
code internal_error = "INTERNAL_ERROR"
code access_denied = "ACCESS_DENIED"
code authentication_failed = "AUTHENTICATION_FAILED"
code approval_required = "APPROVAL_REQUIRED"
code connector_auth_failed = "CONNECTOR_AUTH_FAILED"
code tenant_isolation_violation = "TENANT_ISOLATION_VIOLATION"
code recalc_error = "RECALC_ERROR"
code not_found = "NOT_FOUND"

-- Errors that no handler of the program makes: a constraint of the database, a failing assertion
-- or a transport error, which reach the client as a plain 500; and a body that FastAPI refuses, with
-- status 422.
pub data Failure : Type 0 where
  domain : DomainError → Failure
  integrity_error server_error invalid_request : Failure

-- The status code of domain_error_handler.
unfoldable pub status_code : DomainError → ℕ
status_code access_denied = 403
status_code authentication_failed = 401
status_code approval_required = 409
status_code connector_auth_failed = 502
status_code tenant_isolation_violation = 403
status_code recalc_error = 422
status_code not_found = 404
status_code internal_error = 400

pub data Response {ℓ} (A : Type ℓ) : Type ℓ where
  ok : A → Response A
  err : Failure → Response A

infixl 5 ◌>>=◌ ◌>>◌
abbrev pub ◌>>=◌ {ℓ κ} : {A : Type ℓ} {B : Type κ} → Response A → (A → Response B) → Response B
ok a >>= f = f a
err e >>= f = err e

abbrev pub ◌>>◌ {ℓ} : {B : Type ℓ} → Response (Unit {0}) → Response B → Response B
m >> k = m >>= λ _. k

abbrev pub require : Bool → DomainError → Response (Unit {0})
require true e = ok tt
require false e = err (domain e)

-- What a chain that answers has passed.
pub >>=-ok {ℓ κ} :
    {A : Type ℓ} {B : Type κ} (m : Response A) (f : A → Response B) {b : B}
    → (m >>= f) ≡ ok b
    → (a : A) × (m ≡ ok a) × (f a ≡ ok b)
>>=-ok (ok a) f h = (a, refl, h)
>>=-ok (err e) f h = cc

pub require-ok {ℓ} :
    {B : Type ℓ} (test : Bool) (e : DomainError) (m : Response B) {b : B}
    → (require test e >> m) ≡ ok b
    → (test ≡ true) × (m ≡ ok b)
require-ok true e m h = (refl, h)
require-ok false e m h = cc
