-- ===== src/Api/Startup.antt =====
-- The startup hook of apps/api/main.py, which makes the first user of the platform. The hash of a
-- password and `.strip().lower()` are arguments, and so are the variables PLATFORM_ADMIN_EMAIL and
-- PLATFORM_ADMIN_PASSWORD, which are empty if they are not set.
use autonomous_iq.Prelude.{
  ℕ, ◌≡◌, refl, String, Bool, true, false, not, ◌&&◌, List, [], ◌∷◌, ◌++◌, Option, none, some, find,
  str_eq, str_eq_iff, if◌then◌else◌, Bool-cases, inl, inr,
}
use autonomous_iq.Errors.{ok, ◌>>=◌}
use autonomous_iq.Models.Tenancy.{PlatformUser}
use autonomous_iq.Models.Database.{Database}
use autonomous_iq.Api.Deps.{platform_claims}
use autonomous_iq.Api.Auth.{login, valid_email}

abbrev pub has_platform_email : String → PlatformUser → Bool
has_platform_email email p = str_eq p.email email

abbrev pub first_admin : ℕ → String → String → PlatformUser
first_admin new_id email password_hash = record {
  id = new_id;
  email = email;
  password_hash = password_hash;
  is_super_admin = true;
  active = true;
}

module _ (normal : String → String) (hash_password : String → String) where
  unfoldable pub on_startup : ℕ → String → String → Database → Database
  on_startup new_id admin_email admin_password db =
      let email = normal admin_email in
      if not (str_eq email "") && not (str_eq admin_password "")
      then elim (find (has_platform_email email) db.platform_users) [
        | some existing ↦ db
        | none ↦ record db {
          platform_users =
              db.platform_users ++ first_admin new_id email (hash_password admin_password) ∷ [];
        }
      ]
      else db

  find_last :
      (email : String) (users : List PlatformUser) (p : PlatformUser)
      → find (has_platform_email email) users ≡ none
      → has_platform_email email p ≡ true
      → find (has_platform_email email) (users ++ p ∷ []) ≡ some p
  find_last email [] p h k = rw k refl
  find_last email (u ∷ users) p h k = elim (Bool-cases (str_eq u.email email)) [
    | inl e ↦ absurd (let clash = (rw e at h) in cc)
    | inr e ↦ rw e (find_last email users p (rw e at h) k)
  ]

  -- If both variables are set, no user of the platform has the email, and the email as it is stored
  -- is one that the validation of a request accepts unchanged, then after the startup a login with it
  -- and the password is answered with the claims of the new administrator of the platform.
  pub on_startup-login :
      (email_str : String → Option String) (verify_password : String → String → Bool)
      (new_id now : ℕ) (admin_email admin_password : String) (db : Database)
      → str_eq (normal admin_email) "" ≡ false
      → str_eq admin_password "" ≡ false
      → find (has_platform_email (normal admin_email)) db.platform_users ≡ none
      → verify_password admin_password (hash_password admin_password) ≡ true
      → email_str (normal admin_email) ≡ some (normal admin_email)
      → login email_str verify_password now
          (normal admin_email)
          admin_password
          (on_startup new_id admin_email admin_password db)
        ≡ ok (platform_claims now new_id)
  unfolding on_startup login
  on_startup-login email_str verify_password new_id now admin_email admin_password db given secret
        absent checks valid =
      let email = normal admin_email in
      let self : str_eq email email ≡ true = (str_eq_iff email email).1 refl in
      let made = first_admin new_id email (hash_password admin_password) in
      let there = find_last email db.platform_users made absent self in
      rw (given, secret, absent, on_startup, login, valid_email, valid, ◌>>=◌, there, checks) refl
