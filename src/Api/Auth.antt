-- ===== src/Api/Auth.antt =====
-- apps/api/auth.py: registration, login and the callback of an OAuth provider. The hash of a
-- password, its verification and the profile that a provider returns are parameters.
pub mod Callback
pub mod Providers
use autonomous_iq.Prelude.{
  ℕ, String, Bool, true, false, not, ◌&&◌, List, [], ◌∷◌, ◌++◌, Option, none, some, ◌==◌,
  if◌then◌else◌, find, str_eq,
}
use autonomous_iq.Errors.{
  Response, ok, err, domain, server_error, integrity_error, invalid_request, authentication_failed,
  require, ◌>>=◌, ◌>>◌,
}
use autonomous_iq.Models.Tenancy.{
  viewer, User, PlatformUser, OAuthProvider, google, facebook, linkedin, OAuthIdentity,
}
use autonomous_iq.Models.Database.{Database, get_by}
use autonomous_iq.Models.Schema.{tenant_exists, email_taken, insert_user}
use autonomous_iq.Api.Deps.{Claims, access_claims, platform_claims}

abbrev pub new_viewer : ℕ → ℕ → String → Option String → User
new_viewer id tenant email hash = record {
  id = id;
  tenant_id = tenant;
  email = email;
  role = viewer;
  password_hash = hash;
}

abbrev pub has_email : ℕ → String → User → Bool
has_email tenant email u = u.tenant_id == tenant && str_eq u.email email

abbrev pub provider_eq : OAuthProvider → OAuthProvider → Bool
provider_eq google google = true
provider_eq facebook facebook = true
provider_eq linkedin linkedin = true
provider_eq _ _ = false

abbrev pub is_identity : OAuthProvider → String → OAuthIdentity → Bool
is_identity provider account i =
    provider_eq i.provider provider && str_eq i.provider_user_id account

-- _SUPPORTED_PROVIDERS, and the provider that a path names.
unfoldable pub supported_provider : String → Option OAuthProvider
supported_provider name =
    if str_eq name "google"
    then some google
    else if str_eq name "facebook"
    then some facebook
    else if str_eq name "linkedin"
    then some linkedin
    else none

-- EmailStr, whose validation is the argument: it normalizes an address or refuses it.
abbrev pub valid_email : (String → Option String) → String → Response String
valid_email email_str email = elim (email_str email) [
  | none ↦ err invalid_request
  | some normalized ↦ ok normalized
]

-- The answer is the claims of the token.
module _ (email_str : String → Option String) (hash_password : String → String) where
  unfoldable pub register : ℕ → ℕ → String → String → ℕ → Database → Response (Claims × Database)
  unfolding insert_user
  register now new_id body_email password tenant db = valid_email email_str body_email >>= λ email.
      require (not (email_taken db tenant email)) authentication_failed
      >> require (tenant_exists db tenant) authentication_failed
      >> insert_user (new_viewer new_id tenant email (some (hash_password password))) db
      >>= λ db'. ok (access_claims now new_id tenant, db')

module _ (email_str : String → Option String) (verify_password : String → String → Bool) where
  -- A platform user comes before a tenant's user of the same email.
  unfoldable pub login : ℕ → String → String → Database → Response Claims
  login now body_email password db = valid_email email_str body_email >>= λ email.
      elim (find (λ (p : PlatformUser). str_eq p.email email) db.platform_users) [
        | some p ↦
            require (p.active && verify_password password p.password_hash) authentication_failed
            >> ok (platform_claims now p.id)
        | none ↦ elim (find (λ (u : User). str_eq u.email email) db.users) [
          | none ↦ err (domain authentication_failed)
          | some u ↦ elim u.password_hash [
            | none ↦ err (domain authentication_failed)
            | some hash ↦
                require (verify_password password hash) authentication_failed
                >> ok (access_claims now u.id u.tenant_id)
          ]
        ]
      ]

unfoldable pub add_viewer : User → Database → Response (User × Database)
unfolding insert_user
add_viewer u db = insert_user u db >>= λ db'. ok (u, db')

-- The user of a tenant and an email, created if there is none. A profile without an email matches
-- no row, and the column is not nullable.
unfoldable pub find_or_create : ℕ → ℕ → Option String → Database → Response (User × Database)
unfolding add_viewer
find_or_create new_id tenant none db = err integrity_error
find_or_create new_id tenant (some email) db = elim (find (has_email tenant email) db.users) [
  | some u ↦ ok (u, db)
  | none ↦ add_viewer (new_viewer new_id tenant email none) db
]

abbrev pub linked : OAuthProvider → String → User → Database → Database
linked provider account u db = record db {
  identities =
      db.identities
      ++ record { user_id = u.id; provider = provider; provider_user_id = account } ∷ [];
}

-- The part of oauth_callback that runs in the session.
unfoldable pub sign_in :
    ℕ → OAuthProvider → String → Option String → ℕ → Database → Response (User × Database)
unfolding get_by find_or_create
sign_in new_id provider account email tenant db =
    elim (find (is_identity provider account) db.identities) [
      | some identity ↦ elim (get_by (λ (u : User). u.id) identity.user_id db.users) [
        | none ↦ err server_error
        | some u ↦ ok (u, db)
      ]
      | none ↦ find_or_create new_id tenant email db >>= λ (u, db').
          ok (u, linked provider account u db')
    ]

module _ (is_provider_configured : OAuthProvider → Bool) where
  unfoldable pub oauth_callback :
      ℕ → ℕ → String → String → Option String → ℕ → Database → Response (Claims × Database)
  unfolding supported_provider sign_in
  oauth_callback now new_id name account email tenant db = elim (supported_provider name) [
    | none ↦ err (domain authentication_failed)
    | some provider ↦
        require (is_provider_configured provider) authentication_failed
        >> sign_in new_id provider account email tenant db
        >>= λ (u, db'). ok (access_claims now u.id u.tenant_id, db')
  ]
