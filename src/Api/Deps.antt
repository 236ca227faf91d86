-- ===== src/Api/Deps.antt =====
-- apps/api/deps.py and libs/auth/jwt.py: the identity of a caller. The signature of a token is
-- the work of the package `jose`: `encode` and `decode` are parameters.
use autonomous_iq.Prelude.{
  ◌*◌, ◌+◌, ℕ, Bool, true, false, ◌&&◌, Option, none, some, ◌==◌, if◌then◌else◌,
}
use autonomous_iq.Prelude.Text.{codes, Text, is_prefix, drop, strip}
use autonomous_iq.Errors.{
  Response, ok, err, domain, authentication_failed, access_denied, require, ◌>>=◌, ◌>>◌,
}

pub record CurrentUser : Type 0 where
  pub user_id : ℕ
  pub tenant_id : Option ℕ
  pub is_platform_admin : Bool

pub data IdentityType : Type 0 where
  tenant_identity platform_identity : IdentityType

abbrev pub is_platform : Option IdentityType → Bool
is_platform (some platform_identity) = true
is_platform _ = false

-- The claims of a token that the program writes and reads. An absent one is `none`.
pub record Claims : Type 0 where
  pub sub : ℕ
  pub tenant_id : Option ℕ
  pub identity_type : Option IdentityType
  pub is_platform_admin : Option Bool
  pub expires : ℕ

-- `_ACCESS_TOKEN_TTL` in seconds.
abbrev pub access_token_ttl : ℕ
access_token_ttl = 12 * 3600

abbrev pub access_claims : ℕ → ℕ → ℕ → Claims
access_claims now user tenant = record {
  sub = user;
  tenant_id = some tenant;
  identity_type = some tenant_identity;
  is_platform_admin = none;
  expires = now + access_token_ttl;
}

abbrev pub platform_claims : ℕ → ℕ → Claims
platform_claims now user = record {
  sub = user;
  tenant_id = none;
  identity_type = some platform_identity;
  is_platform_admin = some true;
  expires = now + access_token_ttl;
}

abbrev pub is_true : Option Bool → Bool
is_true (some b) = b
is_true none = false

-- Column `tenant_id` against the caller's, which is null for a platform identity. In a query a
-- comparison with null selects no row, and in Python `!=` is then true.
abbrev pub same_tenant : ℕ → Option ℕ → Bool
same_tenant tenant none = false
same_tenant tenant (some t) = tenant == t

abbrev pub bearer : Text
bearer = codes "Bearer "

module _ (encode : Claims → Text) (decode : Text → Option Claims) where
  abbrev pub create_access_token : ℕ → ℕ → ℕ → Text
  create_access_token now user tenant = encode (access_claims now user tenant)

  abbrev pub create_platform_access_token : ℕ → ℕ → Text
  create_platform_access_token now user = encode (platform_claims now user)

  unfoldable pub get_current_user : Option Text → Response CurrentUser
  get_current_user none = err (domain authentication_failed)
  get_current_user (some header) =
      if is_prefix bearer header
      then elim (decode (strip (drop 7 header))) [
        | none ↦ err (domain authentication_failed)
        | some claims ↦ ok (record {
          user_id = claims.sub;
          tenant_id = claims.tenant_id;
          is_platform_admin = is_platform claims.identity_type && is_true claims.is_platform_admin;
        })
      ]
      else err (domain authentication_failed)

  unfoldable pub require_platform_admin : Option Text → Response CurrentUser
  unfolding get_current_user
  require_platform_admin header =
      get_current_user header >>= λ user. require user.is_platform_admin access_denied >> ok user
