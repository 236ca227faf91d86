-- ===== src/Models/Tenancy.antt =====
-- libs/models/tenant.py and libs/models/platform.py.
use autonomous_iq.Prelude.{ℕ, String, Option, Bool, true, false}

pub data TenantRole : Type 0 where
  admin developer viewer : TenantRole

abbrev pub is_admin : TenantRole → Bool
is_admin admin = true
is_admin _ = false

pub record Tenant : Type 0 where
  pub id : ℕ
  pub name : String

pub record Team : Type 0 where
  pub id : ℕ
  pub tenant_id : ℕ
  pub name : String
  pub archived : Bool

pub record User : Type 0 where
  pub id : ℕ
  pub tenant_id : ℕ
  pub email : String
  pub role : TenantRole
  pub password_hash : Option String

pub record TeamMembership : Type 0 where
  pub user_id : ℕ
  pub team_id : ℕ

pub data OAuthProvider : Type 0 where
  google facebook linkedin : OAuthProvider

pub record OAuthIdentity : Type 0 where
  pub user_id : ℕ
  pub provider : OAuthProvider
  pub provider_user_id : String

pub record PlatformUser : Type 0 where
  pub id : ℕ
  pub email : String
  pub password_hash : String
  pub is_super_admin : Bool
  pub active : Bool
