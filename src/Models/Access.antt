-- ===== src/Models/Access.antt =====
-- libs/models/access_control.py.
use autonomous_iq.Prelude.{ℕ, Option, Bool, true, false}

pub data GrantResourceType : Type 0 where
  dataset workspace document tracker processing is_approver : GrantResourceType

abbrev pub type_eq : GrantResourceType → GrantResourceType → Bool
type_eq dataset dataset = true
type_eq workspace workspace = true
type_eq document document = true
type_eq tracker tracker = true
type_eq processing processing = true
type_eq is_approver is_approver = true
type_eq _ _ = false

pub data GrantedVia : Type 0 where
  team user : GrantedVia

abbrev pub via_user : GrantedVia → Bool
via_user user = true
via_user team = false

pub record AccessGrant : Type 0 where
  pub user_id : ℕ
  pub resource_type : GrantResourceType
  pub resource_id : ℕ
  pub granted_via : GrantedVia
  pub granted_by : Option ℕ
  pub team_id : Option ℕ

pub data AccessLevel : Type 0 where
  view comment edit resource_admin : AccessLevel

pub record ResourceWorkspaceAccess : Type 0 where
  pub resource_type : GrantResourceType
  pub resource_id : ℕ
  pub workspace_id : ℕ
  pub access_level : AccessLevel
  pub granted_by : Option ℕ
