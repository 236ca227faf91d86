-- ===== src/Access.antt =====
-- libs/access_control/resolve.py: the access of a user to a resource.
pub mod Decision
use autonomous_iq.Prelude.{
  ℕ, ◌≡◌, refl, Bool, true, false, not, ◌&&◌, ◌||◌, List, [], ◌∷◌, Option, none, some, ◌==◌, ltb,
  leb, if◌then◌else◌, filter, any,
}
use autonomous_iq.Models.Tenancy.{TeamMembership}
use autonomous_iq.Models.Access.{
  GrantResourceType, workspace, is_approver as approver_type, type_eq, GrantedVia, via_user,
  AccessGrant, AccessLevel, view, comment, edit, resource_admin, ResourceWorkspaceAccess,
}
use autonomous_iq.Models.Database.{Database}

-- _LEVEL_RANK
abbrev pub level_rank : AccessLevel → ℕ
level_rank view = 0
level_rank comment = 1
level_rank edit = 2
level_rank resource_admin = 3

abbrev pub member : ℕ → List ℕ → Bool
member x ids = any (λ y. y == x) ids

-- _user_team_ids
unfoldable pub user_team_ids : List TeamMembership → ℕ → List ℕ
user_team_ids [] user_id = []
user_team_ids (m ∷ ms) user_id =
    let rest = user_team_ids ms user_id in if m.user_id == user_id then m.team_id ∷ rest else rest

-- AccessGrant.team_id.in_(team_ids): false for a null.
abbrev pub in_teams : List ℕ → Option ℕ → Bool
in_teams team_ids none = false
in_teams team_ids (some t) = member t team_ids

-- The `or_` of the two ways to hold a grant.
abbrev pub holds : ℕ → List ℕ → AccessGrant → Bool
holds user_id team_ids grant =
    via_user grant.granted_via && grant.user_id == user_id
    || not (via_user grant.granted_via) && in_teams team_ids grant.team_id

abbrev pub grants_workspace : ℕ → List ℕ → ℕ → AccessGrant → Bool
grants_workspace user_id team_ids workspace_id grant =
    type_eq grant.resource_type workspace
    && (grant.resource_id == workspace_id && holds user_id team_ids grant)

abbrev pub binds : GrantResourceType → ℕ → ResourceWorkspaceAccess → Bool
binds resource_type resource_id binding =
    type_eq binding.resource_type resource_type && binding.resource_id == resource_id

-- `if best is None or rank[level] > rank[best]: best = level`
abbrev pub better : Option AccessLevel → AccessLevel → Option AccessLevel
better none level = some level
better (some best) level =
    if ltb (level_rank best) (level_rank level) then some level else some best

-- The loop over the bindings of the resource.
unfoldable pub best_level :
    List AccessGrant
    → ℕ
    → List ℕ
    → Option AccessLevel
    → List ResourceWorkspaceAccess
    → Option AccessLevel
best_level grants user_id team_ids best [] = best
best_level grants user_id team_ids best (b ∷ bs) =
    best_level grants user_id team_ids
      (if any (grants_workspace user_id team_ids b.workspace_id) grants
        then better best b.access_level
        else best)
      bs

unfoldable pub effective_access : Database → ℕ → GrantResourceType → ℕ → Option AccessLevel
unfolding best_level user_team_ids
effective_access db user_id resource_type resource_id =
    best_level db.grants user_id (user_team_ids db.memberships user_id) none
      (filter (binds resource_type resource_id) db.bindings)

abbrev pub at_least : AccessLevel → Option AccessLevel → Bool
at_least required none = false
at_least required (some level) = leb (level_rank required) (level_rank level)

unfoldable pub has_access : Database → ℕ → GrantResourceType → ℕ → AccessLevel → Bool
unfolding effective_access
has_access db user_id resource_type resource_id required =
    at_least required (effective_access db user_id resource_type resource_id)

abbrev pub approves : ℕ → AccessGrant → Bool
approves workspace_id grant =
    type_eq grant.resource_type approver_type && grant.resource_id == workspace_id

abbrev pub is_empty : List ℕ → Bool
is_empty [] = true
is_empty (x ∷ xs) = false

unfoldable pub is_approver : Database → ℕ → ℕ → Bool
unfolding user_team_ids
is_approver db user_id workspace_id =
    let team_ids = user_team_ids db.memberships user_id in
    if any (λ g. approves workspace_id g && (via_user g.granted_via && g.user_id == user_id))
      db.grants
    then true
    else if is_empty team_ids
    then false
    else any
        (λ g.
          approves workspace_id g && (not (via_user g.granted_via) && in_teams team_ids g.team_id))
        db.grants
