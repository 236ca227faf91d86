-- ===== src/Access/Decision.antt =====
-- What the resolution of access decides, in terms of the grants and the bindings alone.
use autonomous_iq.Prelude.{
  ℕ, ◌≡◌, refl, ◌∙◌, Bool, true, false, not, ◌&&◌, ◌||◌, List, [], ◌∷◌, Option, none, some, arith,
  ◌==◌, ltb, leb, filter, any, Bool-cases, inl, inr,
}
use autonomous_iq.Models.Access.{
  GrantResourceType, via_user, AccessGrant, AccessLevel, ResourceWorkspaceAccess,
}
use autonomous_iq.Models.Database.{Database}
use autonomous_iq.Access.{
  level_rank, user_team_ids, in_teams, holds, grants_workspace, binds, better, best_level, at_least,
  has_access, approves, is_empty, is_approver,
}

-- A grant on the workspace of the binding is held by the user, directly or through a team.
abbrev pub is_granted : List AccessGrant → ℕ → List ℕ → ResourceWorkspaceAccess → Bool
is_granted grants user_id team_ids b = any (grants_workspace user_id team_ids b.workspace_id) grants

-- Such a binding with at least the level that is required.
abbrev pub suffices : List AccessGrant → ℕ → List ℕ → AccessLevel → ResourceWorkspaceAccess → Bool
suffices grants user_id team_ids required b =
    is_granted grants user_id team_ids b && leb (level_rank required) (level_rank b.access_level)

at_least-better :
    (required : AccessLevel) (best : Option AccessLevel) (level : AccessLevel)
    → at_least required (better best level)
      ≡ (at_least required best || leb (level_rank required) (level_rank level))
at_least-better required none level = refl
at_least-better required (some best) level =
    elim (Bool-cases (ltb (level_rank best) (level_rank level))) [
      | inl e ↦ rw e (ground arith)
      | inr e ↦ rw e (ground arith)
    ]

at_least-best_level :
    (grants : List AccessGrant) (user_id : ℕ) (team_ids : List ℕ) (required : AccessLevel)
    (best : Option AccessLevel) (bs : List ResourceWorkspaceAccess)
    → at_least required (best_level grants user_id team_ids best bs)
      ≡ (at_least required best || any (suffices grants user_id team_ids required) bs)
unfolding best_level
at_least-best_level grants user_id team_ids required best [] = ground arith
at_least-best_level grants user_id team_ids required best (b ∷ bs) =
    elim (Bool-cases (is_granted grants user_id team_ids b)) [
      | inl e ↦
          rw (e, best_level)
            (ground (
              arith,
              at_least-best_level grants user_id team_ids required (better best b.access_level) bs,
              at_least-better required best b.access_level,
            ))
      | inr e ↦
          rw (e, best_level)
            (ground (arith, at_least-best_level grants user_id team_ids required best bs))
    ]

any-filter {ℓ} :
    {A : Type ℓ} (p q : A → Bool) (xs : List A) → any p (filter q xs) ≡ any (λ x. q x && p x) xs
any-filter p q [] = refl
any-filter p q (x ∷ xs) = ground (arith, any-filter p q xs)

-- A user has access at a level exactly if some binding of the resource gives that level or a
-- higher one, and the user holds a grant on its workspace, directly or through a team.
pub has_access_iff :
    (db : Database) (user_id : ℕ) (resource_type : GrantResourceType) (resource_id : ℕ)
    (required : AccessLevel)
    → has_access db user_id resource_type resource_id required
      ≡ any
          (λ b.
            binds resource_type resource_id b
            && suffices db.grants user_id (user_team_ids db.memberships user_id) required b)
          db.bindings
unfolding has_access
has_access_iff db user_id resource_type resource_id required =
    at_least-best_level db.grants user_id (user_team_ids db.memberships user_id) required none
      (filter (binds resource_type resource_id) db.bindings)
    ∙ any-filter (suffices db.grants user_id (user_team_ids db.memberships user_id) required)
        (binds resource_type resource_id) db.bindings

any-or {ℓ} :
    {A : Type ℓ} (p q r : A → Bool) (xs : List A)
    → any (λ x. p x && (q x || r x)) xs ≡ (any (λ x. p x && q x) xs || any (λ x. p x && r x) xs)
any-or p q r [] = refl
any-or p q r (x ∷ xs) = ground (arith, any-or p q r xs)

none_in_teams :
    (workspace_id : ℕ) (team_ids : List ℕ) (grants : List AccessGrant)
    → is_empty team_ids ≡ true
    → any
        (λ g.
          approves workspace_id g && (not (via_user g.granted_via) && in_teams team_ids g.team_id))
        grants
      ≡ false
none_in_teams workspace_id (t ∷ ts) grants h = cc
none_in_teams workspace_id [] [] h = refl
none_in_teams workspace_id [] (g ∷ grants) h =
    ground (arith, none_in_teams workspace_id [] grants h)

-- A user is an approver of a workspace exactly if the user holds an is_approver grant on it,
-- directly or through a team: the two queries and the early return decide just that.
pub is_approver_iff :
    (db : Database) (user_id workspace_id : ℕ)
    → is_approver db user_id workspace_id
      ≡ any
          (λ g. approves workspace_id g && holds user_id (user_team_ids db.memberships user_id) g)
          db.grants
unfolding is_approver
is_approver_iff db user_id workspace_id =
    let team_ids = user_team_ids db.memberships user_id in
    ground (
      arith,
      any-or (approves workspace_id) (λ g. via_user g.granted_via && g.user_id == user_id)
          (λ g. not (via_user g.granted_via) && in_teams team_ids g.team_id) db.grants,
      none_in_teams workspace_id team_ids db.grants,
    )
