-- ===== src/Api/Users/Roles.antt =====
-- What an invitation and a change of a role can do (FR-3).
use autonomous_iq.Prelude.{
  ℕ, String, ◌≡◌, ◌≢◌, refl, sym, ◌∙◌, Bool, true, false, not, ◌&&◌, [], ◌∷◌, ◌++◌, Option, none,
  some, arith, subst, Option-cases, inl, inr, ap,
}
use autonomous_iq.Errors.{
  Response, ok, access_denied, not_found, require, >>=-ok, require-ok, ◌>>=◌, ◌>>◌,
}
use autonomous_iq.Models.Tenancy.{TenantRole, is_admin, User}
use autonomous_iq.Models.Database.{Database, get_by, modify_by, get_by-modify_by, get_by-id}
use autonomous_iq.Models.Schema.{
  constraint, tenant_exists, email_taken, insert_user, insert_membership, not_null,
}
use autonomous_iq.Api.Deps.{CurrentUser, same_tenant}
use autonomous_iq.Api.Approvals.{is_tenant_admin}
use autonomous_iq.Api.Users.{
  InviteUserRequest, may_invite, join_team, invite_user, invited_row, add_user, get_tenant_user,
  set_role, update_role,
}

abbrev pub user_id : User → ℕ
user_id u = u.id

-- What the success of an invitation shows.
pub record Invited (body : InviteUserRequest) (user : CurrentUser) (db : Database) (new_user : User)
    (db' : Database) : Type 0 where
  pub in_tenant : same_tenant new_user.tenant_id user.tenant_id ≡ true
  pub role_is : new_user.role ≡ body.role
  pub admins_by_admins : is_admin body.role ≡ true → is_tenant_admin db user.user_id ≡ true
  pub email_free : email_taken db new_user.tenant_id body.email ≡ false
  pub users_are : db'.users ≡ db.users ++ new_user ∷ []

constraint-ok {ℓ} :
    {B : Type ℓ} (test : Bool) (m : Response B) {b : B}
    → (constraint test >> m) ≡ ok b
    → (test ≡ true) × (m ≡ ok b)
constraint-ok true m h = (refl, h)
constraint-ok false m h = cc

not_null-ok : (t : Option ℕ) (tenant : ℕ) → not_null t ≡ ok tenant → same_tenant tenant t ≡ true
not_null-ok none tenant h = cc
not_null-ok (some t) tenant h = ground arith

may_invite-is_admin :
    (db : Database) (actor : User) (body : InviteUserRequest)
    → may_invite db actor body ≡ true
    → is_admin body.role ≡ true
    → is_admin actor.role ≡ true
unfolding may_invite
may_invite-is_admin db actor body h a = ground arith

join_team-users :
    (team : Option ℕ) (id : ℕ) (db db' : Database)
    → join_team team id db ≡ ok db'
    → db'.users ≡ db.users
unfolding join_team insert_membership
join_team-users none id db db' h = ground arith
join_team-users (some team) id db db' h = ground arith

is_tenant_admin_found :
    (db : Database) (id : ℕ) (actor : User)
    → get_by user_id id db.users ≡ some actor
    → is_tenant_admin db id ≡ is_admin actor.role
unfolding is_tenant_admin
is_tenant_admin_found db id actor e = rw (e, is_tenant_admin) refl

insert_user-ok :
    (u : User) (db db' : Database)
    → insert_user u db ≡ ok db'
    → (email_taken db u.tenant_id u.email ≡ false) × (db'.users ≡ db.users ++ u ∷ [])
unfolding insert_user
insert_user-ok u db db' h =
    let (free, done) =
      constraint-ok (tenant_exists db u.tenant_id && not (email_taken db u.tenant_id u.email)) _
        h in
    (ground arith, ground arith)

add_user-ok :
    (u : User) (team : Option ℕ) (db db' : Database) (new_user : User)
    → add_user u team db ≡ ok (new_user, db')
    → (new_user ≡ u)
      × (email_taken db u.tenant_id u.email ≡ false)
      × (db'.users ≡ db.users ++ u ∷ [])
unfolding add_user
add_user-ok u team db db' new_user h =
    let (db1, inserted, rest) =
      >>=-ok (insert_user u db) (λ db1. join_team team u.id db1 >>= λ db2. ok (u, db2)) h in
    let (db2, joined, done) = >>=-ok (join_team team u.id db1) (λ db2. ok (u, db2)) rest in
    let (free, users) = insert_user-ok u db db1 inserted in
    let same : db2 ≡ db' = cc in
    let same_user : new_user ≡ u = cc in
    (
      same_user,
      free,
      ap (λ (d : Database). d.users) (sym same) ∙ join_team-users team u.id db1 db2 joined ∙ users,
    )

-- An invitation that succeeds adds one user, of the caller's tenant and of the role asked for,
-- whose email the tenant did not have; and an admin is only ever added by an admin.
pub invite_user_effect :
    (new_id : ℕ) (hash : String) (body : InviteUserRequest) (user : CurrentUser) (db db' : Database)
    (new_user : User)
    → invite_user new_id hash body user db ≡ ok (new_user, db')
    → Invited body user db new_user db'
unfolding invite_user insert_user
invite_user_effect new_id hash body user db db' new_user h =
    elim (Option-cases (get_by user_id user.user_id db.users)) [
      | inl m ↦ absurd (let clash = (rw (m, invite_user) at h) in cc)
      | inr (actor, found) ↦
          let chain = (rw (found, invite_user) at h) in
          let (tenant, first, rest) =
            >>=-ok (require (may_invite db actor body) access_denied >> not_null user.tenant_id)
              (λ tenant. add_user (invited_row new_id tenant hash body) body.team_id db) chain in
          let (may, is_tenant) =
            require-ok (may_invite db actor body) access_denied (not_null user.tenant_id) first in
          let (same, free, users) =
            add_user-ok (invited_row new_id tenant hash body) body.team_id db db' new_user rest in
          rw same (record {
            in_tenant = not_null-ok user.tenant_id tenant is_tenant;
            role_is = refl;
            admins_by_admins = λ a.
                is_tenant_admin_found db user.user_id actor found
                ∙ may_invite-is_admin db actor body may a;
            email_free = free;
            users_are = users;
          })
    ]

abbrev pub role_written : TenantRole → User → Database → Database
role_written role target db = record db {
  users = modify_by user_id target.id (set_role role) db.users;
}

get_tenant_user-ok :
    (db : Database) (id : ℕ) (tenant : Option ℕ) (row : User)
    → get_tenant_user db id tenant ≡ ok row
    → (get_by user_id id db.users ≡ some row) × (same_tenant row.tenant_id tenant ≡ true)
unfolding get_tenant_user
get_tenant_user-ok db id tenant row h = elim (Option-cases (get_by user_id id db.users)) [
  | inl m ↦ absurd (let clash = (rw (m, get_tenant_user) at h) in cc)
  | inr (found, e) ↦
      let (owned, same) =
        require-ok (same_tenant found.tenant_id tenant) not_found (ok found)
          (rw (e, get_tenant_user) at h) in
      let is_row : found ≡ row = cc in
      (e ∙ ap some is_row, subst (λ (r : User). same_tenant r.tenant_id tenant ≡ true) is_row owned)
]

-- What the success of a change of a role shows.
pub record RoleChanged (id : ℕ) (role : TenantRole) (user : CurrentUser) (db db' : Database)
    (target : User) : Type 0 where
  pub by_admin : is_tenant_admin db user.user_id ≡ true
  pub in_tenant : same_tenant target.tenant_id user.tenant_id ≡ true
  pub written : get_by user_id id db'.users ≡ some target
  pub role_is : target.role ≡ role
  pub others :
      (other : ℕ) → id ≢ other → get_by user_id other db'.users ≡ get_by user_id other db.users

role_changed :
    (id : ℕ) (role : TenantRole) (user : CurrentUser) (db : Database) (row : User)
    → is_tenant_admin db user.user_id ≡ true
    → get_by user_id id db.users ≡ some row
    → same_tenant row.tenant_id user.tenant_id ≡ true
    → RoleChanged id role user db (role_written role row db) (set_role role row)
role_changed id role user db row may found owned =
    let same = get_by-id user_id id db.users row found in
    record {
      by_admin = may;
      in_tenant = owned;
      written =
          get_by-modify_by user_id row.id (set_role role) db.users id (λ u. refl)
          ∙ rw (same, found) (ground arith);
      role_is = refl;
      others = λ other apart.
          get_by-modify_by user_id row.id (set_role role) db.users other (λ u. refl)
          ∙ rw same (ground arith);
    }

-- A change of a role that succeeds is made by an admin, to a user of the caller's tenant, who has
-- the new role afterwards; every other user is as before.
pub update_role_effect :
    (id : ℕ) (role : TenantRole) (user : CurrentUser) (db db' : Database) (target : User)
    → update_role id role user db ≡ ok (target, db')
    → RoleChanged id role user db db' target
unfolding update_role
update_role_effect id role user db db' target h =
    let (row, first, rest) =
      >>=-ok
        (require (is_tenant_admin db user.user_id) access_denied
          >> get_tenant_user db id user.tenant_id)
        (λ t. ok (set_role role t, role_written role t db)) h in
    let (may, got) =
      require-ok (is_tenant_admin db user.user_id) access_denied
        (get_tenant_user db id user.tenant_id) first in
    let (found, owned) = get_tenant_user-ok db id user.tenant_id row got in
    let is_target : set_role role row ≡ target = cc in
    let is_db : role_written role row db ≡ db' = cc in
    subst (λ (t : User). RoleChanged id role user db db' t) is_target
      (subst (λ (d : Database). RoleChanged id role user db d (set_role role row)) is_db
        (role_changed id role user db row may found owned))
