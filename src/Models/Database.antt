-- ===== src/Models/Database.antt =====
-- The database of one session, and the queries that the program makes: `session.get`, the first
-- row of a `select`, all its rows, and the update of one row by its key.
use autonomous_iq.Prelude.{
  Bool-cases, inl, inr, ℕ, ◌≡◌, List, [], ◌∷◌, Option, none, some, ◌==◌, if◌then◌else◌, arith,
}
use autonomous_iq.Models.Tenancy.{Tenant, Team, User, TeamMembership, OAuthIdentity, PlatformUser}
use autonomous_iq.Models.Access.{AccessGrant, ResourceWorkspaceAccess}
use autonomous_iq.Models.Content.{
  Workspace, Dataset, Document, Tracker, ConnectorConfig, ChatMessage,
}
use autonomous_iq.Models.Jobs.{TransformationJob, Ticket, TenantRequest}
use autonomous_iq.Recalc.Repository.{Table}

pub record Database : Type 0 where
  pub tenants : List Tenant
  pub teams : List Team
  pub users : List User
  pub memberships : List TeamMembership
  pub identities : List OAuthIdentity
  pub platform_users : List PlatformUser
  pub grants : List AccessGrant
  pub bindings : List ResourceWorkspaceAccess
  pub workspaces : List Workspace
  pub datasets : List Dataset
  pub documents : List Document
  pub trackers : List Tracker
  pub cells : Table
  pub connectors : List ConnectorConfig
  pub messages : List ChatMessage
  pub jobs : List TransformationJob
  pub tickets : List Ticket
  pub requests : List TenantRequest

module _ {A : Type 0} (id_of : A → ℕ) where
  -- session.get(Model, id)
  unfoldable pub get_by : ℕ → List A → Option A
  get_by id [] = none
  get_by id (row ∷ rows) = if id_of row == id then some row else get_by id rows

  -- The assignments to a row that was got by its id, written at the commit.
  unfoldable pub modify_by : ℕ → (A → A) → List A → List A
  modify_by id f [] = []
  modify_by id f (row ∷ rows) = if id_of row == id then f row ∷ rows else row ∷ modify_by id f rows

  -- Such a write reaches the row of the id and no other.
  pub get_by-modify_by :
      (id : ℕ) (f : A → A) (rows : List A) (other : ℕ)
      → ((row : A) → id_of (f row) ≡ id_of row)
      → get_by other (modify_by id f rows) ≡ (
          if id == other
          then elim (get_by id rows) [ none ↦ none | some row ↦ some (f row) ]
          else get_by other rows)
  unfolding get_by modify_by
  get_by-modify_by id f [] other h = ground arith
  get_by-modify_by id f (row ∷ rows) other h =
      ground (arith, get_by-modify_by id f rows other h, h row)

  -- The ids of the rows are distinct, as for a primary key.
  unfoldable pub IsKeyed : List A → Type 0
  unfolding get_by
  IsKeyed [] = Unit
  IsKeyed (row ∷ rows) = (get_by (id_of row) rows ≡ none) × IsKeyed rows

  pub modify_by-IsKeyed :
      (id : ℕ) (f : A → A) (rows : List A)
      → ((row : A) → id_of (f row) ≡ id_of row)
      → IsKeyed rows
      → IsKeyed (modify_by id f rows)
  unfolding modify_by IsKeyed
  modify_by-IsKeyed id f [] h k = tt
  modify_by-IsKeyed id f (row ∷ rows) h k = elim (Bool-cases (id_of row == id)) [
    | inl e ↦ rw e (rw (h row) k.0, k.1)
    | inr e ↦ rw e (
      ground (arith, get_by-modify_by id f rows (id_of row) h, k.0),
      modify_by-IsKeyed id f rows h k.1,
    )
  ]

  -- A row that is found has the id that was asked for.
  pub get_by-id : (id : ℕ) (rows : List A) (row : A) → get_by id rows ≡ some row → id_of row ≡ id
  unfolding get_by
  get_by-id id [] row e = cc
  get_by-id id (r ∷ rows) row e = elim (Bool-cases (id_of r == id)) [
    | inl t ↦ let same = (rw (t, get_by) at e) in ground arith
    | inr t ↦ get_by-id id rows row (rw (t, get_by) at e)
  ]
