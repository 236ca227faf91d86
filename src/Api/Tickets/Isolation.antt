-- ===== src/Api/Tickets/Isolation.antt =====
-- update_ticket of apps/api/tickets.py and the tenant of its ticket.
use autonomous_iq.Prelude.{
  ℕ, ◌≡◌, ◌≢◌, refl, ◌∙◌, true, Option, some, arith, Option-cases, inl, inr, ap, subst,
}
use autonomous_iq.Errors.{ok, not_found, >>=-ok, require-ok}
use autonomous_iq.Models.Jobs.{Ticket}
use autonomous_iq.Models.Database.{Database, get_by, modify_by, get_by-modify_by, get_by-id}
use autonomous_iq.Api.Deps.{CurrentUser}
use autonomous_iq.Api.Trackers.{owns_workspace}
use autonomous_iq.Api.Tickets.{UpdateTicketRequest, apply_update, get_tenant_ticket, update_ticket}

abbrev pub ticket_id : Ticket → ℕ
ticket_id t = t.id

abbrev pub ticket_written : UpdateTicketRequest → Ticket → Database → Database
ticket_written body ticket db = record db {
  tickets = modify_by ticket_id ticket.id (apply_update body) db.tickets;
}

-- What the success of an update shows.
pub record TicketUpdated (id : ℕ) (user : CurrentUser) (db db' : Database) (ticket : Ticket)
    : Type 0 where
  pub in_tenant : owns_workspace db user.tenant_id ticket.workspace_id ≡ true
  pub written : get_by ticket_id id db'.tickets ≡ some ticket
  pub others :
      (other : ℕ)
      → id ≢ other
      → get_by ticket_id other db'.tickets ≡ get_by ticket_id other db.tickets

updated :
    (id : ℕ) (body : UpdateTicketRequest) (user : CurrentUser) (db : Database) (row : Ticket)
    → get_by ticket_id id db.tickets ≡ some row
    → owns_workspace db user.tenant_id row.workspace_id ≡ true
    → TicketUpdated id user db (ticket_written body row db) (apply_update body row)
updated id body user db row found owned =
    let same = get_by-id ticket_id id db.tickets row found in
    record {
      in_tenant = owned;
      written =
          get_by-modify_by ticket_id row.id (apply_update body) db.tickets id (λ t. refl)
          ∙ rw (same, found) (ground arith);
      others = λ other apart.
          get_by-modify_by ticket_id row.id (apply_update body) db.tickets other (λ t. refl)
          ∙ rw same (ground arith);
    }

get_tenant_ticket-ok :
    (db : Database) (id : ℕ) (tenant : Option ℕ) (row : Ticket)
    → get_tenant_ticket db id tenant ≡ ok row
    → (get_by ticket_id id db.tickets ≡ some row)
      × (owns_workspace db tenant row.workspace_id ≡ true)
unfolding get_tenant_ticket
get_tenant_ticket-ok db id tenant row h = elim (Option-cases (get_by ticket_id id db.tickets)) [
  | inl m ↦ absurd (let clash = (rw (m, get_tenant_ticket) at h) in cc)
  | inr (found, e) ↦
      let (owned, same) =
        require-ok (owns_workspace db tenant found.workspace_id) not_found (ok found)
          (rw (e, get_tenant_ticket) at h) in
      let is_row : found ≡ row = cc in
      (
        e ∙ ap some is_row,
        subst (λ (t : Ticket). owns_workspace db tenant t.workspace_id ≡ true) is_row owned,
      )
]

-- An update of a ticket that succeeds is of a ticket in a workspace of the caller's tenant; it
-- writes that ticket and leaves every other one as it was.
pub update_ticket_effect :
    (id : ℕ) (body : UpdateTicketRequest) (user : CurrentUser) (db db' : Database) (ticket : Ticket)
    → update_ticket id body user db ≡ ok (ticket, db')
    → TicketUpdated id user db db' ticket
unfolding update_ticket
update_ticket_effect id body user db db' ticket h =
    let (row, got, rest) =
      >>=-ok (get_tenant_ticket db id user.tenant_id)
        (λ t. ok (apply_update body t, ticket_written body t db)) h in
    let (found, owned) = get_tenant_ticket-ok db id user.tenant_id row got in
    let is_ticket : apply_update body row ≡ ticket = cc in
    let is_db : ticket_written body row db ≡ db' = cc in
    subst (λ (t : Ticket). TicketUpdated id user db db' t) is_ticket
      (subst (λ (d : Database). TicketUpdated id user db d (apply_update body row)) is_db
        (updated id body user db row found owned))
