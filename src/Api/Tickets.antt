-- ===== src/Api/Tickets.antt =====
-- apps/api/tickets.py: the tickets of the tenant's workspaces.
pub mod Isolation
use autonomous_iq.Prelude.{ℕ, String, Bool, true, ◌&&◌, List, Option, none, some, ◌==◌, filter}
use autonomous_iq.Errors.{Response, ok, err, domain, not_found, require, ◌>>=◌, ◌>>◌}
use autonomous_iq.Models.Jobs.{Ticket, TicketStatus, open_}
use autonomous_iq.Models.Database.{Database, get_by, modify_by}
use autonomous_iq.Models.Schema.{insert_ticket}
use autonomous_iq.Api.Deps.{CurrentUser}
use autonomous_iq.Api.Trackers.{owns_workspace}

pub record CreateTicketRequest : Type 0 where
  pub workspace_id : ℕ
  pub title : String
  pub description : Option String
  pub category : String

pub record UpdateTicketRequest : Type 0 where
  pub status : Option TicketStatus
  pub title : Option String
  pub description : Option String

unfoldable pub create_ticket :
    ℕ → CreateTicketRequest → CurrentUser → Database → Response (Ticket × Database)
unfolding owns_workspace insert_ticket
create_ticket new_id body user db =
    require (owns_workspace db user.tenant_id body.workspace_id) not_found
    >> (let ticket : Ticket = record {
      id = new_id;
      workspace_id = body.workspace_id;
      status = open_;
      category = body.category;
      created_by = some user.user_id;
      title = body.title;
      description = body.description;
    } in
        insert_ticket ticket db >>= λ db'. ok (ticket, db'))

abbrev pub in_workspace : Option ℕ → Ticket → Bool
in_workspace none ticket = true
in_workspace (some workspace_id) ticket = ticket.workspace_id == workspace_id

unfoldable pub list_tickets : Option ℕ → CurrentUser → Database → List Ticket
unfolding owns_workspace
list_tickets workspace_id user db =
    filter (λ t. owns_workspace db user.tenant_id t.workspace_id && in_workspace workspace_id t)
      db.tickets

-- _get_tenant_ticket
unfoldable pub get_tenant_ticket : Database → ℕ → Option ℕ → Response Ticket
unfolding get_by owns_workspace
get_tenant_ticket db ticket_id tenant = elim (get_by (λ (t : Ticket). t.id) ticket_id db.tickets) [
  | none ↦ err (domain not_found)
  | some ticket ↦ require (owns_workspace db tenant ticket.workspace_id) not_found >> ok ticket
]

-- `if given is not None: field = given`
abbrev pub given_or {ℓ} : {A : Type ℓ} → Option A → A → A
given_or none old = old
given_or (some new) old = new

abbrev pub given_text : Option String → Option String → Option String
given_text none old = old
given_text (some new) old = some new

abbrev pub apply_update : UpdateTicketRequest → Ticket → Ticket
apply_update body ticket = record ticket {
  status = given_or body.status ticket.status;
  title = given_or body.title ticket.title;
  description = given_text body.description ticket.description;
}

unfoldable pub update_ticket :
    ℕ → UpdateTicketRequest → CurrentUser → Database → Response (Ticket × Database)
unfolding get_tenant_ticket modify_by
update_ticket ticket_id body user db = get_tenant_ticket db ticket_id user.tenant_id >>= λ ticket.
    ok (
      apply_update body ticket,
      record db {
        tickets = modify_by (λ (t : Ticket). t.id) ticket.id (apply_update body) db.tickets;
      },
    )
