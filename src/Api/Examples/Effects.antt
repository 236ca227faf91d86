-- ===== src/Api/Examples/Effects.antt =====
-- The theorems about what a request changes, on the same tenant.
use autonomous_iq.Api.Examples.{true}
use autonomous_iq.Prelude.{◌≡◌, refl, [], ◌∷◌, ◌++◌, none, some}
use autonomous_iq.Prelude.Int.{pos}
use autonomous_iq.Prelude.Text.{codes}
use autonomous_iq.Errors.{ok, require, access_denied}
use autonomous_iq.Models.Tenancy.{User, viewer, developer, google}
use autonomous_iq.Models.Access.{edit}
use autonomous_iq.Models.Content.{Tracker}
use autonomous_iq.Models.Database.{Database, get_by, IsKeyed}
use autonomous_iq.Recalc.Repository.{TrackerCell, no_error}
use autonomous_iq.Recalc.Engine.Examples.{text_sidecar}
use autonomous_iq.Api.Users.{InviteUserRequest, invited_row, invite_user, set_role, update_role}
use autonomous_iq.Api.Users.Roles.{
  Invited, invite_user_effect, role_written, RoleChanged, update_role_effect,
}
use autonomous_iq.Api.Trackers.{CellEditRequest, require_access, edit_cell, detail}
use autonomous_iq.Api.Trackers.Guard.{
  may_use, require_access_iff, with_cells, CellEdited, edit_cell_effect,
}
use autonomous_iq.Models.Jobs.{TenantRequest, pending, approved, Ticket, open_, closed}
use autonomous_iq.Api.Requests.{review, approve_request}
use autonomous_iq.Api.Requests.Provision.{
  request_id, new_tenant, first_admin, provisioned, approve_request_effect,
}
use autonomous_iq.Api.Tickets.{UpdateTicketRequest, apply_update, update_ticket}
use autonomous_iq.Api.Tickets.Isolation.{ticket_written, TicketUpdated, update_ticket_effect}
use autonomous_iq.Api.Auth.{new_viewer, linked, sign_in}
use autonomous_iq.Api.Auth.Callback.{user_id, sign_in_again}
use autonomous_iq.Api.Examples.{acme, caller, member_row}

abbrev invitation : InviteUserRequest
invitation = record { email = "new@acme"; role = viewer; team_id = some 1 }

abbrev newcomer : User
newcomer = invited_row 4 1 "h" invitation

abbrev after_invitation : Database
after_invitation = record acme {
  users = acme.users ++ newcomer ∷ [];
  memberships = acme.memberships ++ record { user_id = 4; team_id = 1 } ∷ [];
}

invitation_is : invite_user 4 "h" invitation (caller 2) acme ≡ ok (newcomer, after_invitation)
unfolding invite_user
invitation_is = refl

invite_user_effect_example : Invited invitation (caller 2) acme newcomer after_invitation
invite_user_effect_example =
    invite_user_effect 4 "h" invitation (caller 2) acme after_invitation newcomer invitation_is

abbrev promoted : User
promoted = set_role developer (member_row 3 "view@acme" viewer)

abbrev after_promotion : Database
after_promotion = role_written developer (member_row 3 "view@acme" viewer) acme

promotion_is : update_role 3 developer (caller 1) acme ≡ ok (promoted, after_promotion)
unfolding update_role
promotion_is = refl

update_role_effect_example : RoleChanged 3 developer (caller 1) acme after_promotion promoted
update_role_effect_example =
    update_role_effect 3 developer (caller 1) acme after_promotion promoted promotion_is

abbrev budget : Tracker
budget = record {
  id = 1;
  tenant_id = 1;
  created_by = some 1;
  name = "Budget";
  schema_definition = "{}";
}

require_access_iff_example :
    require_access acme budget 3 edit ≡ require (may_use acme budget 3 edit) access_denied
require_access_iff_example = require_access_iff acme budget 3 edit

abbrev write_six : CellEditRequest
write_six = record {
  row_idx = pos 1;
  col_idx = pos 0;
  raw_value = some (codes "6");
  formula = none;
}

abbrev six : TrackerCell
six = record {
  tracker_id = 1;
  coord = record { row = pos 1; col = pos 0 };
  tenant_id = 1;
  raw_value = some (codes "6");
  formula = none;
  computed_value = none;
  depends_on = some [];
  error_state = no_error;
}

abbrev after_six : Database
after_six = with_cells (six ∷ []) acme

write_six_is :
    edit_cell text_sidecar 1 write_six (caller 2) acme ≡ ok (detail after_six budget, after_six)
unfolding edit_cell autonomous_iq.Recalc.Coord.coord_eq
write_six_is = refl

edit_cell_effect_example : CellEdited 1 (caller 2) acme after_six (detail after_six budget)
edit_cell_effect_example =
    edit_cell_effect text_sidecar 1 write_six (caller 2) acme (detail after_six budget) after_six tt
      write_six_is

users-IsKeyed : IsKeyed user_id acme.users
unfolding IsKeyed
users-IsKeyed = (refl, (refl, (refl, tt)))

abbrev visitor : User
visitor = new_viewer 4 1 "g@acme" none

abbrev after_visit : Database
after_visit = linked google "g1" visitor (record acme { users = acme.users ++ visitor ∷ [] })

visit_is : sign_in 4 google "g1" (some "g@acme") 1 acme ≡ ok (visitor, after_visit)
unfolding sign_in
visit_is = refl

fresh_id : get_by user_id 4 acme.users ≡ none
unfolding get_by
fresh_id = refl

sign_in_again_example : sign_in 5 google "g1" none 2 after_visit ≡ ok (visitor, after_visit)
sign_in_again_example =
    sign_in_again 4 google "g1" (some "g@acme") 1 acme after_visit visitor users-IsKeyed fresh_id
      visit_is 5 none 2

abbrev asked : TenantRequest
asked = record {
  id = 1;
  company_name = "Globex";
  contact_info = "boss@globex";
  status = pending;
  reviewed_by = none;
  reviewed_at = none;
}

abbrev with_request : Database
with_request = record acme {
  requests = asked ∷ [];
  platform_users =
      record {
        id = 8;
        email = "root@acme.com";
        password_hash = "r";
        is_super_admin = true;
        active = true;
      }
      ∷ [];
}

asked_found : get_by request_id 1 with_request.requests ≡ some asked
unfolding get_by
asked_found = refl

approve_request_effect_example :
    approve_request 9 2 5 "h" 1 (caller 8) with_request
    ≡ ok (
      (new_tenant 2 asked, first_admin 5 2 "h" asked),
      review approved 8 9 asked
          (provisioned (new_tenant 2 asked) (first_admin 5 2 "h" asked) with_request),
    )
approve_request_effect_example =
    approve_request_effect 9 2 5 "h" 1 (caller 8) with_request asked asked_found refl

abbrev issue : Ticket
issue = record {
  id = 1;
  workspace_id = 1;
  status = open_;
  category = "general";
  created_by = some 3;
  title = "Slow";
  description = none;
}

abbrev with_ticket : Database
with_ticket = record acme {
  workspaces =
      record { id = 1; tenant_id = 1; created_by = none; name = "Main"; self_serve = true } ∷ [];
  tickets = issue ∷ [];
}

abbrev closing : UpdateTicketRequest
closing = record { status = some closed; title = none; description = none }

abbrev after_closing : Database
after_closing = ticket_written closing issue with_ticket

closing_is :
    update_ticket 1 closing (caller 3) with_ticket ≡ ok (apply_update closing issue, after_closing)
unfolding update_ticket
closing_is = refl

update_ticket_effect_example :
    TicketUpdated 1 (caller 3) with_ticket after_closing (apply_update closing issue)
update_ticket_effect_example =
    update_ticket_effect 1 closing (caller 3) with_ticket after_closing (apply_update closing issue)
      closing_is
