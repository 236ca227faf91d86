-- ===== src/Api/Workspaces.antt =====
-- apps/api/workspaces.py.
use autonomous_iq.Prelude.{List, filter}
use autonomous_iq.Models.Content.{Workspace}
use autonomous_iq.Models.Database.{Database}
use autonomous_iq.Api.Deps.{CurrentUser, same_tenant}

unfoldable pub list_workspaces : CurrentUser → Database → List Workspace
list_workspaces user db =
    filter (λ (w : Workspace). same_tenant w.tenant_id user.tenant_id) db.workspaces
