-- ===== src/Planner/Turn/Twice.antt =====
-- A query that is proposed twice, through _dispatch and the loop over the calls of
-- apps/planner/planner.py.
use autonomous_iq.Prelude.{ℕ, ◌≡◌, refl, true, List, [], ◌∷◌, some, inl, inr, ◌==◌, ==_iff}
use autonomous_iq.Prelude.Text.{Text, codes, text_eq}
use autonomous_iq.Errors.{integrity_error}
use autonomous_iq.Models.Content.{Dataset}
use autonomous_iq.Models.Database.{get_by}
use autonomous_iq.Models.Session.{Session, done, raised}
use autonomous_iq.Planner.Provider.{Dict, ToolCallRequest}
use autonomous_iq.Planner.Tools.{Library, ToolResult, sql_query_tool, proposed_job}
use autonomous_iq.Planner.Tools.Proposing.{data_id, insert_cases, propose_twice}
use autonomous_iq.Planner.Turn.{
  Caller, Results, caught, selected, get_default, try_sql, dispatch, run_calls,
}

-- A call that asks for a query on a dataset.
pub record AsksQuery (lib : Library) (context : Dict) (call : ToolCallRequest) (dataset_id : ℕ)
    (sql : Text) : Type 0 where
  pub tool : text_eq call.tool_name (codes "sql_query_tool") ≡ true
  pub name : Text
  pub named : selected (codes "dataset_id") context call.arguments ≡ some name
  pub is_uuid : lib.uuid_of name ≡ some dataset_id
  pub query :
      get_default (codes "sql") (get_default (codes "prompt") [] call.arguments) call.arguments
      ≡ sql

module _ (lib : Library) where
  dispatch-AsksQuery :
      (new_id : ℕ) (caller : Caller) (context : Dict) (call : ToolCallRequest) (dataset_id : ℕ)
      (sql : Text) (s : Session)
      → AsksQuery lib context call dataset_id sql
      → dispatch lib new_id caller context call s
        ≡ caught (sql_query_tool lib new_id caller.tenant_id dataset_id sql caller.user_id s)
  unfolding dispatch
  dispatch-AsksQuery new_id caller context call dataset_id sql s asks =
      rw (asks.tool, try_sql, asks.named, asks.is_uuid, asks.query) refl

  -- On a dataset of the tenant the tool itself has answered.
  answered :
      (new_id tenant_id dataset_id : ℕ) (sql : Text) (created_by : ℕ) (s : Session)
      (result : ToolResult) (s' : Session) (d : Dataset)
      → get_by data_id dataset_id s.working.datasets ≡ some d
      → d.tenant_id ≡ tenant_id
      → caught (sql_query_tool lib new_id tenant_id dataset_id sql created_by s) ≡ done result s'
      → sql_query_tool lib new_id tenant_id dataset_id sql created_by s ≡ done result s'
  unfolding sql_query_tool
  answered new_id tenant_id dataset_id sql created_by s result s' d e own h =
      let owned : (d.tenant_id == tenant_id) ≡ true = (==_iff d.tenant_id tenant_id).1 own in
      elim (insert_cases (proposed_job lib new_id dataset_id d.version sql created_by) s.working) [
        | inl g ↦
            let reached = (rw (e, owned, g, sql_query_tool) at h) in
            rw (e, owned, g, sql_query_tool) (cc reached)
        | inr g ↦ absurd (let clash = (rw (e, owned, g, sql_query_tool) at h) in cc)
      ]

  -- Once a call has proposed a query on a dataset of its caller's tenant, a later call that asks for
  -- the same text, on a dataset of its caller's tenant of the same version, ends the loop over the
  -- calls with an integrity error, also if that tenant is another one: the handlers of _dispatch do
  -- not catch it, and the calls behind it are not run.
  pub run_calls-propose_twice :
      (new_id : ℕ) (caller : Caller) (context : Dict) (call : ToolCallRequest) (dataset_id : ℕ)
      (sql : Text) (s : Session) (result : ToolResult) (s' : Session) (first : Dataset)
      (later_id : ℕ → ℕ) (n : ℕ) (later : Caller) (later_context : Dict) (again : ToolCallRequest)
      (calls : List ToolCallRequest) (so_far : Results × Text) (other_id : ℕ) (other : Dataset)
      → AsksQuery lib context call dataset_id sql
      → get_by data_id dataset_id s.working.datasets ≡ some first
      → first.tenant_id ≡ caller.tenant_id
      → dispatch lib new_id caller context call s ≡ done result s'
      → AsksQuery lib later_context again other_id sql
      → get_by data_id other_id s'.working.datasets ≡ some other
      → other.tenant_id ≡ later.tenant_id
      → other.version ≡ first.version
      → run_calls lib later_id n later later_context (again ∷ calls) so_far s'
        ≡ raised integrity_error s'
  unfolding run_calls
  run_calls-propose_twice new_id caller context call dataset_id sql s result s' first later_id n
        later later_context again calls so_far other_id other asks found own ran asks_again there
        its_own version =
      let tool_ran : caught
            (sql_query_tool lib new_id caller.tenant_id dataset_id sql caller.user_id s)
          ≡ done result s' =
        cc (dispatch-AsksQuery new_id caller context call dataset_id sql s asks, ran) in
      let refused =
        propose_twice lib new_id caller.tenant_id dataset_id sql caller.user_id s result s' first
          (later_id n) later.tenant_id other_id later.user_id other found
          (answered new_id caller.tenant_id dataset_id sql caller.user_id s result s' first found
            own tool_ran)
          there its_own version in
      rw
        (
          dispatch-AsksQuery (later_id n) later later_context again other_id sql s' asks_again,
          refused,
        )
        refl
